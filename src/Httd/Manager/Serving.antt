-- ===== src/Httd/Manager/Serving.antt =====
-- internal/httd/bucket_manager.go: what one call for a bucket does to the pointers of a manager.
use disgord.Base.{
  ℕ, zero, suc, ◌≡◌, ◌≢◌, ◌<◌, refl, sym, subst, ◌∙◌, ap, List, [], ◌∷◌, Option, some, String,
  str_eq, length, get_elem?, set, arith, eq_iff, inl, inr, Bool-cases, Option-cases, length-append,
  length-set,
}
use disgord.Httd.Bucket.{LtBucket, new_leaky_bucket}
use disgord.Httd.Manager.{
  find, put, Manager, text_of, pointer_of, proxy_id, update_proxy_id, bucket, bucket_at, called,
  with_hash,
}
use disgord.Httd.Manager.Maps.{
  IsInto, find-IsInto, put-IsInto, grow-IsInto, find-put_same, str_eq-ne, find-put_other,
}

abbrev pub IsWired : Manager → Type 0
IsWired m = IsInto (length m.store) m.buckets

module _ (id : String) (m : Manager) where
  -- The endpoint has a proxy afterwards, and nothing else has changed.
  record HasProxy (r : Manager × String) : Type 0 where
    proxied : find id r.0.proxy ≡ some r.1
    same_buckets : r.0.buckets ≡ m.buckets
    same_store : r.0.store ≡ m.store
    others : (j : String) → id ≢ j → find j r.0.proxy ≡ find j m.proxy

  proxy_id-HasProxy : HasProxy (proxy_id id m)
  unfolding proxy_id
  proxy_id-HasProxy = elim (Option-cases (find id m.proxy)) [
    | inl e ↦
        rw (e, proxy_id)
          (record {
            proxied = find-put_same id id m.proxy;
            same_buckets = refl;
            same_store = refl;
            others = λ j ne. find-put_other id j id m.proxy ne;
          })
    | inr (p, e) ↦
        rw (e, proxy_id)
          (record { proxied = e; same_buckets = refl; same_store = refl; others = λ j ne. refl })
  ]

module _ (now : ℕ) (pid : String) (m : Manager) (v : IsWired m) where
  record HasBucket (r : Manager × Option ℕ) : Type 0 where
    place : ℕ
    found : r.1 ≡ some place
    kept : find pid r.0.buckets ≡ some (some place)
    inside : place < length r.0.store
    wired : IsWired r.0
    same_proxy : r.0.proxy ≡ m.proxy

  bucket_at-HasBucket : HasBucket (bucket_at now pid m)
  unfolding bucket_at
  bucket_at-HasBucket = elim (find-IsInto (length m.store) pid m.buckets v) [
    | inr (p, e, lt) ↦
        rw (e, bucket_at)
          (record { place = p; found = refl; kept = e; inside = lt; wired = v; same_proxy = refl })
    | inl e ↦
        let longer = length-append m.store (new_leaky_bucket now ∷ []) in
        rw (e, bucket_at)
          (record {
            place = length m.store;
            found = refl;
            kept = find-put_same pid (some (length m.store)) m.buckets;
            inside = omega (arith, longer);
            wired =
                subst (λ n. IsInto n (put pid (some (length m.store)) m.buckets))
                  (sym (longer ∙ omega arith))
                  (put-IsInto (suc (length m.store)) (length m.store) pid m.buckets (omega arith)
                    (grow-IsInto (length m.store) m.buckets v));
            same_proxy = refl;
          })
  ]

module _ (id pid hash : String) (p : ℕ) (m : Manager) (v : IsWired m) (some_hash : hash ≢ "")
    (proxied : find id m.proxy ≡ some pid) (kept : find pid m.buckets ≡ some (some p))
    (inside : p < length m.store) where
  record IsLinked (r : Manager) : Type 0 where
    place : ℕ
    linked : find id r.proxy ≡ some hash
    shared : find hash r.buckets ≡ some (some place)
    wired : IsWired r
    others : (j : String) → id ≢ j → find j r.proxy ≡ find j m.proxy

  -- The endpoint leads to its hash, with whatever buckets.
  relinked :
      (bs : List (String × Option ℕ)) (q : ℕ)
      → find hash bs ≡ some (some q)
      → IsInto (length m.store) bs
      → IsLinked (record m { buckets = bs; proxy = put id hash m.proxy })
  relinked bs q e w = record {
    place = q;
    linked = find-put_same id hash m.proxy;
    shared = e;
    wired = w;
    others = λ j ne. find-put_other id j hash m.proxy ne;
  }

  new_link : pointer_of (find (text_of (find id m.proxy)) m.buckets) ≡ some p
  new_link = ap (λ o. pointer_of (find (text_of o) m.buckets)) proxied ∙ ap pointer_of kept

  link_hash : IsLinked (record m { buckets = with_hash id hash m; proxy = put id hash m.proxy })
  unfolding with_hash
  link_hash = elim (find-IsInto (length m.store) hash m.buckets v) [
    | inr (q, e, lt) ↦ rw (e, with_hash) (relinked m.buckets q e v)
    | inl e ↦
        rw (e, with_hash)
          (rw new_link (
            relinked (put hash (some p) m.buckets) p (find-put_same hash (some p) m.buckets)
              (put-IsInto (length m.store) p hash m.buckets inside v)))
  ]

  update-IsLinked : IsLinked (update_proxy_id id pid hash m)
  unfolding update_proxy_id
  update-IsLinked = elim (Bool-cases (str_eq hash pid)) [
    | inl hit ↦
        let same = (eq_iff hash pid).0 hit in
        rw (str_eq-ne hash "" some_hash, hit, update_proxy_id)
          (record {
            place = p;
            linked = proxied ∙ ap some (sym same);
            shared = ap (λ h. find h m.buckets) same ∙ kept;
            wired = v;
            others = λ j ne. refl;
          })
    | inr miss ↦ rw (str_eq-ne hash "" some_hash, miss, update_proxy_id) link_hash
  ]

get_within :
    {A : Type 0} (xs : List A) (i : ℕ) → i < length xs → (a : A) × (get_elem? xs i ≡ some a)
get_within [] i h = absurd (omega arith)
get_within (x ∷ xs) zero h = (x, refl)
get_within (x ∷ xs) (suc i) h = get_within xs i (omega arith)

-- A call in which the bucket learns its hash: it does not panic, and the manager stays wired.
pub record IsServed (id hash : String) (m : Manager) (r : Option (Manager × ℕ)) : Type 0 where
  pub after : Manager
  pub used : ℕ
  pub done : r ≡ some (after, used)
  pub place : ℕ
  pub linked : find id after.proxy ≡ some hash
  pub shared : find hash after.buckets ≡ some (some place)
  pub wired : IsWired after
  pub others : (j : String) → id ≢ j → find j after.proxy ≡ find j m.proxy

module _ (now : ℕ) (id hash : String) (cb : LtBucket → LtBucket)
    (learns : (b : LtBucket) → (cb b).hash ≡ hash) (some_hash : hash ≢ "") where
  called-IsServed :
      (pid : String) (m m' : Manager) (p : ℕ)
      → IsWired m'
      → find id m'.proxy ≡ some pid
      → find pid m'.buckets ≡ some (some p)
      → p < length m'.store
      → ((j : String) → id ≢ j → find j m'.proxy ≡ find j m.proxy)
      → IsServed id hash m (called id pid cb (m', some p))
  unfolding called
  called-IsServed pid m m' p v proxied kept inside others =
      let (b, got) = get_within m'.store p inside in
      let same = length-set m'.store p (cb b) in
      let stored : Manager = record m' { store = set m'.store p (cb b) } in
      let u =
        update-IsLinked id pid hash p stored (subst (λ n. IsInto n m'.buckets) (sym same) v)
          some_hash proxied kept (omega (arith, same)) in
      record {
        after = update_proxy_id id pid hash stored;
        used = p;
        done = rw (got, learns b) refl;
        place = u.place;
        linked = u.linked;
        shared = u.shared;
        wired = u.wired;
        others = λ j ne. u.others j ne ∙ others j ne;
      }

  pub bucket-IsServed : (m : Manager) → IsWired m → IsServed id hash m (bucket now id cb m)
  unfolding bucket
  bucket-IsServed m v =
      let (m1, pid) = proxy_id id m in
      let x = proxy_id-HasProxy id m in
      let v1 =
        subst (λ n. IsInto n m1.buckets) (sym (ap length x.same_store))
          (subst (λ bs. IsInto (length m.store) bs) (sym x.same_buckets) v) in
      let m2 = (bucket_at now pid m1).0 in
      let y = bucket_at-HasBucket now pid m1 v1 in
      subst (λ o. IsServed id hash m (called id pid cb (m2, o))) (sym y.found)
        (called-IsServed pid m m2 y.place y.wired (ap (find id) y.same_proxy ∙ x.proxied) y.kept
          y.inside (λ j ne. ap (find j) y.same_proxy ∙ x.others j ne))

find_inside :
    (n q : ℕ) (k : String) (xs : List (String × Option ℕ))
    → IsInto n xs
    → find k xs ≡ some (some q)
    → q < n
find_inside n q k xs v kept = elim (find-IsInto n k xs v) [
  | inl e ↦ absurd (ground arith)
  | inr (p, e, lt) ↦ ground arith
]

proxy_linked :
    (id pid : String) (m : Manager) → find id m.proxy ≡ some pid → proxy_id id m ≡ (m, pid)
unfolding proxy_id
proxy_linked id pid m e = rw (e, proxy_id) refl

bucket_at_linked :
    (now : ℕ) (pid : String) (m : Manager) (q : ℕ)
    → find pid m.buckets ≡ some (some q)
    → bucket_at now pid m ≡ (m, some q)
unfolding bucket_at
bucket_at_linked now pid m q e = rw (e, bucket_at) refl

-- A call for an endpoint whose proxy leads to a bucket uses that bucket.
pub bucket_linked :
    (now : ℕ) (id pid : String) (cb : LtBucket → LtBucket) (m : Manager) (q : ℕ)
    → IsWired m
    → find id m.proxy ≡ some pid
    → find pid m.buckets ≡ some (some q)
    → (m' : Manager) × (bucket now id cb m ≡ some (m', q))
unfolding bucket called
bucket_linked now id pid cb m q v proxied kept =
    let (b, got) = get_within m.store q (find_inside (length m.store) q pid m.buckets v kept) in
    let m' : Manager =
      update_proxy_id id pid (cb b).hash (record m { store = set m.store q (cb b) }) in
    let uses : called id pid cb (m, some q) ≡ some (m', q) = rw got refl in
    let at : called id pid cb (bucket_at now pid m) ≡ some (m', q) =
      ap (called id pid cb) (bucket_at_linked now pid m q kept) ∙ uses in
    (
      m',
      ap (λ (r : Manager × String). called id r.1 cb (bucket_at now r.1 r.0))
            (proxy_linked id pid m proxied)
          ∙ at,
    )
