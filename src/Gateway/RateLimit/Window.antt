-- ===== src/Gateway/RateLimit/Window.antt =====
-- What one bucket guarantees: of the requests that it lets in, each comes more than the duration
-- after the one that many places before it.
use disgord.Base.{
  ℕ, zero, suc, ◌+◌, ◌-◌, ◌≤◌, ◌<◌, ◌≡◌, refl, List, [], ◌∷◌, ◌++◌, map, some, Bool, false, arith,
  length, get_elem?, take, replicate, leb, length-take, length-append, length-replicate, ap, sym,
  ◌∙◌, subst, String,
}
use disgord.Util.Shift.{push_front, push_front-cons}
use disgord.Gateway.RateLimit.{
  Entry, Bucket, blocked, insert, new_ratelimit_bucket_nano, zero_entry,
}

-- The times of a log, newest first: each is more than `d` after the `n`-th before it.
abbrev pub Spaced : ℕ → ℕ → List ℕ → Type 0
Spaced n d log =
    (i : ℕ) (newer older : ℕ)
    → get_elem? log i ≡ some newer
    → get_elem? log (i + n) ≡ some older
    → older + d < newer

-- The entries are the newest `n` of the log, filled up with zeros.
abbrev pub recent : ℕ → List ℕ → List ℕ
recent n log = take n (log ++ replicate n 0)

pub record IsTracking (n d : ℕ) (b : Bucket) (log : List ℕ) : Type 0 where
  pub lasting : b.duration ≡ d
  pub newest : map (λ e. e.unix) b.entries ≡ recent n log
  pub spaced : Spaced n d log

module _ {A : Type 0} where
  get_elem?-map :
      {B : Type 0} (f : A → B) (xs : List A) (i : ℕ) {x : A}
      → get_elem? xs i ≡ some x
      → get_elem? (map f xs) i ≡ some (f x)
  get_elem?-map f [] i e = absurd (ground arith)
  get_elem?-map f (x ∷ xs) zero e = ground arith
  get_elem?-map f (x ∷ xs) (suc i) e = get_elem?-map f xs i e

  length-map : {B : Type 0} (f : A → B) (xs : List A) → length (map f xs) ≡ length xs
  length-map f [] = refl
  length-map f (x ∷ xs) = ap suc (length-map f xs)

  map-take : {B : Type 0} (f : A → B) (n : ℕ) (xs : List A) → map f (take n xs) ≡ take n (map f xs)
  map-take f zero xs = refl
  map-take f (suc n) [] = refl
  map-take f (suc n) (x ∷ xs) = ap (λ ys. f x ∷ ys) (map-take f n xs)

  take-suc-take : (n : ℕ) (xs : List A) → take n (take (suc n) xs) ≡ take n xs
  take-suc-take zero xs = refl
  take-suc-take (suc n) [] = refl
  take-suc-take (suc n) (x ∷ xs) = ap (λ ys. x ∷ ys) (take-suc-take n xs)

  push_front-take :
      (e : A) (xs : List A) (n : ℕ) → length xs ≡ suc n → push_front e xs ≡ some (e ∷ take n xs)
  push_front-take e [] n h = absurd (omega arith)
  push_front-take e (x ∷ xs) n h =
      let same : length xs ≡ n = omega arith in
      push_front-cons e x xs ∙ ap (λ k. some (e ∷ take k (x ∷ xs))) same

  get_elem?-lt : (xs : List A) (i : ℕ) → i < length xs → (x : A) × (get_elem? xs i ≡ some x)
  get_elem?-lt [] i h = elim h [ ]
  get_elem?-lt (x ∷ xs) zero h = (x, refl)
  get_elem?-lt (x ∷ xs) (suc i) h = get_elem?-lt xs i (omega arith)

-- The `(n + 1)`-th newest time, or 0.
abbrev pub get_or : List ℕ → ℕ → ℕ → ℕ
get_or [] i z = z
get_or (x ∷ xs) zero z = x
get_or (x ∷ xs) (suc i) z = get_or xs i z

-- Whether a request at `now` must wait, by the times of those that were let in: the `(n + 1)`-th
-- newest is at most `d` ago.
abbrev pub is_full : ℕ → ℕ → List ℕ → ℕ → Bool
is_full n d log now = leb now (d + get_or log n 0)

get_elem?-zeros : (n m : ℕ) → n < m → get_elem? {A = ℕ} (take (suc n) (replicate m 0)) n ≡ some 0
get_elem?-zeros n zero h = elim h [ ]
get_elem?-zeros zero (suc m) h = refl
get_elem?-zeros (suc n) (suc m) h = get_elem?-zeros n m (omega arith)

get_elem?-padded :
    (n m : ℕ) (log : List ℕ)
    → n < m
    → get_elem? (take (suc n) (log ++ replicate m 0)) n ≡ some (get_or log n 0)
get_elem?-padded n m [] h = get_elem?-zeros n m h
get_elem?-padded zero m (x ∷ xs) h = refl
get_elem?-padded (suc n) m (x ∷ xs) h = get_elem?-padded n m xs (omega arith)

length-recent : (n : ℕ) (log : List ℕ) → length (recent n log) ≡ n
length-recent n log = omega (
  arith,
  length-take n (log ++ replicate n 0),
  length-append log (replicate n 0),
  length-replicate {A = ℕ} n 0,
)

get_or_lem : (n : ℕ) (log : List ℕ) {x : ℕ} → get_elem? log n ≡ some x → get_or log n 0 ≡ x
get_or_lem n [] e = absurd (ground arith)
get_or_lem zero (x ∷ xs) e = ground arith
get_or_lem (suc n) (x ∷ xs) e = get_or_lem n xs e

module _ (n d : ℕ) (b : Bucket) (log : List ℕ) (t : IsTracking (suc n) d b log) where
  entries_count : length b.entries ≡ suc n
  entries_count =
      sym (length-map (λ e. e.unix) b.entries) ∙ ap length t.newest ∙ length-recent (suc n) log

  -- The entry that `Blocked` reads is the last of the recent ones.
  last_entry :
      (e : Entry) × (get_elem? b.entries n ≡ some e)
      × (get_elem? (recent (suc n) log) n ≡ some e.unix)
  last_entry =
      let (e, at) = get_elem?-lt b.entries n (omega (arith, entries_count)) in
      (e, at, subst (λ us. get_elem? us n ≡ some e.unix) t.newest (get_elem?-map _ b.entries n at))

  -- `Blocked` decides by the log.
  pub blocked_lem : (now : ℕ) → blocked now b ≡ some (is_full n d log now)
  unfolding blocked
  blocked_lem now =
      let (e, at, old) = last_entry in
      let last : length b.entries - 1 ≡ n = omega (arith, entries_count) in
      let padded = get_elem?-padded n (suc n) log (omega arith) in ground (arith, t.lasting)

  abbrev pub inserted : ℕ → String → Bucket
  inserted later cmd = record b { entries = record { unix = later; cmd = cmd } ∷ take n b.entries }

  pub insert_lem : (later : ℕ) (cmd : String) → insert later cmd b ≡ some (inserted later cmd)
  unfolding insert
  insert_lem later cmd =
      rw (push_front-take (record { unix = later; cmd = cmd }) b.entries n entries_count)

  admitted-Spaced :
      (now later : ℕ) → now ≤ later → is_full n d log now ≡ false → Spaced (suc n) d (later ∷ log)
  admitted-Spaced now later h free zero newer older e f =
      let here : 0 + suc n ≡ suc n = omega arith in
      let old : get_elem? log n ≡ some older =
        subst (λ k. get_elem? (later ∷ log) k ≡ some older) here f in
      ground (arith, get_or_lem n log old)
  admitted-Spaced now later h free (suc i) newer older e f =
      let there : suc i + suc n ≡ suc (i + suc n) = omega arith in
      t.spaced i newer older e (subst (λ k. get_elem? (later ∷ log) k ≡ some older) there f)

  pub inserted-IsTracking :
      (now later : ℕ) (cmd : String)
      → now ≤ later
      → is_full n d log now ≡ false
      → IsTracking (suc n) d (inserted later cmd) (later ∷ log)
  inserted-IsTracking now later cmd h free = record {
    lasting = t.lasting;
    newest =
        ap (λ us. later ∷ us)
          (map-take (λ e. e.unix) n b.entries
            ∙ ap (take n) t.newest
            ∙ take-suc-take n (log ++ replicate (suc n) 0));
    spaced = admitted-Spaced now later h free;
  }

-- A new bucket has let nothing in.
pub new-IsTracking : (n nano : ℕ) → IsTracking n nano (new_ratelimit_bucket_nano n nano) []
unfolding new_ratelimit_bucket_nano
new-IsTracking n nano = record {
  lasting = refl;
  newest = zeros n;
  spaced = λ i newer older e f. absurd (ground arith);
}
  where
    zeros : (k : ℕ) → map (λ e. e.unix) (replicate k zero_entry) ≡ take k (replicate k 0)
    zeros zero = refl
    zeros (suc k) = ap (λ us. 0 ∷ us) (zeros k)
