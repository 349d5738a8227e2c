-- ===== src/Httd/Manager.antt =====
-- internal/httd/bucket_manager.go: which endpoint uses which rate limit bucket. The buckets are
-- objects that several keys can share: a store of them, with indices as references. A nil pointer
-- is none in a map, and its use is a panic, which is none. Calls come one after the other.
pub mod Maps
pub mod Serving
pub mod Sharing
mod Tests
use disgord.Base.{
  ℕ, zero, suc, ◌+◌, List, [], ◌∷◌, ◌++◌, Option, none, some, Bool, String, str_eq, length,
  get_elem?, set, ◌||◌, if◌then◌else◌, ◌>>=◌,
}
use disgord.Httd.Bucket.{LtBucket, new_leaky_bucket}

-- `find` on a map with string keys, and the write of an entry.
unfoldable pub find {ℓ} : {A : Type ℓ} → String → List (String × A) → Option A
find k [] = none
find k ((j, a) ∷ xs) = if str_eq j k then some a else find k xs

unfoldable pub put {ℓ} : {A : Type ℓ} → String → A → List (String × A) → List (String × A)
put k a [] = (k, a) ∷ []
put k a ((j, b) ∷ xs) = if str_eq j k then (j, a) ∷ xs else (j, b) ∷ put k a xs

pub record Manager : Type 0 where
  pub proxy : List (String × String)
  pub buckets : List (String × Option ℕ)
  pub store : List LtBucket

unfoldable pub new_manager : Manager
new_manager = record { proxy = []; buckets = []; store = [] }

-- The value of a missing key is the zero value of its type.
abbrev pub text_of : Option String → String
text_of none = ""
text_of (some s) = s

abbrev pub pointer_of : Option (Option ℕ) → Option ℕ
pointer_of none = none
pointer_of (some p) = p

unfoldable pub proxy_id : String → Manager → Manager × String
proxy_id id m = elim (find id m.proxy) [
  | some p ↦ (m, p)
  | none ↦ (record m { proxy = put id id m.proxy }, id)
]

-- A known hash keeps its bucket; a new one gets the bucket of the endpoint's proxy.
with_hash : String → String → Manager → List (String × Option ℕ)
with_hash id hash m = elim (find hash m.buckets) [
  | some b ↦ m.buckets
  | none ↦ put hash (pointer_of (find (text_of (find id m.proxy)) m.buckets)) m.buckets
]

unfoldable pub update_proxy_id : String → String → String → Manager → Manager
unfolding with_hash
update_proxy_id id pid hash m =
    if str_eq hash "" || str_eq hash pid
    then m
    else record m { buckets = with_hash id hash m; proxy = put id hash m.proxy }

-- The bucket under a key, made if there is none.
bucket_at : ℕ → String → Manager → Manager × Option ℕ
bucket_at now pid m = elim (find pid m.buckets) [
  | some p ↦ (m, p)
  | none ↦ (
    record m {
      buckets = put pid (some (length m.store)) m.buckets;
      store = m.store ++ new_leaky_bucket now ∷ [];
    },
    some (length m.store),
  )
]

-- The callback is a request, as what it makes of the bucket. The result has the bucket that it used.
called : String → String → (LtBucket → LtBucket) → Manager × Option ℕ → Option (Manager × ℕ)
called id pid cb (m, none) = none
called id pid cb (m, some p) = do
  b ← get_elem? m.store p
  some (update_proxy_id id pid (cb b).hash (record m { store = set m.store p (cb b) }), p)

unfoldable pub bucket : ℕ → String → (LtBucket → LtBucket) → Manager → Option (Manager × ℕ)
unfolding bucket_at called
bucket now id cb m = let (m', pid) = proxy_id id m in called id pid cb (bucket_at now pid m')
