-- ===== src/Paging/Tests.antt =====
-- GetMessages and GetMembers on concrete channels and guilds.
use Prim.Native.Nat.{min}
use disgord.Base.{
  ℕ, zero, suc, ◌+◌, ◌∙◌, ◌-◌, ◌<◌, ◌≡◌, refl, ◌≢◌, Option, none, some, List, [], ◌∷◌, ◌++◌, arith,
  length, All,
}
use disgord.Paging.Messages.{
  GetMessagesParams, Result, ok, get_messages_all, latest_from, latest_snowflake,
}
use disgord.Paging.Returns.{get_messages_all-ne-none}
use disgord.Paging.Pages.{AreNext, Distinct}
use disgord.Paging.Ranges.{get_messages_all_after, get_messages_all_before, Serves}
use disgord.Paging.Members.{
  GetMembersParams, Page, get_members, fetch_loop, next_page, first_request, max_members,
}
use disgord.Paging.Bound.{get_members-Ends}

-- `n` messages from the id `a` on
abbrev range : ℕ → ℕ → List ℕ
range a zero = []
range a (suc n) = a ∷ range (suc a) n

abbrev self : ℕ → ℕ
self m = m

-- a channel that has a message for every id
abbrev channel : GetMessagesParams → Result (List ℕ)
channel f = ok (range (suc f.after) f.limit)

abbrev lookup : ℕ → Option ℕ
lookup id = some id

range-All : (a b n : ℕ) → a < b → All (λ m. a < m) (range b n)
range-All a b zero h = tt
range-All a b (suc n) h = (h, range-All a (suc b) n (omega arith))

All-ne : (a : ℕ) (ms : List ℕ) → All (λ m. a < m) ms → All (λ m. a ≢ m) ms
All-ne a [] h = tt
All-ne a (m ∷ ms) h = (λ e. absurd (omega (arith, h.0, e)), All-ne a ms h.1)

range-Distinct : (a n : ℕ) → Distinct self (range a n)
range-Distinct a zero = tt
range-Distinct a (suc n) =
    (All-ne a (range (suc a) n) (range-All a (suc a) n (omega arith)), range-Distinct (suc a) n)

length-range : (a n : ℕ) → length (range a n) ≡ n
length-range a zero = refl
length-range a (suc n) = omega (arith, length-range (suc a) n)

-- a channel with the messages 1 to 300
abbrev room : ℕ → ℕ
room a = 300 - a

abbrev small_channel : GetMessagesParams → Result (List ℕ)
small_channel f = ok (range (suc f.after) (min f.limit (room f.after)))

latest_from-range : (l b n : ℕ) → l < b → latest_from self l (range b (suc n)) ≡ b + n
unfolding latest_from
latest_from-range l b zero h = ground arith
latest_from-range l b (suc n) h = ground (arith, latest_from-range b (suc b) n (omega arith))

latest_range :
    (a n : ℕ) → 0 < length (range (suc a) n) → latest_snowflake self (range (suc a) n) ≡ a + n
unfolding latest_snowflake
latest_range a zero h = absurd (omega (arith, h))
latest_range a (suc n) h = latest_from-range 0 (suc a) n (omega arith) ∙ omega arith

small_channel-Serves : Serves self small_channel lookup room
small_channel-Serves a l p q h =
    let n : ℕ = min l (room a) in
    (
      range (suc a) n,
      refl,
      (length-range (suc a) n, range-All a (suc a) n (omega arith), range-Distinct (suc a) n),
      λ some_there. omega (arith, latest_range a n some_there, length-range (suc a) n),
    )

get_messages_all-ne-none_example :
    get_messages_all self channel lookup
      (record { around = 500; before = 0; after = 0; limit = 250 })
    ≢ none
get_messages_all-ne-none_example =
    get_messages_all-ne-none self channel lookup
      (record { around = 500; before = 0; after = 0; limit = 250 })

get_messages_all_after_example :
    (ms : List ℕ) × (get_messages_all self small_channel lookup
        (record { around = 0; before = 0; after = 7; limit = 250 })
      ≡ some (ok ms))
    × AreNext self 7 250 ms
get_messages_all_after_example =
    get_messages_all_after self small_channel lookup room 7 250 small_channel-Serves (omega arith)
      (omega arith) (omega arith)

-- the same messages, before an id
abbrev newest : GetMessagesParams → Result (List ℕ)
newest f = ok (elim f.before [
  | zero ↦ range (301 - f.limit) f.limit
  | suc b ↦ range (suc b - f.limit) f.limit
])

get_messages_all_before_example :
    get_messages_all self newest lookup
      (record { around = 0; before = 150; after = 0; limit = 150 })
    ≡ some (ok (range 50 100 ++ range 251 50))
get_messages_all_before_example =
    get_messages_all_before self newest lookup 150 150 (range 50 100) (range 251 50) (omega arith)
      (omega arith) refl refl

abbrev guild : GetMembersParams → Page ℕ
guild p = record { members = range (suc p.after) p.limit; error = none }

guild-All : (l : ℕ) → All (λ m. 3 < m) (guild (record { after = 3; limit = l })).members
guild-All l = range-All 3 4 l (omega arith)

get_members-Ends_example :
    (page : Page ℕ) × (get_members (λ m. some m) guild (some (record { after = 3; limit = 1500 }))
      ≡ some page)
    × All (λ m. 3 < m) page.members
get_members-Ends_example = get_members-Ends (λ m. some m) guild (λ m. 3 < m) 3 guild-All 1500

-- With the limit that stands for everyone, one page is fetched.
everyone_test :
    get_members
      (λ m. some m)
      (λ p. record { members = range (suc p.after) 1000; error = none })
      (some (record { after = 0; limit = 0 }))
    ≡ some (record { members = range 1 1000; error = none })
unfolding get_members fetch_loop next_page first_request max_members
everyone_test = refl
