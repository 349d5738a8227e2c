-- ===== src/Paging/Members.antt =====
-- guildQueryBuilder.GetMembers and the request below it (guild.go). A member's user (Member.User, by
-- its id), the request to Discord and the cache's GetMembers are parameters.
use disgord.Base.{
  ℕ, zero, suc, ◌+◌, ◌-◌, ◌*◌, ◌/◌, ◌%◌, ◌^◌, Bool, true, false, ◌||◌, Option, none, some, List, [],
  ◌∷◌, ◌++◌, ltb, leb, ◌==◌, if◌then◌else◌, length,
}

pub record GetMembersParams : Type 0 where
  pub after : ℕ
  pub limit : ℕ

pub data Error : Type 0 where
  limit_error request_error : Error

-- What a call returns: members, and an error or nil.
pub record Page {ℓ} (M : Type ℓ) : Type ℓ where
  pub members : List M
  pub error : Option Error

abbrev pub query_limit : ℕ
query_limit = 1000

-- `params == nil`
abbrev pub or_everyone : Option GetMembersParams → GetMembersParams
or_everyone none = record { after = 0; limit = 2 ^ 32 - 1 }
or_everyone (some params) = params

-- the limit of `p` before the loop
unfoldable pub first_request : GetMembersParams → GetMembersParams
first_request params = record {
  after = params.after;
  limit = if params.limit == 0 || ltb query_limit params.limit then query_limit else params.limit;
}

unfoldable pub find_errors : GetMembersParams → Option Error
find_errors g = if ltb 1000 g.limit || ltb g.limit 1 then some limit_error else none

-- `params.Limit << 1 >> 1` on a uint32
unfoldable pub max_members : ℕ → ℕ
max_members limit = ((limit * 2) % 2 ^ 32) / 2

module _ {ℓ} {M : Type ℓ} where
  -- the members that the cache has, if it is asked and has any
  unfoldable pub from_cache :
      Bool → (GetMembersParams → Option (List M)) → GetMembersParams → Option (List M)
  from_cache true cached params = none
  from_cache false cached params = elim (cached params) [
    | none ↦ none
    | some members ↦ if ltb 0 (length members) then some members else none
  ]

  -- getGuildMembers
  unfoldable pub get_guild_members :
      Bool
      → (GetMembersParams → Option (List M))
      → (GetMembersParams → Page M)
      → GetMembersParams
      → Page M
  get_guild_members ignore_cache cached request params = elim (find_errors params) [
    | some e ↦ record { members = []; error = some e }
    | none ↦ elim (from_cache ignore_cache cached params) [
      | some members ↦ record { members = members; error = none }
      | none ↦ request params
    ]
  ]

-- the variables of the loop: `params`, `p` and `members`
pub record Loop {ℓ} (M : Type ℓ) : Type ℓ where
  pub params : GetMembersParams
  pub p : GetMembersParams
  pub members : List M

module _ {ℓ} {M : Type ℓ} (user_id : M → Option ℕ) where
  -- the loop of `highestSnowflake`
  unfoldable pub highest_from : ℕ → List M → ℕ
  highest_from highest [] = highest
  highest_from highest (m ∷ ms) = elim (user_id m) [
    | none ↦ highest_from highest ms
    | some id ↦ highest_from (if ltb highest id then id else highest) ms
  ]

  -- what a page does to them; `none`: the loop stops
  unfoldable pub next_page : Loop M → List M → Option (Loop M)
  next_page s ms =
      let members : List M = s.members ++ ms in
      let max : ℕ = max_members s.params.limit in
      let moved : GetMembersParams = record s.params { after = highest_from 0 ms } in
      if ltb (length ms) query_limit
      then none
      else if leb max (length members)
      then none
      else some (record {
        params = moved;
        p =
            if ltb (max - length members) query_limit
            then record s.p { limit = max - length members }
            else s.p;
        members = members;
      })

  module _ (get_guild_members : GetMembersParams → Page M) where
    -- the loop, on fuel; `none` means that the fuel ran out
    unfoldable pub fetch_loop : ℕ → Loop M → Option (Page M)
    fetch_loop zero s = none
    fetch_loop (suc fuel) s =
        let page : Page M = get_guild_members s.p in
        elim page.error [
          | some e ↦ some (record { members = s.members ++ page.members; error = some e })
          | none ↦ elim (next_page s page.members) [
            | none ↦ some (record { members = s.members ++ page.members; error = none })
            | some s' ↦ fetch_loop fuel s'
          ]
        ]

    unfoldable pub get_members : Option GetMembersParams → Option (Page M)
    get_members params =
        let start : GetMembersParams = or_everyone params in
        fetch_loop (max_members start.limit / query_limit + 2)
          (record { params = start; p = first_request start; members = [] })
