-- ===== src/Paging/Messages.antt =====
-- channelQueryBuilder.GetMessages and GetMessagesParams.Validate (channel.go). A single request
-- (getMessages, Message(id).Get) is a parameter.
use Prim.Native.Nat.{min}
use disgord.Base.{
  ℕ, zero, suc, ◌+◌, ◌-◌, ◌/◌, true, false, not, Option, none, some, List, [], ◌∷◌, ◌++◌, ltb, leb,
  ◌==◌, if◌then◌else◌,
}

pub record GetMessagesParams : Type 0 where
  pub around : ℕ
  pub before : ℕ
  pub after : ℕ
  pub limit : ℕ

pub data Error : Type 0 where
  not_exclusive request_failed : Error

pub data Result {ℓ} (A : Type ℓ) : Type ℓ where
  ok : A → Result A
  err : Error → Result A

abbrev count_set : ℕ → ℕ
count_set id = if id == 0 then 0 else 1

unfoldable pub validate : GetMessagesParams → Option Error
validate g =
    if ltb 1 (count_set g.around + count_set g.before + count_set g.after)
    then some not_exclusive
    else none

abbrev pub filter_limit : ℕ
filter_limit = 100

abbrev pub filter_default : ℕ
filter_default = 50

module _ {ℓ} {M : Type ℓ} (id : M → ℕ) where
  -- the loop of `latestSnowflake`
  unfoldable pub latest_from : ℕ → List M → ℕ
  latest_from latest [] = latest
  latest_from latest (m ∷ msgs) = latest_from (if ltb latest (id m) then id m else latest) msgs

  unfoldable pub latest_snowflake : List M → ℕ
  latest_snowflake msgs = latest_from 0 msgs

  -- the loop of `earliestSnowflake`
  unfoldable pub earliest_from : ℕ → List M → ℕ
  earliest_from earliest [] = earliest
  earliest_from earliest (m ∷ msgs) =
      earliest_from (if ltb (id m) earliest then id m else earliest) msgs

  unfoldable pub earliest_snowflake : List M → ℕ
  earliest_snowflake msgs = earliest_from 0 msgs

  -- the filter after a page: the limit is counted down, and one bound is moved
  unfoldable pub next_filter : GetMessagesParams → List M → GetMessagesParams
  next_filter filter msgs =
      let rest : GetMessagesParams = record filter {
        limit = filter.limit - min filter.limit 100;
      } in
      if filter.after == 0
      then record rest { before = earliest_snowflake msgs }
      else record rest { after = latest_snowflake msgs }

  module _ (get_messages : GetMessagesParams → Result (List M)) (get_message : ℕ → Option M) where
    -- the loop of scenario 3, on fuel; `none` means that the fuel ran out
    unfoldable pub page_loop : ℕ → GetMessagesParams → List M → Option (Result (List M))
    page_loop zero filter messages = none
    page_loop (suc fuel) filter messages = elim (leb filter.limit 0) [
      | true ↦ some (ok messages)
      | false ↦ elim (get_messages (record filter { limit = min filter.limit 100 })) [
        | err e ↦ some (err e)
        | ok msgs ↦ page_loop fuel (next_filter filter msgs) (messages ++ msgs)
      ]
    ]

    -- the two halves of scenario 1, and the message itself
    unfoldable pub join_around :
        ℕ → Option (Result (List M)) → Option (Result (List M)) → Option (Result (List M))
    join_around around none afters = none
    join_around around (some (err e)) afters = some (err e)
    join_around around (some (ok befores)) none = none
    join_around around (some (ok befores)) (some (err e)) = some (err e)
    join_around around (some (ok befores)) (some (ok afters)) = elim (get_message around) [
      | some msg ↦ some (ok ((befores ++ afters) ++ (msg ∷ [])))
      | none ↦ some (ok (befores ++ afters))
    ]

    unfoldable pub split_around :
        (GetMessagesParams → Option (Result (List M)))
        → GetMessagesParams
        → Option (Result (List M))
    split_around recur filter =
        let half : GetMessagesParams = record filter { around = 0; limit = filter.limit / 2 } in
        join_around filter.around (recur (record half { before = filter.around }))
          (recur (record half { after = filter.around }))

    -- GetMessages after the checks of its argument; `recur` stands for its calls of itself
    unfoldable pub dispatch_filter :
        (GetMessagesParams → Option (Result (List M)))
        → GetMessagesParams
        → Option (Result (List M))
    dispatch_filter recur filter =
        if leb filter.limit filter_limit
        then some (get_messages filter)
        else if not (filter.around == 0)
        then split_around recur filter
        else page_loop (filter.limit / 100 + 2) filter []

    unfoldable pub get_all :
        (GetMessagesParams → Option (Result (List M)))
        → GetMessagesParams
        → Option (Result (List M))
    get_all recur filter = elim (validate filter) [
      | some e ↦ some (err e)
      | none ↦
          dispatch_filter recur
            (record filter { limit = if filter.limit == 0 then filter_default else filter.limit })
    ]

    -- GetMessages, to the depth at which it calls itself
    unfoldable pub get_messages_all : GetMessagesParams → Option (Result (List M))
    get_messages_all filter = get_all (get_all (λ f. none)) filter
