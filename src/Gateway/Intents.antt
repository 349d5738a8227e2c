-- ===== src/Gateway/Intents.antt =====
-- internal/gateway/intents.go, intents_gen.go, and the intents that NewEventClient (eventclient.go)
-- derives and createClient (client.go) accepts. An intent is a uint64; the tables are those of the
-- switches.
pub mod Tables
pub mod Derived
pub mod Printed
mod Tests
use Prim.Native.Nat.{bit_and, bit_or, bit_xor}
use disgord.Base.{
  ℕ, zero, suc, ◌+◌, List, [], ◌∷◌, ◌++◌, Option, none, some, Bool, true, false, not, ltb, ◌==◌,
  ◌||◌, if◌then◌else◌, String, str_eq,
}
use disgord.Base.Bits.{pow2}
use disgord.Gateway.Intents.Tables.{intent_names, direct_intents, guild_intents}
use disgord.Base.Text.{Text, bytes, trim_suffix}

name_in : ℕ → List (ℕ × String) → Text
name_in intent [] = []
name_in intent ((i, name) ∷ table) = if intent == i then bytes name else name_in intent table

unfoldable pub intent_name : ℕ → Text
unfolding name_in
intent_name intent = name_in intent intent_names

abbrev pub separator : Text
separator = bytes " | "

-- `1 << i` of a uint64
unfoldable pub bit_flag : ℕ → ℕ
bit_flag i = if ltb i 64 then pow2 i else 0

-- the loop of String, on fuel; `none`: the fuel ran out
unfoldable pub string_loop : ℕ → ℕ → ℕ → Text → Option Text
string_loop zero i intents output = none
string_loop (suc fuel) i intents output =
    let intent : ℕ = bit_and intents (bit_flag i) in
    let rest =
      string_loop fuel (i + 1) (bit_xor intents intent)
        (if intent == 0 then output else output ++ (intent_name intent ++ separator)) in
    if intents == 0 then some output else rest

finish : Option Text → Option Text
finish none = none
finish (some output) = some (trim_suffix output separator ++ bytes " }")

-- A uint64 has 64 bits, so 65 rounds are enough.
unfoldable pub intents_string : ℕ → Option Text
unfolding finish
intents_string intents = finish (string_loop 65 0 intents (bytes "{ "))

intent_in : String → List (String × ℕ) → ℕ
intent_in evt [] = 0
intent_in evt ((e, intent) ∷ table) = if str_eq evt e then intent else intent_in evt table

unfoldable pub event_to_intent : String → Bool → ℕ
unfolding intent_in
event_to_intent evt direct =
    if direct then intent_in evt direct_intents else intent_in evt guild_intents

unfoldable pub is_among : String → List String → Bool
is_among e [] = false
is_among e (other ∷ others) = str_eq e other || is_among e others

-- the loop of NewEventClient over the events
unfoldable pub add_intents : List String → List String → ℕ → ℕ
add_intents ignored [] intents = intents
add_intents ignored (e ∷ events) intents =
    add_intents ignored events
      (if is_among e ignored then intents else bit_or intents (event_to_intent e false))

abbrev pub dm_intents : ℕ
dm_intents = 28672

-- The check of createClient: `Config.Intents` is added to `Config.DMIntents`, which may have the bits
-- of direct messages only.
unfoldable pub accept_intents : ℕ → ℕ → Option ℕ
accept_intents intents dm =
    let all : ℕ = if ltb 0 intents then bit_or dm intents else dm in
    let valid_range : ℕ = bit_and all dm_intents in
    if ltb 0 (bit_xor all valid_range) then none else some all

-- The intents that a shard identifies itself with, as the bot is configured; `none`: createClient fails.
unfoldable pub client_intents : List String → List String → ℕ → ℕ → Option ℕ
client_intents events rejected intents dm = elim (accept_intents intents dm) [
  | none ↦ none
  | some all ↦ some (add_intents rejected events all)
]

-- `AllIntentsExcept`: the map without the exceptions, then the union of what is left, in any order
unfoldable pub is_exception : ℕ → List ℕ → Bool
is_exception intent [] = false
is_exception intent (e ∷ exceptions) = intent == e || is_exception intent exceptions

unfoldable pub without_exceptions : List (ℕ × String) → List ℕ → List ℕ
without_exceptions [] exceptions = []
without_exceptions ((intent, name) ∷ table) exceptions =
    let rest = without_exceptions table exceptions in
    if is_exception intent exceptions then rest else intent ∷ rest

unfoldable pub union_intents : List ℕ → ℕ → ℕ
union_intents [] intents = intents
union_intents (i ∷ is) intents = union_intents is (bit_or intents i)

unfoldable pub all_intents_except : List ℕ → ℕ
all_intents_except exceptions = union_intents (without_exceptions intent_names exceptions) 0
