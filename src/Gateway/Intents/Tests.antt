-- ===== src/Gateway/Intents/Tests.antt =====
-- The theorems on intents, at concrete configurations.
use disgord.Base.{◌≡◌, refl, ◌↔◌, ◌⊎◌, List, [], ◌∷◌, some, String}
use disgord.Base.Bits.{bit}
use disgord.Gateway.Intents.{
  add_intents, is_among, event_to_intent, dm_intents, accept_intents, client_intents,
}
use disgord.Gateway.Intents.Tables.{all_events, intent_direct_messages}
use disgord.Gateway.Intents.Derived.{Asks, Wants, client_intents_lem}

abbrev rejected : List String
rejected = "TYPING_START" ∷ "PRESENCE_UPDATE" ∷ []

all_derived : client_intents all_events rejected 0 intent_direct_messages ≡ some 5887
unfolding client_intents accept_intents add_intents is_among event_to_intent
all_derived = refl

client_intents_lem_example :
    (bit 9 5887 ≡ 1) ↔ (((bit 9 dm_intents ≡ 1) × Asks 9 0 4096) ⊎ Wants 9 rejected all_events)
client_intents_lem_example =
    client_intents_lem all_events rejected 0 intent_direct_messages 5887 9 all_derived
