-- ===== src/Cache/Replay.antt =====
-- The channels of the basic cache (cache.go) against a plain function from ids to channels.
use disgord.Base.{
  ℕ, ◌≡◌, refl, sym, ap, ◌∙◌, Option, none, some, List, [], ◌∷◌, ◌++◌, arith, ltb, ◌==◌,
  if◌then◌else◌,
}
use mathlib.Core.Path.{fun_ext}
use disgord.Base.Dict.{lookup, lookup-insert, lookup-erase}
use disgord.Structs.Data.{User, Channel, zero_channel, dm}
use disgord.Cache.State.{BasicCache, Json, MessageCreate, save_channel}
use disgord.Cache.Channels.{
  message_create, channel_create, channel_update, channel_delete, channel_pins_update,
  is_direct_message, create_dm_channel, update_channel, channel_update_at, move_pin, option_list,
}
use disgord.Cache.Reads.{get_channel, or_miss, to_option}

pub data ChannelEvent (D : Type 0) : Type 0 where
  message_created channel_created channel_updated channel_deleted pins_updated : D → ChannelEvent D

abbrev pub View : Type 0
View = ℕ → Option Channel

-- The function changed at one id.
abbrev pub at_id : ℕ → Option Channel → View → View
at_id id o f j = if j == id then o else f j

-- The function given a channel, unless it has one for that id.
abbrev pub unless_known : Channel → View → View
unless_known channel f = elim (f channel.id) [
  | none ↦ at_id channel.id (some channel) f
  | some known ↦ f
]

to_option-or_miss : (o : Option Channel) → to_option (or_miss o) ≡ o
unfolding or_miss
to_option-or_miss none = refl
to_option-or_miss (some a) = refl

module _ {D : Type 0} (json : Json D) where
  unfoldable pub apply : ChannelEvent D → BasicCache → BasicCache
  apply (message_created raw) c = (message_create json raw c).0
  apply (channel_created raw) c = (channel_create json raw c).0
  apply (channel_updated raw) c = (channel_update json raw c).0
  apply (channel_deleted raw) c = (channel_delete json raw c).0
  apply (pins_updated raw) c = (channel_pins_update json raw c).0

  unfoldable pub run : List (ChannelEvent D) → BasicCache → BasicCache
  run [] c = c
  run (e ∷ es) c = run es (apply e c)

  abbrev dm_channel : Option User → MessageCreate → Channel
  dm_channel user msg = record zero_channel {
    id = msg.channel_id;
    last_message_id = msg.id;
    type = dm;
    recipients = option_list user ++ option_list msg.author;
  }

  -- What an event means for the function, by the current user.
  abbrev pub meaning : Option User → ChannelEvent D → View → View
  meaning user (message_created raw) f = elim (json.message_create raw) [
    | none ↦ f
    | some msg ↦ if is_direct_message msg then unless_known (dm_channel user msg) f else f
  ]
  meaning user (channel_created raw) f =
      let (channel, fine) = json.channel raw zero_channel in
      if fine then unless_known channel f else f
  meaning user (channel_updated raw) f = elim (json.id raw) [
    | none ↦ f
    | some id ↦ elim (f id) [
      | some stored ↦ at_id id (some (json.channel raw stored).0) f
      | none ↦
          let (channel, fine) = json.channel raw zero_channel in
          if fine then at_id id (some channel) f else f
    ]
  ]
  meaning user (channel_deleted raw) f =
      let (channel, fine) = json.channel raw zero_channel in
      if fine then at_id channel.id none f else f
  meaning user (pins_updated raw) f = elim (json.channel_pins_update raw) [
    | none ↦ f
    | some cpu ↦ elim (f cpu.channel_id) [
      | none ↦ f
      | some channel ↦
          if ltb channel.last_pin_timestamp cpu.last_pin_timestamp
          then at_id cpu.channel_id
              (some (record channel { last_pin_timestamp = cpu.last_pin_timestamp })) f
          else f
    ]
  ]

  -- the events of a history, one after the other
  pub replay : Option User → List (ChannelEvent D) → View → View
  replay user [] f = f
  replay user (e ∷ es) f = replay user es (meaning user e f)

  lookup-apply :
      (e : ChannelEvent D) (c : BasicCache) (j : ℕ)
      → lookup j (apply e c).channels ≡ meaning c.current_user e (λ id. lookup id c.channels) j
  unfolding apply message_create create_dm_channel channel_create save_channel channel_update
      channel_update_at update_channel channel_delete channel_pins_update move_pin
  lookup-apply (message_created raw) c j = grind (arith, lookup-insert)
  lookup-apply (channel_created raw) c j =
      let channel : Channel = (json.channel raw zero_channel).0 in
      ground (arith, lookup-insert j channel.id channel c.channels)
  lookup-apply (channel_updated raw) c j = grind (arith, lookup-insert)
  lookup-apply (channel_deleted raw) c j =
      let channel : Channel = (json.channel raw zero_channel).0 in
      ground (arith, lookup-erase j channel.id c.channels)
  lookup-apply (pins_updated raw) c j = grind (arith, lookup-insert)

  apply-current_user :
      (e : ChannelEvent D) (c : BasicCache) → (apply e c).current_user ≡ c.current_user
  unfolding apply message_create create_dm_channel channel_create channel_update channel_update_at
      update_channel channel_delete channel_pins_update
  apply-current_user (message_created raw) c = ground arith
  apply-current_user (channel_created raw) c = ground arith
  apply-current_user (channel_updated raw) c = ground arith
  apply-current_user (channel_deleted raw) c = ground arith
  apply-current_user (pins_updated raw) c = ground arith

  -- Any history of channel events leaves the cache with the channels that the replay has.
  lookup-run :
      (es : List (ChannelEvent D)) (c : BasicCache)
      → (λ id. lookup id (run es c).channels)
        ≡ replay c.current_user es (λ id. lookup id c.channels)
  unfolding run replay
  lookup-run [] c = refl
  lookup-run (e ∷ es) c =
      lookup-run es (apply e c)
      ∙ ap (λ u. replay u es (λ id. lookup id (apply e c).channels)) (apply-current_user e c)
      ∙ ap (replay c.current_user es) (fun_ext (lookup-apply e c))

  -- What GetChannel gives after any history of channel events is what replaying the history on a
  -- function gives, from what it gave before.
  pub get_channel-run :
      (es : List (ChannelEvent D)) (c : BasicCache) (id : ℕ)
      → get_channel (run es c) id
        ≡ or_miss (replay c.current_user es (λ j. to_option (get_channel c j)) id)
  unfolding get_channel
  get_channel-run es c id =
      let same : (λ j. to_option (or_miss (lookup j c.channels))) ≡ (λ j. lookup j c.channels) =
        fun_ext (λ j. to_option-or_miss (lookup j c.channels)) in
      ap or_miss (ap (λ f. f id) (lookup-run es c ∙ ap (replay c.current_user es) (sym same)))
