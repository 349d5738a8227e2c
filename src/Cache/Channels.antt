-- ===== src/Cache/Channels.antt =====
-- The events of channels, messages and the current user (cache.go).
use disgord.Base.{
  ℕ, Bool, ◌&&◌, Option, none, some, List, [], ◌∷◌, ◌++◌, ltb, ◌==◌, is_some, if◌then◌else◌, ◌>>=◌,
}
use disgord.Base.Dict.{Dict, lookup, insert, erase}
use disgord.Structs.Data.{User, Channel, zero_channel, dm}
use disgord.Cache.State.{
  BasicCache, Json, Result, ok, err, unmarshal_error, MessageCreate, ChannelPinsUpdate,
  save_channel,
}

abbrev pub option_list {ℓ} : {A : Type ℓ} → Option A → List A
option_list none = []
option_list (some a) = a ∷ []

-- `createDMChannel`
unfoldable pub create_dm_channel : BasicCache → MessageCreate → BasicCache
create_dm_channel c msg =
    let channel : Channel = record zero_channel {
      id = msg.channel_id;
      last_message_id = msg.id;
      type = dm;
      recipients = option_list c.current_user ++ option_list msg.author;
    } in
    if is_some (lookup msg.channel_id c.channels)
    then c
    else record c { channels = insert msg.channel_id channel c.channels }

-- `Message.IsDirectMessage`; the default type is 0
unfoldable pub is_direct_message : MessageCreate → Bool
is_direct_message m = m.type == 0 && m.guild_id == 0

module _ {D : Type 0} (json : Json D) where
  unfoldable pub message_create : D → BasicCache → BasicCache × Result MessageCreate
  message_create raw c = elim (json.message_create raw) [
    | none ↦ (c, err unmarshal_error)
    | some msg ↦ (if is_direct_message msg then create_dm_channel c msg else c, ok msg)
  ]

  unfoldable pub channel_create : D → BasicCache → BasicCache × Result Channel
  channel_create raw c =
      let (channel, fine) = json.channel raw zero_channel in
      if fine
      then (record c { channels = save_channel channel c.channels }, ok channel)
      else (c, err unmarshal_error)

  -- the update of a channel that is stored: what was written stays, also on an error
  unfoldable pub update_channel : D → ℕ → Channel → BasicCache → BasicCache × Result Channel
  update_channel raw id stored c =
      let (channel, fine) = json.channel raw stored in
      (
        record c { channels = insert id channel c.channels },
        if fine then ok channel else err unmarshal_error,
      )

  unfoldable pub channel_update_at : D → ℕ → BasicCache → BasicCache × Result Channel
  channel_update_at raw id c = elim (lookup id c.channels) [
    | some stored ↦ update_channel raw id stored c
    | none ↦
        let (tmp, fine) = json.channel raw zero_channel in
        if fine
        then (record c { channels = insert id tmp c.channels }, ok tmp)
        else (c, err unmarshal_error)
  ]

  unfoldable pub channel_update : D → BasicCache → BasicCache × Result Channel
  channel_update raw c = elim (json.id raw) [
    | none ↦ (c, err unmarshal_error)
    | some id ↦ channel_update_at raw id c
  ]

  unfoldable pub channel_delete : D → BasicCache → BasicCache × Result Channel
  channel_delete raw c =
      let (channel, fine) = json.channel raw zero_channel in
      if fine
      then (record c { channels = erase channel.id c.channels }, ok channel)
      else (c, err unmarshal_error)

  -- the newest pin of a channel that is stored
  unfoldable pub move_pin : ChannelPinsUpdate → Dict Channel → Dict Channel
  move_pin cpu store = elim (lookup cpu.channel_id store) [
    | none ↦ store
    | some channel ↦
        let moved : Channel = record channel { last_pin_timestamp = cpu.last_pin_timestamp } in
        if ltb channel.last_pin_timestamp cpu.last_pin_timestamp
        then insert cpu.channel_id moved store
        else store
  ]

  unfoldable pub channel_pins_update : D → BasicCache → BasicCache × Result ChannelPinsUpdate
  channel_pins_update raw c = elim (json.channel_pins_update raw) [
    | none ↦ (c, err unmarshal_error)
    | some cpu ↦ (
      if cpu.last_pin_timestamp == 0 then c else record c { channels = move_pin cpu c.channels },
      ok cpu,
    )
  ]

  -- Into no user, the reading fails.
  unfoldable pub user_update : D → BasicCache → BasicCache × Result User
  user_update raw c = elim c.current_user [
    | none ↦ (c, err unmarshal_error)
    | some user ↦
        let (user', fine) = json.user raw user in
        (record c { current_user = some user' }, if fine then ok user' else err unmarshal_error)
  ]

  -- `Ready`, of which the user is modelled: it is read into the current user, if the data has one.
  -- The user is returned with an error, too, and without a current user its copy panics.
  unfoldable pub ready : D → BasicCache → Option (BasicCache × User × Bool)
  ready raw c = do
    user ← c.current_user
    (user', fine) ← some (json.ready raw user)
    some (record c { current_user = some user' }, user', fine)
