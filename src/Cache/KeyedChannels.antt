-- ===== src/Cache/KeyedChannels.antt =====
-- That the basic cache (cache.go) files everything under its own id: the events of channels and
-- messages.
use disgord.Base.{ℕ, true, ◌≡◌, refl, inl, inr, some, ltb, ◌==◌, is_some, Option-cases, Bool-cases}
use disgord.Base.Dict.{Dict, Each, lookup, insert, erase}
use disgord.Structs.Data.{Channel, Guild, zero_channel}
use disgord.Cache.State.{BasicCache, Json, save_channel, MessageCreate, ChannelPinsUpdate}
use disgord.Cache.Channels.{
  channel_create, channel_update, channel_update_at, update_channel, channel_delete,
  channel_pins_update, move_pin, message_create, create_dm_channel, is_direct_message, user_update,
}
use disgord.Cache.Guilds.{read_guild}
use disgord.Cache.Keys.{IsChannelOf, IsKeyed, Each-insert, Each-erase, Each-if, save_channel-Each}

with_channels-IsKeyed :
    (d : Dict Channel) (c : BasicCache)
    → Each IsChannelOf d
    → IsKeyed c
    → IsKeyed (record c { channels = d })
with_channels-IsKeyed d c h n = record { users = n.users; channels = h; guilds = n.guilds }

create_dm_channel-IsKeyed :
    (c : BasicCache) (msg : MessageCreate) → IsKeyed c → IsKeyed (create_dm_channel c msg)
unfolding create_dm_channel
create_dm_channel-IsKeyed c msg n = elim (Bool-cases (is_some (lookup msg.channel_id c.channels))) [
  | inl known ↦ rw known n
  | inr unknown ↦ rw unknown (record {
    users = n.users;
    channels = Each-insert IsChannelOf msg.channel_id _ c.channels refl n.channels;
    guilds = n.guilds;
  })
]

module _ {D : Type 0} (json : Json D) where
  -- Reading keeps the id of a channel or a guild that is read over under its own id, and sets that of
  -- a new channel.
  pub record KeepsIds : Type 0 where
    pub of_channel :
        (raw : D) (id : ℕ) (channel : Channel)
        → json.id raw ≡ some id
        → channel.id ≡ id
        → (json.channel raw channel).0.id ≡ id
    pub of_new_channel :
        (raw : D) (id : ℕ)
        → json.id raw ≡ some id
        → (json.channel raw zero_channel).1 ≡ true
        → (json.channel raw zero_channel).0.id ≡ id
    pub of_guild :
        (raw : D) (evt guild : Guild)
        → read_guild json raw ≡ some evt
        → guild.id ≡ evt.id
        → (json.guild raw guild).0.id ≡ evt.id

  pub channel_create-IsKeyed :
      (raw : D) (c : BasicCache) → IsKeyed c → IsKeyed (channel_create json raw c).0
  unfolding channel_create
  channel_create-IsKeyed raw c n =
      let channel : Channel = (json.channel raw zero_channel).0 in
      elim (Bool-cases (json.channel raw zero_channel).1) [
        | inl fine ↦ rw fine (
            with_channels-IsKeyed (save_channel channel c.channels) c
              (save_channel-Each channel c.channels n.channels) n)
        | inr failed ↦ rw failed n
      ]

  pub channel_delete-IsKeyed :
      (raw : D) (c : BasicCache) → IsKeyed c → IsKeyed (channel_delete json raw c).0
  unfolding channel_delete
  channel_delete-IsKeyed raw c n =
      let id : ℕ = (json.channel raw zero_channel).0.id in
      elim (Bool-cases (json.channel raw zero_channel).1) [
        | inl fine ↦ rw fine (
            with_channels-IsKeyed (erase id c.channels) c
              (Each-erase IsChannelOf id c.channels n.channels) n)
        | inr failed ↦ rw failed n
      ]

  pub channel_update-IsKeyed :
      (raw : D) (c : BasicCache) → KeepsIds → IsKeyed c → IsKeyed (channel_update json raw c).0
  unfolding channel_update channel_update_at update_channel
  channel_update-IsKeyed raw c keeps n = elim (Option-cases (json.id raw)) [
    | inl unread ↦ rw (channel_update, unread) n
    | inr (id, e) ↦ elim (Option-cases (lookup id c.channels)) [
      | inr (stored, es) ↦
          let channel : Channel = (json.channel raw stored).0 in
          rw (channel_update, e, channel_update_at, es, update_channel)
            (with_channels-IsKeyed (insert id channel c.channels) c
              (Each-insert IsChannelOf id channel c.channels
                (keeps.of_channel raw id stored e (n.channels id stored es)) n.channels)
              n)
      | inl unknown ↦
          let channel : Channel = (json.channel raw zero_channel).0 in
          elim (Bool-cases (json.channel raw zero_channel).1) [
            | inl fine ↦
                rw (channel_update, e, channel_update_at, unknown, fine)
                  (with_channels-IsKeyed (insert id channel c.channels) c
                    (Each-insert IsChannelOf id channel c.channels
                      (keeps.of_new_channel raw id e fine) n.channels)
                    n)
            | inr failed ↦ rw (channel_update, e, channel_update_at, unknown, failed) n
          ]
    ]
  ]

  move_pin-Each :
      (cpu : ChannelPinsUpdate) (d : Dict Channel)
      → Each IsChannelOf d
      → Each IsChannelOf (move_pin json cpu d)
  unfolding move_pin
  move_pin-Each cpu d h = elim (Option-cases (lookup cpu.channel_id d)) [
    | inl unknown ↦ rw (move_pin, unknown) h
    | inr (channel, e) ↦
        let moved : Channel = record channel { last_pin_timestamp = cpu.last_pin_timestamp } in
        rw (move_pin, e)
          (Each-if IsChannelOf (ltb channel.last_pin_timestamp cpu.last_pin_timestamp)
            (insert cpu.channel_id moved d) d
            (Each-insert IsChannelOf cpu.channel_id moved d (h cpu.channel_id channel e) h) h)
  ]

  pub channel_pins_update-IsKeyed :
      (raw : D) (c : BasicCache) → IsKeyed c → IsKeyed (channel_pins_update json raw c).0
  unfolding channel_pins_update
  channel_pins_update-IsKeyed raw c n = elim (Option-cases (json.channel_pins_update raw)) [
    | inl unread ↦ rw (channel_pins_update, unread) n
    | inr (cpu, e) ↦ elim (Bool-cases (cpu.last_pin_timestamp == 0)) [
      | inl unset ↦ rw (channel_pins_update, e, unset) n
      | inr set ↦
          rw (channel_pins_update, e, set)
            (with_channels-IsKeyed (move_pin json cpu c.channels) c
              (move_pin-Each cpu c.channels n.channels) n)
    ]
  ]

  pub message_create-IsKeyed :
      (raw : D) (c : BasicCache) → IsKeyed c → IsKeyed (message_create json raw c).0
  unfolding message_create
  message_create-IsKeyed raw c n = elim (Option-cases (json.message_create raw)) [
    | inl unread ↦ rw (message_create, unread) n
    | inr (msg, e) ↦ elim (Bool-cases (is_direct_message msg)) [
      | inl direct ↦ rw (message_create, e, direct) (create_dm_channel-IsKeyed c msg n)
      | inr other ↦ rw (message_create, e, other) n
    ]
  ]

  pub user_update-IsKeyed :
      (raw : D) (c : BasicCache) → IsKeyed c → IsKeyed (user_update json raw c).0
  unfolding user_update
  user_update-IsKeyed raw c n = elim (Option-cases c.current_user) [
    | inl nobody ↦ rw (user_update, nobody) n
    | inr (user, e) ↦
        rw (user_update, e) (record { users = n.users; channels = n.channels; guilds = n.guilds })
  ]
