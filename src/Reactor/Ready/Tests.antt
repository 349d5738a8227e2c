-- ===== src/Reactor/Ready/Tests.antt =====
-- gateway.go, reactor.go: a bot of two shards waits for its READY events and for three guilds.
use disgord.Base.{◌≡◌, refl, List, [], ◌∷◌, some, true, false, arith, if◌then◌else◌}
use disgord.Base.Dict.{lookup, insert, erase}
use disgord.Reactor.Ready.{
  GuildsEvent, readied, guild_created, shard_is_ready, dispatch_readies, bot_ready,
  dispatch_all_guilds, bot_guilds_ready, all_ready,
}
use disgord.Reactor.Ready.Fires.{loads_after, bot_guilds_ready_lem}

-- The second READY comes before the guilds of the first have loaded, one guild before its READY.
abbrev start_up : List GuildsEvent
start_up =
    readied (11 ∷ 12 ∷ [])
    ∷ guild_created 13
    ∷ guild_created 11
    ∷ readied (13 ∷ [])
    ∷ guild_created 12
    ∷ guild_created 14
    ∷ []

bot_guilds_ready_lem_example :
    (dispatch_all_guilds start_up bot_guilds_ready).callbacks
    ≡ (if loads_after [] start_up then 1 else 0)
bot_guilds_ready_lem_example =
    bot_guilds_ready_lem start_up
      (refl, (ground arith, (ground arith, (refl, (ground arith, (ground arith, tt))))))

-- It does run here, at the fifth event.
start_up_loads : loads_after [] start_up ≡ true
start_up_loads = refl

-- A second READY that comes late is not waited for.
second_is_late :
    (dispatch_all_guilds
      (readied (11 ∷ []) ∷ guild_created 11 ∷ readied (13 ∷ []) ∷ [])
      bot_guilds_ready).callbacks
    ≡ 1
unfolding dispatch_all_guilds bot_guilds_ready lookup insert erase
second_is_late = refl

-- The READY of the second of two shards is enough for BotReady.
second_calls_back :
    dispatch_readies 2 (0 ∷ 1 ∷ []) (1 ∷ []) bot_ready
    ≡ some (record {
      ctrl = record { shard_ready = []; local_shard_ids = []; has_cb = false };
      ready_spec = false;
      create_spec = false;
      callbacks = 1;
    })
unfolding dispatch_readies bot_ready
second_calls_back = refl

-- What the handler would have done.
handler_marks :
    shard_is_ready 2
      (0 ∷ 1 ∷ [])
      1
      (record { shard_ready = []; local_shard_ids = []; has_cb = true })
    ≡ some (record { shard_ready = false ∷ true ∷ []; local_shard_ids = 0 ∷ 1 ∷ []; has_cb = true })
unfolding shard_is_ready
handler_marks = refl

handler_waits : all_ready (false ∷ true ∷ []) (0 ∷ 1 ∷ []) ≡ some false
unfolding all_ready
handler_waits = refl
