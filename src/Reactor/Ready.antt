-- ===== src/Reactor/Ready.antt =====
-- gateway.go, reactor.go: BotReady and BotGuildsReady, the callbacks for a bot that has started, over the
-- dispatcher's treatment of their handlers. A dispatch asks the control whether it is dead, runs the
-- handler if not, asks again, and removes a dead control's spec, which has it call back. The clean-up
-- that Go runs beside it happens here at its end.
pub mod Loaded
pub mod Fires
mod Tests
use disgord.Base.{
  ℕ, suc, List, [], ◌∷◌, Option, none, some, Bool, true, false, not, ◌==◌, ◌&&◌, ◌||◌, length,
  get_elem?, set, replicate, ltb, is_some, if◌then◌else◌, ◌>>=◌,
}
use disgord.Base.Dict.{Dict, lookup, insert, erase}

-- `rdyCtrl`, whose callback is nil once it has run.
pub record RdyCtrl : Type 0 where
  pub shard_ready : List Bool
  pub local_shard_ids : List ℕ
  pub has_cb : Bool

-- A control with its handlers: whether the spec for READY and that for GUILD_CREATE are still there,
-- and how often the callback has run.
pub record Waiting (C : Type 0) : Type 0 where
  pub ctrl : C
  pub ready_spec : Bool
  pub create_spec : Bool
  pub callbacks : ℕ

-- `rdyCtrl.IsDead`. A number beyond the slice is a panic, which is none.
unfoldable pub all_ready : List Bool → List ℕ → Option Bool
all_ready ready [] = some true
all_ready ready (id ∷ ids) = do r ← get_elem? ready id; rest ← all_ready ready ids; some (r && rest)

-- The handler of BotReady, for the READY of the shard `shard_id`, where the manager has `count` shards in
-- all and those with `ids` here.
unfoldable pub shard_is_ready : ℕ → List ℕ → ℕ → RdyCtrl → Option RdyCtrl
shard_is_ready count ids shard_id c =
    let made = record c { shard_ready = replicate count false; local_shard_ids = ids } in
    let c' = if count == length c.shard_ready then c else made in
    let marked = record c' { shard_ready = set c'.shard_ready shard_id true } in
    if ltb shard_id (length c'.shard_ready) then some marked else none

-- `rdyCtrl.OnRemove`
unfoldable pub call_back : Waiting RdyCtrl → Waiting RdyCtrl
call_back w =
    if w.ctrl.has_cb
    then record w { ctrl = record w.ctrl { has_cb = false }; callbacks = suc w.callbacks }
    else w

unfoldable pub dispatch_ready : ℕ → List ℕ → ℕ → Waiting RdyCtrl → Option (Waiting RdyCtrl)
unfolding all_ready shard_is_ready call_back
dispatch_ready count ids shard_id w =
    let serve = do
      dead ← all_ready w.ctrl.shard_ready w.ctrl.local_shard_ids
      c ← if dead then some w.ctrl else shard_is_ready count ids shard_id w.ctrl
      dead' ← all_ready c.shard_ready c.local_shard_ids
      let w' = record w { ctrl = c }
      some (if dead' then call_back (record w' { ready_spec = false }) else w')
    in if w.ready_spec then serve else some w

unfoldable pub dispatch_readies : ℕ → List ℕ → List ℕ → Waiting RdyCtrl → Option (Waiting RdyCtrl)
unfolding dispatch_ready
dispatch_readies count ids [] w = some w
dispatch_readies count ids (shard_id ∷ shard_ids) w = do
  w' ← dispatch_ready count ids shard_id w
  dispatch_readies count ids shard_ids w'

unfoldable pub bot_ready : Waiting RdyCtrl
bot_ready = record {
  ctrl = record { shard_ready = []; local_shard_ids = []; has_cb = true };
  ready_spec = true;
  create_spec = false;
  callbacks = 0;
}

-- `guildsRdyCtrl`: which guilds have loaded. It takes over the rest of `rdyCtrl`, of which it uses the
-- callback.
pub record GuildsRdyCtrl : Type 0 where
  pub status : Dict Bool
  pub has_cb : Bool

-- The events that BotGuildsReady listens to: a READY with its unavailable guilds, a GUILD_CREATE.
pub data GuildsEvent : Type 0 where
  readied : List ℕ → GuildsEvent
  guild_created : ℕ → GuildsEvent

-- `guildsRdyCtrl.IsDead`
unfoldable pub all_loaded : Dict Bool → Bool
all_loaded [] = true
all_loaded ((id, loaded) ∷ status) = loaded && all_loaded status

unfoldable pub add_unavailable : List ℕ → Dict Bool → Dict Bool
add_unavailable [] status = status
add_unavailable (id ∷ ids) status =
    add_unavailable ids (if is_some (lookup id status) then status else insert id false status)

-- The two handlers of BotGuildsReady.
unfoldable pub note_guilds : GuildsEvent → Dict Bool → Dict Bool
unfolding add_unavailable
note_guilds (readied ids) status = erase 0 (add_unavailable ids status)
note_guilds (guild_created id) status = insert id true status

-- Whether the spec for an event is there, and its removal.
listens : GuildsEvent → Waiting GuildsRdyCtrl → Bool
listens (readied ids) w = w.ready_spec
listens (guild_created id) w = w.create_spec

stop_listening : GuildsEvent → Waiting GuildsRdyCtrl → Waiting GuildsRdyCtrl
stop_listening (readied ids) w = record w { ready_spec = false }
stop_listening (guild_created id) w = record w { create_spec = false }

call_back_guilds : Waiting GuildsRdyCtrl → Waiting GuildsRdyCtrl
call_back_guilds w =
    if w.ctrl.has_cb
    then record w { ctrl = record w.ctrl { has_cb = false }; callbacks = suc w.callbacks }
    else w

unfoldable pub dispatch_guilds : GuildsEvent → Waiting GuildsRdyCtrl → Waiting GuildsRdyCtrl
unfolding all_loaded note_guilds listens stop_listening call_back_guilds
dispatch_guilds e w =
    let c = w.ctrl in
    let c' = if all_loaded c.status then c else record c { status = note_guilds e c.status } in
    let w' = record w { ctrl = c' } in
    let served = if all_loaded c'.status then call_back_guilds (stop_listening e w') else w' in
    if listens e w then served else w

unfoldable pub dispatch_all_guilds :
    List GuildsEvent → Waiting GuildsRdyCtrl → Waiting GuildsRdyCtrl
unfolding dispatch_guilds
dispatch_all_guilds [] w = w
dispatch_all_guilds (e ∷ es) w = dispatch_all_guilds es (dispatch_guilds e w)

unfoldable pub bot_guilds_ready : Waiting GuildsRdyCtrl
bot_guilds_ready = record {
  ctrl = record { status = (0, false) ∷ []; has_cb = true };
  ready_spec = true;
  create_spec = true;
  callbacks = 0;
}
