-- ===== src/Reactor/Ready/Fires.antt =====
-- gateway.go, reactor.go: when the callbacks of BotReady and BotGuildsReady run.
use disgord.Base.{
  ℕ, suc, ◌≡◌, refl, ap, ◌∙◌, List, [], ◌∷◌, some, Bool, true, false, arith, ◌||◌, if◌then◌else◌,
  All, Bool-cases, inl, inr,
}
use disgord.Base.Dict.{lookup, lookup-nil}
use disgord.Reactor.Ready.{
  Waiting, RdyCtrl, GuildsRdyCtrl, GuildsEvent, all_ready, call_back, dispatch_ready,
  dispatch_readies, bot_ready, all_loaded, note_guilds, listens, stop_listening, call_back_guilds,
  dispatch_guilds, dispatch_all_guilds, bot_guilds_ready,
}
use disgord.Reactor.Ready.Loaded.{is_loaded, IsReal, Tracks, note_guilds-Tracks, all_loaded-Tracks}

-- The events `seen`, the last first, have not loaded all guilds, but some of those that follow have
-- then.
abbrev pub loads_after : List GuildsEvent → List GuildsEvent → Bool
loads_after seen [] = false
loads_after seen (e ∷ es) = is_loaded (e ∷ seen) || loads_after (e ∷ seen) es

record IsWaiting (seen : List GuildsEvent) (w : Waiting GuildsRdyCtrl) : Type 0 where
  tracks : Tracks seen w.ctrl.status
  unloaded : is_loaded seen ≡ false
  cb : w.ctrl.has_cb ≡ true
  ready_there : w.ready_spec ≡ true
  create_there : w.create_spec ≡ true
  uncalled : w.callbacks ≡ 0

record IsDone (w : Waiting GuildsRdyCtrl) : Type 0 where
  loaded : all_loaded w.ctrl.status ≡ true
  cb : w.ctrl.has_cb ≡ false
  once_called : w.callbacks ≡ 1

dispatch_guilds-IsDone :
    (e : GuildsEvent) (w : Waiting GuildsRdyCtrl) → IsDone w → IsDone (dispatch_guilds e w)
unfolding dispatch_guilds listens stop_listening call_back_guilds
dispatch_guilds-IsDone (GuildsEvent.readied ids) w d = record {
  loaded = ground (arith, d.loaded, d.cb, d.once_called);
  cb = ground (arith, d.loaded, d.cb, d.once_called);
  once_called = ground (arith, d.loaded, d.cb, d.once_called);
}
dispatch_guilds-IsDone (GuildsEvent.guild_created id) w d = record {
  loaded = ground (arith, d.loaded, d.cb, d.once_called);
  cb = ground (arith, d.loaded, d.cb, d.once_called);
  once_called = ground (arith, d.loaded, d.cb, d.once_called);
}

dispatch_all_guilds-IsDone :
    (es : List GuildsEvent) (w : Waiting GuildsRdyCtrl)
    → IsDone w
    → (dispatch_all_guilds es w).callbacks ≡ 1
unfolding dispatch_all_guilds
dispatch_all_guilds-IsDone [] w d = d.once_called
dispatch_all_guilds-IsDone (e ∷ es) w d =
    dispatch_all_guilds-IsDone es (dispatch_guilds e w) (dispatch_guilds-IsDone e w d)

listens_both :
    (e : GuildsEvent) (w : Waiting GuildsRdyCtrl)
    → w.ready_spec ≡ true
    → w.create_spec ≡ true
    → listens e w ≡ true
unfolding listens
listens_both (GuildsEvent.readied ids) w r c = r
listens_both (GuildsEvent.guild_created id) w r c = c

call_back_stopped :
    (e : GuildsEvent) (w : Waiting GuildsRdyCtrl)
    → all_loaded w.ctrl.status ≡ true
    → w.ctrl.has_cb ≡ true
    → w.callbacks ≡ 0
    → IsDone (call_back_guilds (stop_listening e w))
unfolding call_back_guilds stop_listening
call_back_stopped (GuildsEvent.readied ids) w l b c =
    rw b (record { loaded = l; cb = refl; once_called = ap suc c })
call_back_stopped (GuildsEvent.guild_created id) w l b c =
    rw b (record { loaded = l; cb = refl; once_called = ap suc c })

module _ (e : GuildsEvent) (seen : List GuildsEvent) (w : Waiting GuildsRdyCtrl) (real : IsReal e)
    (i : IsWaiting seen w) where
  noted : Tracks (e ∷ seen) (note_guilds e w.ctrl.status)
  noted = note_guilds-Tracks e seen w.ctrl.status real i.tracks

  before : all_loaded w.ctrl.status ≡ false
  before = all_loaded-Tracks seen w.ctrl.status i.tracks ∙ i.unloaded

  after : all_loaded (note_guilds e w.ctrl.status) ≡ is_loaded (e ∷ seen)
  after = all_loaded-Tracks (e ∷ seen) (note_guilds e w.ctrl.status) noted

  there : listens e w ≡ true
  there = listens_both e w i.ready_there i.create_there

  goes_on : is_loaded (e ∷ seen) ≡ false → IsWaiting (e ∷ seen) (dispatch_guilds e w)
  unfolding dispatch_guilds
  goes_on h =
      rw (before, after, h, there)
        (record {
          tracks = noted;
          unloaded = h;
          cb = i.cb;
          ready_there = i.ready_there;
          create_there = i.create_there;
          uncalled = i.uncalled;
        })

  ends : is_loaded (e ∷ seen) ≡ true → IsDone (dispatch_guilds e w)
  unfolding dispatch_guilds
  ends h =
      let status = note_guilds e w.ctrl.status in
      rw (before, after, h, there)
        (call_back_stopped e (record w { ctrl = record w.ctrl { status = status } }) (after ∙ h)
          i.cb i.uncalled)

dispatch_all_guilds-IsWaiting :
    (es seen : List GuildsEvent) (w : Waiting GuildsRdyCtrl)
    → All IsReal es
    → IsWaiting seen w
    → (dispatch_all_guilds es w).callbacks ≡ (if loads_after seen es then 1 else 0)
unfolding dispatch_all_guilds
dispatch_all_guilds-IsWaiting [] seen w real i = i.uncalled
dispatch_all_guilds-IsWaiting (e ∷ es) seen w real i = elim (Bool-cases (is_loaded (e ∷ seen))) [
  | inl h ↦ rw h (dispatch_all_guilds-IsDone es (dispatch_guilds e w) (ends e seen w real.0 i h))
  | inr h ↦ rw h (
      dispatch_all_guilds-IsWaiting es (e ∷ seen) (dispatch_guilds e w) real.1
        (goes_on e seen w real.0 i h))
]

starts : IsWaiting [] bot_guilds_ready
unfolding bot_guilds_ready
starts = record {
  tracks = record {
    once = (lookup-nil 0, tt);
    entries = λ g. (unfold lookup in ground arith);
    no_zero = refl;
  };
  unloaded = refl;
  cb = refl;
  ready_there = refl;
  create_there = refl;
  uncalled = refl;
}

-- The callback of BotGuildsReady runs once if, after one of the events, a READY has come and each guild
-- of the READY events so far has had its GUILD_CREATE, before or after; otherwise it does not run.
pub bot_guilds_ready_lem :
    (es : List GuildsEvent)
    → All IsReal es
    → (dispatch_all_guilds es bot_guilds_ready).callbacks ≡ (if loads_after [] es then 1 else 0)
bot_guilds_ready_lem es real = dispatch_all_guilds-IsWaiting es [] bot_guilds_ready real starts

abbrev over : RdyCtrl → ℕ → Waiting RdyCtrl
over c n = record { ctrl = c; ready_spec = false; create_spec = false; callbacks = n }

-- Nothing changes once the spec for READY is gone.
dispatch_readies-over :
    (count : ℕ) (ids shards : List ℕ) (c : RdyCtrl) (n : ℕ)
    → dispatch_readies count ids shards (over c n) ≡ some (over c n)
unfolding dispatch_readies dispatch_ready
dispatch_readies-over count ids [] c n = refl
dispatch_readies-over count ids (shard ∷ shards) c n = dispatch_readies-over count ids shards c n

-- BotReady calls back once a first READY comes, whichever shard it is of and whatever the shards of the
-- manager are: its handler never runs, no shard is marked, and no later READY changes anything.
bot_ready_lem :
    (count : ℕ) (ids : List ℕ) (shard : ℕ) (shards : List ℕ)
    → dispatch_readies count ids (shard ∷ shards) bot_ready
      ≡ some (record {
        ctrl = record { shard_ready = []; local_shard_ids = []; has_cb = false };
        ready_spec = false;
        create_spec = false;
        callbacks = 1;
      })
unfolding dispatch_readies dispatch_ready bot_ready all_ready call_back
bot_ready_lem count ids shard shards = dispatch_readies-over count ids shards _ 1
