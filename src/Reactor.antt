-- ===== src/Reactor.antt =====
-- reactor.go: the handlers that a bot registers, and how an event reaches them. `E` is the type of
-- events. A handler is a number. Times are nanoseconds since the epoch, read as arguments.
pub mod Inputs
pub mod Runs
pub mod Ready
mod Tests
use disgord.Base.{
  ℕ, zero, suc, ◌+◌, ◌-◌, ◌*◌, List, [], ◌∷◌, ◌++◌, map, Option, none, some, Bool, true, false, ltb,
  ◌==◌, ◌||◌, if◌then◌else◌, ◌>>=◌,
}

-- What controls the life of a handler: the runs left, none for -1, the last time and a duration, 0
-- where nothing is set; or the control that never ends.
pub data Ctrl : Type 0 where
  eternal : Ctrl
  limited : Option ℕ → ℕ → ℕ → Ctrl

is_spent : Option ℕ → Bool
is_spent none = false
is_spent (some n) = n == 0

-- `OnInsert`, at the time `now`. The date of the largest snowflake, which stands for no end, is the
-- snowflake library's.
unfoldable pub on_insert : ℕ → ℕ → Ctrl → Ctrl
unfolding is_spent
on_insert last_date now eternal = eternal
on_insert last_date now (limited runs until duration) =
    let base = if until == 0 then now else until in
    limited (if is_spent runs then none else runs)
      (if ltb 0 duration then base + duration else if until == 0 then last_date else until) duration

unfoldable pub is_dead : ℕ → Ctrl → Bool
unfolding is_spent
is_dead now eternal = false
is_dead now (limited runs until duration) = is_spent runs || ltb until now

one_less : Option ℕ → Option ℕ
one_less none = none
one_less (some n) = some (n - 1)

unfoldable pub update : Ctrl → Ctrl
unfolding one_less
update eternal = eternal
update (limited runs until duration) = limited (one_less runs) until duration

pub record HandlerSpec (E : Type 0) : Type 0 where
  pub middlewares : List (E → Option E)
  pub handlers : List ℕ
  pub ctrl : Option Ctrl

-- What a user can register.
pub data Input (E : Type 0) : Type 0 where
  middleware : (E → Option E) → Input E
  handler : ℕ → Input E
  control : Ctrl → Input E

module _ {E : Type 0} where
  unfoldable pub run_mdlws : List (E → Option E) → E → Option E
  run_mdlws [] e = some e
  run_mdlws (f ∷ fs) e = f e >>= run_mdlws fs

  -- The end of `populate`: the last input is a control or a handler, and nothing may be left. An
  -- input that is no handler is taken as one here, under the number 0.
  populate_last : HandlerSpec E → List (Input E) → HandlerSpec E × Bool
  populate_last s [] = (s, true)
  populate_last s (control c ∷ []) = (record s { ctrl = some c }, true)
  populate_last s (handler h ∷ []) =
      (record s { handlers = s.handlers ++ h ∷ []; ctrl = some eternal }, true)
  populate_last s (middleware f ∷ []) =
      (record s { handlers = s.handlers ++ 0 ∷ []; ctrl = some eternal }, true)
  populate_last s (x ∷ y ∷ xs) = (s, false)

  populate_handlers : HandlerSpec E → List (Input E) → HandlerSpec E × Bool
  unfolding populate_last
  populate_handlers s (handler h ∷ x ∷ xs) =
      populate_handlers (record s { handlers = s.handlers ++ h ∷ [] }) (x ∷ xs)
  populate_handlers s xs = populate_last s xs

  populate_from : HandlerSpec E → List (Input E) → HandlerSpec E × Bool
  unfolding populate_handlers
  populate_from s (middleware f ∷ xs) =
      populate_from (record s { middlewares = s.middlewares ++ f ∷ [] }) xs
  populate_from s xs = populate_handlers s xs

  -- The spec, and whether all inputs have found a place.
  unfoldable pub populate : List (Input E) → HandlerSpec E × Bool
  unfolding populate_from
  populate xs = populate_from (record { middlewares = []; handlers = []; ctrl = none }) xs

  -- `register`: an error, or the new spec at the end of the list. A spec without a control is a nil
  -- pointer, whose use is a panic, which is none.
  unfoldable pub register :
      ℕ → ℕ → List (Input E) → List (HandlerSpec E) → Option (List (HandlerSpec E) × Bool)
  register last_date now xs specs =
      let (s, fits) = populate xs in
      let insert = do
        c ← s.ctrl
        some (specs ++ record s { ctrl = some (on_insert last_date now c) } ∷ [], true)
      in if fits then insert else some (specs, false)

  -- The middle of `dispatch`, for a spec that is alive: the event goes through the middlewares and to
  -- the handlers. The result is the spec if it lives on, and what was triggered.
  serve : ℕ → E → HandlerSpec E → Ctrl → Option E → Option (HandlerSpec E) × List (ℕ × E)
  serve now e s c none = (some s, [])
  serve now e s c (some e') = (
    if is_dead now (update c) then none else some (record s { ctrl = some (update c) }),
    map (λ h. (h, e')) s.handlers,
  )

  unfoldable pub dispatch_one :
      ℕ → E → HandlerSpec E → Option (Option (HandlerSpec E) × List (ℕ × E))
  unfolding serve
  dispatch_one now e s = do
    c ← s.ctrl
    some (if is_dead now c then (none, []) else serve now e s c (run_mdlws s.middlewares e))

  kept : Option (HandlerSpec E) → List (HandlerSpec E)
  kept none = []
  kept (some s) = s ∷ []

  -- `dispatch`: the specs that live on, in their order, and what was triggered. No other dispatch runs
  -- beside it, and the clock reads `now` throughout.
  unfoldable pub dispatch :
      ℕ → E → List (HandlerSpec E) → Option (List (HandlerSpec E) × List (ℕ × E))
  unfolding kept
  dispatch now e [] = some ([], [])
  dispatch now e (s ∷ ss) = do
    (s', triggered) ← dispatch_one now e s
    (ss', rest) ← dispatch now e ss
    some (kept s' ++ ss', triggered ++ rest)

  -- A history of events with their times.
  unfoldable pub dispatch_all :
      List (ℕ × E) → List (HandlerSpec E) → Option (List (HandlerSpec E) × List (ℕ × E))
  dispatch_all [] specs = some (specs, [])
  dispatch_all ((now, e) ∷ es) specs = do
    (specs', triggered) ← dispatch now e specs
    (specs'', rest) ← dispatch_all es specs'
    some (specs'', triggered ++ rest)
