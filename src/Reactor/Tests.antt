-- ===== src/Reactor/Tests.antt =====
-- A handler with two runs and a middleware that drops odd numbers.
use disgord.Base.{
  ℕ, ◌≡◌, refl, ◌%◌, List, [], ◌∷◌, Option, none, some, true, arith, length, take, ◌==◌,
  if◌then◌else◌,
}
use disgord.Reactor.{
  limited, middleware, handler, control, dispatch_all, register, populate, on_insert,
}
use disgord.Reactor.Runs.{passing, triggers, with_runs, left_after, dispatch_all-runs}

abbrev even_only : ℕ → Option ℕ
even_only n = if n % 2 == 0 then some n else none

abbrev events : List (ℕ × ℕ)
events = (10, 2) ∷ (20, 3) ∷ (30, 4) ∷ (40, 6) ∷ []

dispatch_all-runs_example :
    dispatch_all events (with_runs (even_only ∷ []) (7 ∷ 8 ∷ []) 100 0 2 ∷ [])
    ≡ some (
      left_after
          (even_only ∷ [])
          (7 ∷ 8 ∷ [])
          100
          0
          2
          (length (passing (even_only ∷ []) (7 ∷ 8 ∷ []) 100 0 events)),
      triggers
          (even_only ∷ [])
          (7 ∷ 8 ∷ [])
          100
          0
          (take 2 (passing (even_only ∷ []) (7 ∷ 8 ∷ []) 100 0 events)),
    )
dispatch_all-runs_example =
    dispatch_all-runs (even_only ∷ []) (7 ∷ 8 ∷ []) 100 0 1 events (ground arith)

-- Middlewares, handlers and a control of three runs find their places.
in_order_registers :
    register 999 5 (middleware even_only ∷ handler 7 ∷ control (limited (some 3) 0 10) ∷ []) []
    ≡ some (
      record {
        middlewares = even_only ∷ [];
        handlers = 7 ∷ [];
        ctrl = some (limited (some 3) 15 10);
      }
          ∷ [],
      true,
    )
unfolding register populate on_insert
in_order_registers = refl

-- With middlewares alone, the control is a nil pointer.
middlewares_alone_panic : register 999 5 (middleware even_only ∷ []) [] ≡ none
unfolding register populate
middlewares_alone_panic = refl
