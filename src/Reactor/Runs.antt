-- ===== src/Reactor/Runs.antt =====
-- How often a handler runs that is registered for a number of runs.
use mathlib.Core.List.{append-nil}
use disgord.Base.{
  ℕ, zero, suc, ◌-◌, ◌≤◌, ◌≡◌, refl, sym, ◌∙◌, ap, List, [], ◌∷◌, ◌++◌, map, Option, none, some,
  true, false, arith, length, take, All, Option-cases, inl, inr,
}
use disgord.Reactor.{
  limited, HandlerSpec, is_dead, update, run_mdlws, serve, kept, dispatch_one, dispatch,
  dispatch_all,
}

module _ {E : Type 0} (fs : List (E → Option E)) (hs : List ℕ) (until duration : ℕ) where
  -- The events that pass the middlewares, as they leave them.
  abbrev pub passing : List (ℕ × E) → List E
  passing [] = []
  passing ((now, e) ∷ es) = elim (run_mdlws fs e) [ none ↦ passing es | some e' ↦ e' ∷ passing es ]

  -- Each event for each handler.
  abbrev pub triggers : List E → List (ℕ × E)
  triggers [] = []
  triggers (e ∷ es) = map (λ h. (h, e)) hs ++ triggers es

  abbrev pub with_runs : ℕ → HandlerSpec E
  with_runs n = record {
    middlewares = fs;
    handlers = hs;
    ctrl = some (limited (some n) until duration);
  }

  abbrev remaining : ℕ → List (HandlerSpec E)
  remaining zero = []
  remaining (suc k) = with_runs (suc k) ∷ []

  abbrev pub left_after : ℕ → ℕ → List (HandlerSpec E)
  left_after n passed = remaining (n - passed)

  step_all :
      (now : ℕ) (e : E) (es : List (ℕ × E)) (specs specs' specs'' : List (HandlerSpec E))
      (triggered rest : List (ℕ × E))
      → dispatch now e specs ≡ some (specs', triggered)
      → dispatch_all es specs' ≡ some (specs'', rest)
      → dispatch_all ((now, e) ∷ es) specs ≡ some (specs'', triggered ++ rest)
  unfolding dispatch_all
  step_all now e es specs specs' specs'' triggered rest d r = rw d (rw r refl)

  nobody : (es : List (ℕ × E)) → dispatch_all es [] ≡ some ([], [])
  unfolding dispatch_all dispatch
  nobody [] = refl
  nobody ((now, e) ∷ es) = rw (nobody es) refl

  alive : (now n : ℕ) → now ≤ until → is_dead now (limited (some (suc n)) until duration) ≡ false
  unfolding is_dead
  alive now n early = ground arith

  gone : (now : ℕ) → is_dead now (limited (some 0) until duration) ≡ true
  unfolding is_dead
  gone now = refl

  updated :
      (n : ℕ) → update (limited (some (suc n)) until duration) ≡ limited (some n) until duration
  unfolding update
  updated n = ap (λ k. limited (some k) until duration) (omega arith)

  module _ (now : ℕ) (e : E) (early : now ≤ until) where
    filtered :
        (n : ℕ)
        → run_mdlws fs e ≡ none
        → dispatch now e (with_runs (suc n) ∷ []) ≡ some (with_runs (suc n) ∷ [], [])
    unfolding dispatch dispatch_one serve kept
    filtered n h = rw (alive now n early, h) refl

    last_run :
        (e' : E)
        → run_mdlws fs e ≡ some e'
        → dispatch now e (with_runs 1 ∷ []) ≡ some ([], map (λ h. (h, e')) hs)
    unfolding dispatch dispatch_one serve kept
    last_run e' h =
        rw
          (
            alive now 0 early,
            h,
            updated 0,
            gone now,
            append-nil {A = ℕ × E} (map (λ k. (k, e')) hs),
          )
          refl

    one_run :
        (e' : E) (n : ℕ)
        → run_mdlws fs e ≡ some e'
        → dispatch now e (with_runs (suc (suc n)) ∷ [])
          ≡ some (with_runs (suc n) ∷ [], map (λ h. (h, e')) hs)
    unfolding dispatch dispatch_one serve kept
    one_run e' n h =
        rw
          (
            alive now (suc n) early,
            h,
            updated (suc n),
            alive now n early,
            append-nil {A = ℕ × E} (map (λ k. (k, e')) hs),
          )
          refl

  left_none : (k : ℕ) → left_after 1 (suc k) ≡ []
  left_none k = let none_left : 1 - suc k ≡ 0 = omega arith in ap remaining none_left

  left_fewer : (n k : ℕ) → left_after (suc (suc n)) (suc k) ≡ left_after (suc n) k
  left_fewer n k = ap remaining (omega arith)

  left_all : (n : ℕ) → left_after (suc n) 0 ≡ with_runs (suc n) ∷ []
  left_all n = let all_left : suc n - 0 ≡ suc n = omega arith in ap remaining all_left

  passing-none :
      (now : ℕ) (e : E) (es : List (ℕ × E))
      → run_mdlws fs e ≡ none
      → passing ((now, e) ∷ es) ≡ passing es
  passing-none now e es h = rw (h, passing) refl

  passing-some :
      (now : ℕ) (e e' : E) (es : List (ℕ × E))
      → run_mdlws fs e ≡ some e'
      → passing ((now, e) ∷ es) ≡ e' ∷ passing es
  passing-some now e e' es h = rw (h, passing) refl

  -- What the history comes to, by the events that pass.
  abbrev outcome : ℕ → List E → Option (List (HandlerSpec E) × List (ℕ × E))
  outcome n ps = some (left_after (suc n) (length ps), triggers (take (suc n) ps))

  passed_one :
      (now : ℕ) (e e' : E) (n : ℕ) (es : List (ℕ × E))
      → now ≤ until
      → run_mdlws fs e ≡ some e'
      → ((k : ℕ) → dispatch_all es (with_runs (suc k) ∷ []) ≡ outcome k (passing es))
      → dispatch_all ((now, e) ∷ es) (with_runs (suc n) ∷ []) ≡ outcome n (e' ∷ passing es)
  passed_one now e e' zero es early h later =
      step_all now e es _ _ _ _ _ (last_run now e early e' h) (nobody es)
      ∙ ap (λ l. some (l, map (λ k. (k, e')) hs ++ [])) (sym (left_none (length (passing es))))
  passed_one now e e' (suc n) es early h later =
      step_all now e es _ _ _ _ _ (one_run now e early e' n h) (later n)
      ∙ ap (λ l. some (l, map (λ k. (k, e')) hs ++ triggers (take (suc n) (passing es))))
          (sym (left_fewer n (length (passing es))))

  -- A handler that is registered for a number of runs above 0, and whose end is not reached, runs for
  -- just the first so many events that pass its middlewares, each as they leave it and once for each of
  -- its functions, in order. Then it is removed; before that, it stays with the runs that are left.
  pub dispatch_all-runs :
      (n : ℕ) (es : List (ℕ × E))
      → All (λ x. x.0 ≤ until) es
      → dispatch_all es (with_runs (suc n) ∷ [])
        ≡ some (left_after (suc n) (length (passing es)), triggers (take (suc n) (passing es)))
  dispatch_all-runs n [] early = unfold dispatch_all in ap (λ l. some (l, [])) (sym (left_all n))
  dispatch_all-runs n ((now, e) ∷ es) early = elim (Option-cases (run_mdlws fs e)) [
    | inl h ↦
        step_all now e es _ _ _ _ _ (filtered now e early.0 n h) (dispatch_all-runs n es early.1)
        ∙ ap (outcome n) (sym (passing-none now e es h))
    | inr (e', h) ↦
        passed_one now e e' n es early.0 h (λ k. dispatch_all-runs k es early.1)
        ∙ ap (outcome n) (sym (passing-some now e e' es h))
  ]
