-- ===== src/Reactor/Inputs.antt =====
-- How the inputs of a registration find their places.
use mathlib.Core.List.{append-nil, append_assoc}
use disgord.Base.{ℕ, ◌≡◌, refl, sym, ◌∙◌, ap, List, [], ◌∷◌, ◌++◌, map, Option, none, some, true}
use disgord.Reactor.{
  Ctrl, HandlerSpec, Input, middleware, handler, control, populate, populate_from,
  populate_handlers, populate_last,
}

module _ {E : Type 0} where
  abbrev spec_of : List (E → Option E) → List ℕ → Option Ctrl → HandlerSpec E
  spec_of fs hs c = record { middlewares = fs; handlers = hs; ctrl = c }

  -- Handlers, and then a control.
  abbrev ending : List ℕ → Ctrl → List (Input E)
  ending hs c = map handler hs ++ control c ∷ []

  handlers_ending :
      (fs : List (E → Option E)) (done hs : List ℕ) (c : Ctrl)
      → populate_handlers (spec_of fs done none) (ending hs c)
        ≡ (spec_of fs (done ++ hs) (some c), true)
  unfolding populate_handlers populate_last
  handlers_ending fs done [] c = ap (λ hs. (spec_of fs hs (some c), true)) (sym (append-nil done))
  handlers_ending fs done (h ∷ []) c = refl
  handlers_ending fs done (h ∷ k ∷ hs) c =
      handlers_ending fs (done ++ h ∷ []) (k ∷ hs) c
      ∙ ap (λ hs'. (spec_of fs hs' (some c), true)) (append_assoc done (h ∷ []) (k ∷ hs))

  from_handlers :
      (s : HandlerSpec E) (hs : List ℕ) (c : Ctrl)
      → populate_from s (ending hs c) ≡ populate_handlers s (ending hs c)
  unfolding populate_from
  from_handlers s [] c = refl
  from_handlers s (h ∷ hs) c = refl

  from_step :
      (s : HandlerSpec E) (f : E → Option E) (xs : List (Input E))
      → populate_from s (middleware f ∷ xs)
        ≡ populate_from (record s { middlewares = s.middlewares ++ f ∷ [] }) xs
  unfolding populate_from
  from_step s f xs = refl

  from_middlewares :
      (done fs : List (E → Option E)) (hs : List ℕ) (c : Ctrl)
      → populate_from (spec_of done [] none) (map middleware fs ++ ending hs c)
        ≡ (spec_of (done ++ fs) hs (some c), true)
  from_middlewares done [] hs c =
      from_handlers (spec_of done [] none) hs c
      ∙ handlers_ending done [] hs c
      ∙ ap (λ fs. (spec_of fs hs (some c), true)) (sym (append-nil done))
  from_middlewares done (f ∷ fs) hs c =
      from_step (spec_of done [] none) f (map middleware fs ++ ending hs c)
      ∙ from_middlewares (done ++ f ∷ []) fs hs c
      ∙ ap (λ fs'. (spec_of fs' hs (some c), true)) (append_assoc done (f ∷ []) fs)

  -- Middlewares, then handlers, then a control, however many of the first two: all inputs are
  -- accepted, and the spec has exactly them, in their order.
  populate_in_order :
      (fs : List (E → Option E)) (hs : List ℕ) (c : Ctrl)
      → populate (map middleware fs ++ (map handler hs ++ control c ∷ []))
        ≡ (record { middlewares = fs; handlers = hs; ctrl = some c }, true)
  unfolding populate
  populate_in_order fs hs c = from_middlewares [] fs hs c
