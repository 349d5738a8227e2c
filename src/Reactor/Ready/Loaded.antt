-- ===== src/Reactor/Ready/Loaded.antt =====
-- gateway.go, reactor.go: what the status of BotGuildsReady is after any events, and when all guilds have
-- loaded.
use disgord.Base.{
  ℕ, ◌≡◌, ◌≢◌, sym, ◌∙◌, List, [], ◌∷◌, Option, none, some, Bool, true, false, arith, ◌==◌, ◌&&◌,
  ◌||◌, is_some, if◌then◌else◌, Bool-cases, inl, inr,
}
use disgord.Base.Dict.{
  Dict, lookup, insert, NodupKeys, lookup-insert, lookup-erase, insert-NodupKeys, erase-NodupKeys,
}
use disgord.Reactor.Ready.{
  GuildsEvent, readied, guild_created, all_loaded, add_unavailable, note_guilds,
}

abbrev pub elem : ℕ → List ℕ → Bool
elem g [] = false
elem g (h ∷ hs) = (g == h) || elem g hs

-- What a history of events says, in whatever order it is listed.
abbrev pub has_ready : List GuildsEvent → Bool
has_ready [] = false
has_ready (readied ids ∷ es) = true
has_ready (guild_created id ∷ es) = has_ready es

abbrev pub announced : ℕ → List GuildsEvent → Bool
announced g [] = false
announced g (readied ids ∷ es) = elem g ids || announced g es
announced g (guild_created id ∷ es) = announced g es

abbrev pub created : ℕ → List GuildsEvent → Bool
created g [] = false
created g (readied ids ∷ es) = created g es
created g (guild_created id ∷ es) = (g == id) || created g es

abbrev pub all_created : List ℕ → List GuildsEvent → Bool
all_created [] es = true
all_created (g ∷ gs) es = created g es && all_created gs es

abbrev pub covers : List GuildsEvent → List GuildsEvent → Bool
covers es [] = true
covers es (readied ids ∷ rest) = all_created ids es && covers es rest
covers es (guild_created id ∷ rest) = covers es rest

-- A READY has come, and every guild of those that came has had its GUILD_CREATE.
abbrev pub is_loaded : List GuildsEvent → Bool
is_loaded es = has_ready es && covers es es

-- No guild has the id 0.
abbrev pub IsReal : GuildsEvent → Type 0
IsReal (readied ids) = elem 0 ids ≡ false
IsReal (guild_created id) = id ≢ 0

-- The entry of a guild after the events `seen`.
abbrev pub entry : ℕ → List GuildsEvent → Option Bool
entry g seen =
    if g == 0
    then if has_ready seen then none else some false
    else if created g seen
    then some true
    else if announced g seen
    then some false
    else none

pub record Tracks (seen : List GuildsEvent) (status : Dict Bool) : Type 0 where
  pub once : NodupKeys status
  pub entries : (g : ℕ) → lookup g status ≡ entry g seen
  pub no_zero : announced 0 seen ≡ false

lookup-add_unavailable :
    (g : ℕ) (ids : List ℕ) (d : Dict Bool)
    → lookup g (add_unavailable ids d)
      ≡ (if is_some (lookup g d) then lookup g d else if elem g ids then some false else none)
unfolding add_unavailable
lookup-add_unavailable g [] d = ground arith
lookup-add_unavailable g (id ∷ ids) d = ground (
  arith,
  lookup-add_unavailable g ids d,
  lookup-add_unavailable g ids (insert id false d),
  lookup-insert g id false d,
)

add_unavailable-NodupKeys :
    (ids : List ℕ) (d : Dict Bool) → NodupKeys d → NodupKeys (add_unavailable ids d)
unfolding add_unavailable
add_unavailable-NodupKeys [] d h = h
add_unavailable-NodupKeys (id ∷ ids) d h = elim (Bool-cases (is_some (lookup id d))) [
  | inl e ↦ rw e (add_unavailable-NodupKeys ids d h)
  | inr e ↦ rw e (add_unavailable-NodupKeys ids (insert id false d) (insert-NodupKeys id false d h))
]

pub note_guilds-Tracks :
    (e : GuildsEvent) (seen : List GuildsEvent) (d : Dict Bool)
    → IsReal e
    → Tracks seen d
    → Tracks (e ∷ seen) (note_guilds e d)
unfolding note_guilds
note_guilds-Tracks (readied ids) seen d real t = record {
  once = erase-NodupKeys 0 (add_unavailable ids d) (add_unavailable-NodupKeys ids d t.once);
  entries = λ g. ground (
    arith,
    lookup-erase g 0 (add_unavailable ids d),
    lookup-add_unavailable g ids d,
    t.entries g,
  );
  no_zero = ground (arith, t.no_zero);
}
note_guilds-Tracks (guild_created id) seen d real t = record {
  once = insert-NodupKeys id true d t.once;
  entries = λ g. ground (arith, lookup-insert g id true d, t.entries g);
  no_zero = t.no_zero;
}

all_loaded-entry : (d : Dict Bool) (g : ℕ) → all_loaded d ≡ true → lookup g d ≢ some false
unfolding all_loaded lookup
all_loaded-entry [] g h e = ground (arith, h, e)
all_loaded-entry ((id, b) ∷ d) g h e = ground (arith, h, e, all_loaded-entry d g)

-- The first entry that is not loaded.
all_loaded-unready :
    (d : Dict Bool) → NodupKeys d → all_loaded d ≡ false → (g : ℕ) × (lookup g d ≡ some false)
unfolding all_loaded lookup
all_loaded-unready [] h e = ground (arith, e)
all_loaded-unready ((id, false) ∷ d) h e = (id, ground arith)
all_loaded-unready ((id, true) ∷ d) h e =
    let (g, r) = all_loaded-unready d h.1 e in (g, ground (arith, h.0, r))

all_created-none :
    (ids : List ℕ) (es : List GuildsEvent)
    → all_created ids es ≡ false
    → (g : ℕ) × (elem g ids ≡ true) × (created g es ≡ false)
all_created-none [] es e = ground (arith, e)
all_created-none (id ∷ ids) es e = elim (Bool-cases (created id es)) [
  | inl c ↦
      let (g, m, n) = all_created-none ids es (ground (arith, e, c)) in (g, ground (arith, m), n)
  | inr c ↦ (id, ground arith, c)
]

all_created-elem :
    (ids : List ℕ) (es : List GuildsEvent) (g : ℕ)
    → all_created ids es ≡ true
    → elem g ids ≡ true
    → created g es ≡ true
all_created-elem [] es g h m = ground (arith, m)
all_created-elem (id ∷ ids) es g h m = ground (arith, h, m, all_created-elem ids es g)

covers-none :
    (es rest : List GuildsEvent)
    → covers es rest ≡ false
    → (g : ℕ) × (announced g rest ≡ true) × (created g es ≡ false)
covers-none es [] e = ground (arith, e)
covers-none es (readied ids ∷ rest) e = elim (Bool-cases (all_created ids es)) [
  | inl c ↦ let (g, m, n) = covers-none es rest (ground (arith, e, c)) in (g, ground (arith, m), n)
  | inr c ↦ let (g, m, n) = all_created-none ids es c in (g, ground (arith, m), n)
]
covers-none es (guild_created id ∷ rest) e = covers-none es rest e

covers-announced :
    (es rest : List GuildsEvent) (g : ℕ)
    → covers es rest ≡ true
    → announced g rest ≡ true
    → created g es ≡ true
covers-announced es [] g h m = ground (arith, m)
covers-announced es (readied ids ∷ rest) g h m =
    ground (arith, h, m, all_created-elem ids es g, covers-announced es rest g)
covers-announced es (guild_created id ∷ rest) g h m = covers-announced es rest g h m

module _ (seen : List GuildsEvent) (d : Dict Bool) (t : Tracks seen d) where
  loaded-covers : all_loaded d ≡ true → is_loaded seen ≡ true
  loaded-covers h = elim (Bool-cases (covers seen seen)) [
    | inl c ↦ ground (arith, c, t.entries 0, all_loaded-entry d 0 h)
    | inr c ↦
        let (g, m, n) = covers-none seen seen c in
        ground (
          arith,
          m,
          n,
          t.no_zero,
          t.entries 0,
          t.entries g,
          all_loaded-entry d 0 h,
          all_loaded-entry d g h,
        )
  ]

  unloaded-covers : all_loaded d ≡ false → is_loaded seen ≡ false
  unloaded-covers h =
      let (g, e) = all_loaded-unready d t.once h in
      ground (arith, e, t.entries g, covers-announced seen seen g)

  pub all_loaded-Tracks : all_loaded d ≡ is_loaded seen
  all_loaded-Tracks = elim (Bool-cases (all_loaded d)) [
    | inl h ↦ h ∙ sym (loaded-covers h)
    | inr h ↦ h ∙ sym (unloaded-covers h)
  ]
