-- ===== src/Gateway/Shards/Emission.antt =====
-- Which shard gets which part of a request for guild members, and which guilds are left over.
use disgord.Base.{
  ℕ_discrete, ap, ℕ, ◌/◌, ◌%◌, ◌^◌, ◌≡◌, ◌≢◌, refl, sym, ◌∙◌, List, [], ◌∷◌, ◌++◌, Option, none,
  some, Bool, true, false, String, arith, ◌||◌, ◌&&◌, Option-cases, inl, inr, is_some,
}
use disgord.Gateway.Command.{Payload, RequestGuildMembersPayload, members}
use disgord.Gateway.Client.Emit.{EmitError}
use disgord.Gateway.Shards.{
  ShardConfig, find, put, group, ShardMngr, ShardError, send_group, send_groups, emit_sharded,
}
use disgord.Gateway.Shards.Grouping.{elem, of_shard, IsMap, IsIteration, extended, group_lem}

put_other :
    {A : Type 0} (id k : ℕ) (s : A) (ss : List (ℕ × A)) → id ≢ k → find k (put id s ss) ≡ find k ss
unfolding find put
put_other id k s [] h = refl
put_other id k s ((j, t) ∷ ts) h = ground (arith, put_other id k s ts h)

put_same :
    {A : Type 0} (k : ℕ) (s t : A) (ss : List (ℕ × A))
    → find k ss ≡ some s
    → find k (put k t ss) ≡ some t
unfolding find put
put_same k s t [] h = absurd (ground arith)
put_same k s t ((j, u) ∷ ts) h = ground (arith, put_same k s t ts)

elem-append : (g : ℕ) (xs ys : List ℕ) → elem g (xs ++ ys) ≡ (elem g xs || elem g ys)
elem-append g [] ys = refl
elem-append g (x ∷ xs) ys = ground (arith, elem-append g xs ys)

module _ {S : Type 0} (emit : String → Payload → S → S × Option EmitError) (cmd : String)
    (r : RequestGuildMembersPayload) where
  abbrev pub part : List ℕ → Payload
  part gs = members (record r { guild_ids = gs })

  -- A shard after the request: no packet for no guild, else one.
  abbrev pub received : S → Option (List ℕ) → S
  received s none = s
  received s (some gs) = (emit cmd (part gs) s).0

  -- The guilds of a shard are refused if the shard is not here, or if it takes no packet.
  abbrev pub refuses : Option S → List ℕ → Bool
  refuses none gs = true
  refuses (some s) gs = is_some (emit cmd (part gs) s).1

  abbrev Sent : Type 0
  Sent = List (ℕ × S) × List ℕ × Option ShardError

  send_group_other :
      (k id : ℕ) (gs : List ℕ) (st : Sent)
      → id ≢ k
      → find k (send_group emit cmd r (id, gs) st).0 ≡ find k st.0
  unfolding send_group
  send_group_other k id gs (shards, left, error) h = elim (Option-cases (find id shards)) [
    | inl e ↦ rw (e, send_group) refl
    | inr (s, e) ↦ rw (e, send_group) (put_other id k _ shards h)
  ]

  send_group_hit :
      (k : ℕ) (gs : List ℕ) (s : S) (st : Sent)
      → find k st.0 ≡ some s
      → find k (send_group emit cmd r (k, gs) st).0 ≡ some (received s (some gs))
  unfolding send_group
  send_group_hit k gs s (shards, left, error) e = rw (e, send_group) (put_same k s _ shards e)

  send_group_left :
      (g id : ℕ) (gs : List ℕ) (st : Sent)
      → elem g (send_group emit cmd r (id, gs) st).1
        ≡ (elem g st.1 || (elem g gs && refuses (find id st.0) gs))
  unfolding send_group
  send_group_left g id gs (shards, left, error) = elim (Option-cases (find id shards)) [
    | inl e ↦ rw e (ground (arith, elem-append g left gs))
    | inr (s, e) ↦ rw e (ground (arith, elem-append g left gs))
  ]

  find_head :
      (k id : ℕ) (gs : List ℕ) (rs : List (ℕ × List ℕ))
      → id ≢ k
      → find k ((id, gs) ∷ rs) ≡ find k rs
  unfolding find
  find_head k id gs rs h = ground arith

  find_here : (k : ℕ) (gs : List ℕ) (rs : List (ℕ × List ℕ)) → find k ((k, gs) ∷ rs) ≡ some gs
  unfolding find
  find_here k gs rs = ground arith

  sends_find :
      (k : ℕ) (s : S) (rs : List (ℕ × List ℕ)) (st : Sent)
      → IsMap rs
      → find k st.0 ≡ some s
      → find k (send_groups emit cmd r rs st).0 ≡ some (received s (find k rs))
  unfolding send_groups
  sends_find k s [] st v e = unfold find in e
  sends_find k s ((id, gs) ∷ rs) st v e = elim (ℕ_discrete id k) [
    | yes hit ↦
        rw (hit, find_here k gs rs)
          (sends_find k (received s (some gs)) rs (send_group emit cmd r (k, gs) st) v.1
              (send_group_hit k gs s st e)
            ∙ ap (λ o. some (received (received s (some gs)) o))
                (ap (λ i. find i rs) (sym hit) ∙ v.0))
    | no miss ↦ rw (find_head k id gs rs miss) (
        sends_find k s rs (send_group emit cmd r (id, gs) st) v.1
          (send_group_other k id gs st miss ∙ e))
  ]

  -- The guild stands in no group but that of the shard.
  abbrev OnlyIn : ℕ → ℕ → List (ℕ × List ℕ) → Type 0
  OnlyIn g k rs = (j : ℕ) (gs : List ℕ) → j ≢ k → find j rs ≡ some gs → elem g gs ≡ false

  only_tail :
      (g k id : ℕ) (gs : List ℕ) (rs : List (ℕ × List ℕ))
      → find id rs ≡ none
      → OnlyIn g k ((id, gs) ∷ rs)
      → OnlyIn g k rs
  only_tail g k id gs rs once only j hs ne e = elim (ℕ_discrete id j) [
    | yes same ↦ absurd (ground arith)
    | no other ↦ only j hs ne (find_head j id gs rs other ∙ e)
  ]

  -- Whether the guild is left over, by its group and its shard.
  abbrev left_of : ℕ → Option (List ℕ) → Option S → Bool
  left_of g none o = false
  left_of g (some gs) o = elem g gs && refuses o gs

  sends_left :
      (g k : ℕ) (rs : List (ℕ × List ℕ)) (st : Sent)
      → IsMap rs
      → OnlyIn g k rs
      → elem g (send_groups emit cmd r rs st).1
        ≡ (elem g st.1 || left_of g (find k rs) (find k st.0))
  unfolding send_groups
  sends_left g k [] st v only = unfold find in ground arith
  sends_left g k ((id, gs) ∷ rs) st v only =
      let st' = send_group emit cmd r (id, gs) st in
      let ih = sends_left g k rs st' v.1 (only_tail g k id gs rs v.0 only) in
      elim (ℕ_discrete id k) [
        | yes hit ↦ ground (arith, ih, hit, send_group_left g id gs st, find_here id gs rs, v.0)
        | no miss ↦ ground (
          arith,
          ih,
          send_group_left g id gs st,
          find_head k id gs rs miss,
          send_group_other k id gs st miss,
          only id gs miss (find_here id gs rs),
        )
      ]

  of_shard_only :
      (count g j : ℕ) (gs : List ℕ)
      → j ≢ (g / 2 ^ 22) % count
      → elem g (of_shard count j gs) ≡ false
  of_shard_only count g j [] ne = refl
  of_shard_only count g j (h ∷ hs) ne = ground (arith, of_shard_only count g j hs ne)

  of_shard_own :
      (count g : ℕ) (gs : List ℕ) → elem g (of_shard count ((g / 2 ^ 22) % count) gs) ≡ elem g gs
  of_shard_own count g [] = refl
  of_shard_own count g (h ∷ hs) = ground (arith, of_shard_own count g hs)

  left_of-extended :
      (g : ℕ) (gs : List ℕ) (o : Option S)
      → left_of g (extended none gs) o ≡ (elem g gs && refuses o gs)
  left_of-extended g [] o = refl
  left_of-extended g (h ∷ hs) o = refl

  extended-elem :
      (g : ℕ) (gs hs : List ℕ) → extended none gs ≡ some hs → elem g gs ≡ false → elem g hs ≡ false
  extended-elem g [] hs e h = absurd (ground arith)
  extended-elem g (x ∷ xs) hs e h = ground arith

  -- The manager's answer, once the guilds are grouped.
  emit_several :
      (order : List (ℕ × List ℕ) → List (ℕ × List ℕ)) (conf : ShardConfig) (a b : ℕ × S)
      (ss : List (ℕ × S)) (rs : List (ℕ × List ℕ))
      → group conf.shard_count r.guild_ids [] ≡ some rs
      → let sent = send_groups emit cmd r (order rs) (a ∷ b ∷ ss, [], none) in
        emit_sharded emit order cmd (members r) (record { conf = conf; shards = a ∷ b ∷ ss })
        ≡ some (record { conf = conf; shards = sent.0 }, sent.1, sent.2)
  unfolding emit_sharded
  emit_several order conf a b ss rs e = ground (arith, e)

  -- A request for members to a manager of several shards is split: each local shard gets the guilds
  -- that belong to it in one packet, in their order, and nothing if there is none. The guilds that
  -- are returned are just those of the request whose shard is not here or did not take its packet.
  -- This holds for any order in which the map of the requests is iterated, and nothing panics if
  -- there is a shard count.
  pub emit_sharded_splits :
      (order : List (ℕ × List ℕ) → List (ℕ × List ℕ)) (conf : ShardConfig) (a b : ℕ × S)
      (ss : List (ℕ × S)) (k : ℕ) (s : S) (g : ℕ)
      → IsIteration order
      → conf.shard_count ≢ 0
      → find k (a ∷ b ∷ ss) ≡ some s
      → let count = conf.shard_count in
        let own = (g / 2 ^ 22) % count in
        (m : ShardMngr S) × (left : List ℕ) × (error : Option ShardError) × (emit_sharded emit order
            cmd
            (members r)
            (record { conf = conf; shards = a ∷ b ∷ ss })
          ≡ some (m, left, error))
        × (find k m.shards ≡ some (received s (extended none (of_shard count k r.guild_ids))))
        × (elem g left ≡ (
            elem g r.guild_ids && refuses (find own (a ∷ b ∷ ss)) (of_shard count own r.guild_ids)))
  unfolding find
  emit_sharded_splits order conf a b ss k s g it some_count e =
      let count = conf.shard_count in
      let shards : List (ℕ × S) = a ∷ b ∷ ss in
      let own = (g / 2 ^ 22) % count in
      let (rs, grouped, v, same) = group_lem count r.guild_ids [] some_count tt in
      let (w, kept) = it rs v in
      let sent = send_groups emit cmd r (order rs) (shards, [], none) in
      (
        record { conf = conf; shards = sent.0 },
        sent.1,
        sent.2,
        emit_several order conf a b ss rs grouped,
        sends_find k s (order rs) (shards, [], none) w e
            ∙ ap (λ o. some (received s o)) (kept k ∙ same k),
        sends_left g own (order rs) (shards, [], none) w
              (λ j gs ne f.
                extended-elem g _ gs (sym (same j) ∙ sym (kept j) ∙ f)
                  (of_shard_only count g j r.guild_ids ne))
            ∙ ap (λ o. left_of g o (find own shards)) (kept own ∙ same own)
            ∙ left_of-extended g (of_shard count own r.guild_ids) (find own shards)
            ∙ ap (λ x. x && refuses (find own shards) (of_shard count own r.guild_ids))
                (of_shard_own count g r.guild_ids),
      )
