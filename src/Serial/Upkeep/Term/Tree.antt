-- ===== src/Serial/Upkeep/Term/Tree.antt =====
-- serialTerm of src/serial.c on well-formed lists: every device is closed and given back.
use serial_proxy_c.Prelude.{
  some-inj, ℕ, ◌≡◌, ◌⊎◌, inl, inr, ◌∙◌, ap, sym, none, some, List, [], All, All-imp, Option-cases,
}
use serial_proxy_c.Prelude.Text.{Text}
use serial_proxy_c.Machine.Types.{Node, Link, Env, World}
use serial_proxy_c.Machine.Returns.{Returns, Returns-weaken}
use serial_proxy_c.Serial.Nodes.{node_is_virtual}
use serial_proxy_c.Serial.Nodes.Lists.{IsMasters, IsVirtuals}
use serial_proxy_c.Serial.Nodes.Tree.{IsRoot}
use serial_proxy_c.Serial.Nodes.Distinct.{All-is_among, All-of_is_among}
use serial_proxy_c.Serial.Sound.{IsSound}
use serial_proxy_c.Serial.Upkeep.{serial_term}
use serial_proxy_c.Serial.Upkeep.Release.{Shrinks}
use serial_proxy_c.Serial.Upkeep.Term.{AllGone}
use serial_proxy_c.Serial.Upkeep.Term.Masters.{Family, term_loop-Gone}

-- The node `m` of `w` and its virtuals are gone in `u`.
abbrev pub IsGone : World → World → ℕ → Type 0
IsGone w u m =
    (n : Node) × (vs : List ℕ) × (w.nodes m ≡ some n)
    × IsVirtuals w n vs
    × (u.nodes m ≡ none)
    × AllGone u vs

module _ (env : Env) (path : Text) (w : World) (sound : IsSound env path w) where
  kids_of : (p : ℕ) → (w.nodes p ≡ none) ⊎ ((n : Node) × (w.nodes p ≡ some n)) → List ℕ
  kids_of p (inl dead) = []
  kids_of p (inr (n, at)) = (sound.tree.virtuals p n at).0

  kids_of-Family :
      (p : ℕ) (live : (w.nodes p ≡ none) ⊎ ((n : Node) × (w.nodes p ≡ some n)))
      → IsRoot w.nodes p
      → Family w p (kids_of p live)
  unfolding kids_of
  kids_of-Family p (inl dead) (k, at', master, real, free) = cc
  kids_of-Family p (inr (n, at)) (k, at', master, real, free) =
      let same : k ≡ n = some-inj (sym at' ∙ at) in
      let (vs, is, leaves) = sound.tree.virtuals p n at in
      (n, at, ap node_is_virtual (sym same) ∙ real, is, leaves)

  -- A node that is gone has taken its link along.
  link_gone :
      (u : World) (p : ℕ) (n : Node) (l : ℕ)
      → Shrinks env w u
      → w.nodes p ≡ some n
      → n.link ≡ some l
      → u.nodes p ≡ none
      → u.links l ≡ none
  link_gone u p n l shrinks at e gone = elim (Option-cases (u.links l)) [
    | inl dead ↦ dead
    | inr (k, live) ↦
        let (q, m, fd, o, fits) = shrinks.linked.owned l k live in
        let (below, k', live', own) = sound.linked.back p n l at e in
        let same : k ≡ k' = some-inj (sym (shrinks.old_links l k live) ∙ live') in
        let address : q ≡ p = some-inj (sym o.owner ∙ ap (λ (x : Link). x.node) same ∙ own) in
        let still : u.nodes p ≡ some m = ap u.nodes (sym address) ∙ o.node_at in cc
  ]

  -- Where a log file is set, the lists are well formed, and nodes and links lead to each other,
  -- serialTerm returns: its two loops end, and although each node is unlinked and freed while they
  -- run, no freed node and no freed link is touched. Every listed master and each of its virtuals
  -- is then gone, a node that is gone has taken its link along, no node or link has come back, the
  -- settings are as before, nodes and links that are left lead to each other, and of each descriptor
  -- as many were closed as the links that are gone held.
  pub serial_term-IsGone :
      Returns
        (λ r u.
          Shrinks env w u
          × ((ms : List ℕ) × IsMasters w ms × All (IsGone w u) ms)
          × ((p : ℕ) (n : Node) (l : ℕ)
              → w.nodes p ≡ some n
              → n.link ≡ some l
              → u.nodes p ≡ none
              → u.links l ≡ none))
        (serial_term env w)
  unfolding serial_term
  serial_term-IsGone =
      let (ms, (c, h), roots) = sound.tree.masters in
      let kids : ℕ → List ℕ = λ p. kids_of p (Option-cases (w.nodes p)) in
      let families : All (λ m. Family w m (kids m)) ms =
        All-imp ms (λ p root. kids_of-Family p (Option-cases (w.nodes p)) root) roots in
      Returns-weaken
        (term_loop-Gone env path kids w.fresh w w.server.master_head ms sound.logfile sound.linked c
          h families)
        λ r u (shrinks, gones). (
          shrinks,
          (
            ms,
            (c, h),
            All-of_is_among (IsGone w u) ms λ m on.
                let (n, at, real, is, leaves) =
                  All-is_among (λ m. Family w m (kids m)) ms m families on in
                let (gone, all) =
                  All-is_among (λ m. (u.nodes m ≡ none) × AllGone u (kids m)) ms m gones on in
                (n, kids m, at, is, gone, all),
          ),
          λ p n l at e gone. link_gone u p n l shrinks at e gone,
        )
