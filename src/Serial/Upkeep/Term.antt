-- ===== src/Serial/Upkeep/Term.antt =====
-- serialTerm of src/serial.c: the virtuals of a master are closed and given back.
pub mod Masters
pub mod Tree
use serial_proxy_c.Prelude.{
  some-inj, ℕ, zero, suc, ◌≡◌, refl, ◌⊎◌, inl, inr, ◌∙◌, ap, sym, subst, true, false, Option, none,
  some, List, [], ◌∷◌, arith, ◌==◌, ◌≤◌, length, All, All-imp, Bool-cases, Option-cases,
}
use serial_proxy_c.Prelude.Text.{Text}
use serial_proxy_c.Machine.Types.{Node, Link, Server, Env, World}
use serial_proxy_c.Machine.Memory.{load_node-some}
use serial_proxy_c.Machine.Returns.{Returns, returned, Returns-and_then, Returns-weaken}
use serial_proxy_c.Serial.Nodes.{node_is_master, node_is_virtual}
use serial_proxy_c.Serial.Nodes.Chain.{Nodes, IsChain, is_among}
use serial_proxy_c.Serial.Nodes.Lists.{IsMasters, IsVirtuals}
use serial_proxy_c.Serial.Nodes.Tree.{IsTree, IsRoot, IsLeaf}
use serial_proxy_c.Serial.Nodes.Distinct.{
  not-is_among-rest, Agree, IsChain-Agree, apart, All-is_among, All-of_is_among,
}
use serial_proxy_c.Serial.Link.Accounts.{Balanced-fds}
use serial_proxy_c.Serial.Link.Linked.{IsLinked}
use serial_proxy_c.Serial.Sound.{IsSound}
use serial_proxy_c.Serial.Upkeep.{close_node, walk_ahead, term_loop, serial_term}
use serial_proxy_c.Serial.Upkeep.Release.{Shrinks, Shrinks-trans}
use serial_proxy_c.Serial.Upkeep.Release.Close.{RootClosed, LeafClosed, close_root, close_leaf}

-- The nodes of a list are gone.
abbrev pub AllGone : World → List ℕ → Type 0
AllGone v ps = All (λ p. v.nodes p ≡ none) ps

AllGone-stay :
    {env : Env} (v u : World) (ps : List ℕ) → Shrinks env v u → AllGone v ps → AllGone u ps
AllGone-stay v u ps shrinks gone =
    All-of_is_among (λ p. u.nodes p ≡ none) ps
      λ q e. shrinks.stay_gone q (All-is_among (λ p. v.nodes p ≡ none) ps q gone e)

-- What is known of each node of a list stays true where the nodes stay.
IsLeaf-Agree :
    (old new : Nodes) (m : ℕ) (ps : List ℕ)
    → Agree old new ps
    → All (IsLeaf old m) ps
    → All (IsLeaf new m) ps
IsLeaf-Agree old new m ps agree leaves = All-of_is_among (IsLeaf new m) ps λ q e.
    let (n, at, other, virtual, of, childless) = All-is_among (IsLeaf old m) ps q leaves e in
    (n, agree q e ∙ at, other, virtual, of, childless)

module _ (env : Env) (path : Text) (m : ℕ) where
  -- The virtuals `vs` of `m` are gone, and no other node is, or has changed, but for the list of `m`.
  abbrev FamilyClosed : World → Node → List ℕ → World → Type 0
  FamilyClosed v mn vs u =
      Shrinks env v u
      × AllGone u vs
      × (u.nodes m ≡ some (record mn { virtual_head = none }))
      × ((q : ℕ) → is_among q vs ≡ false → (q == m) ≡ false → u.nodes q ≡ v.nodes q)

  close_virtuals :
      (fuel : ℕ) (v : World) (head : Option ℕ) (vs : List ℕ) (mn : Node)
      → v.server.logfile ≡ some path
      → IsLinked env v
      → IsChain v.nodes head vs
      → length vs ≤ fuel
      → length vs ≤ v.fresh
      → All (IsLeaf v.nodes m) vs
      → is_among m vs ≡ false
      → v.nodes m ≡ some mn
      → (mn.virtual_head ≡ none) ⊎ (mn.virtual_head ≡ head)
      → Returns (λ r. FamilyClosed v mn vs) (walk_ahead fuel (close_node env) head v)
  unfolding walk_ahead
  close_virtuals fuel v none [] mn set is c h b leaves out atm family =
      let empty : mn.virtual_head ≡ none = elim family [ inl e ↦ e | inr e ↦ e ] in
      returned (
        record {
          settings = refl;
          same_fresh = refl;
          stay_gone = λ q e. e;
          old_links = λ l k e. e;
          linked = is;
          balance = Balanced-fds env v v refl (λ d. refl);
        },
        tt,
        atm ∙ ap (λ o. some (record mn { virtual_head = o })) empty,
        λ q away far. refl,
      )
  close_virtuals fuel v (some p) [] mn set is c h b leaves out atm family = cc
  close_virtuals fuel v none (p ∷ ps) mn set is (e, n, at, c) h b leaves out atm family = cc
  close_virtuals zero v (some q) (p ∷ ps) mn set is c h b leaves out atm family =
      absurd (omega arith)
  close_virtuals (suc fuel) v (some q) (p ∷ ps) mn set is (e, n, at, c) h b (leaf, leaves) out atm
        family =
      let (n', at', other, virtual, of, childless) = leaf in
      let same : n ≡ n' = some-inj (sym at ∙ at') in
      let c' = subst (λ (x : Node). IsChain v.nodes x.next ps) same c in
      let address : q ≡ p = some-inj e in
      let once = not-is_among-rest v.nodes (some p) p ps (refl, n, at, c) in
      let first : (mn.virtual_head ≡ none) ⊎ (IsVirtuals v mn (p ∷ ps)) = elim family [
        | inl empty ↦ inl empty
        | inr head ↦ inr ((head ∙ e, n, at, c), b)
      ] in
      subst
        (λ x.
          Returns (λ r. FamilyClosed v mn (p ∷ ps))
            (walk_ahead (suc fuel) (close_node env) (some x) v))
        (sym address)
        (rw (load_node-some v p at') (
          Returns-and_then _
            (close_leaf env path v p m n' mn ps set is at' childless virtual of (ground arith) atm
              first)
            λ r u (shrinks, gone, atm', others).
              let agree : Agree v.nodes u.nodes ps =
                λ x on. others x (apart ps x p on once) (apart ps x m on (ground arith)) in
              Returns-weaken
                (close_virtuals fuel u n'.next ps (record mn { virtual_head = none })
                  (ap (λ (s : Server). s.logfile) shrinks.settings ∙ set) shrinks.linked
                  (IsChain-Agree v.nodes u.nodes n'.next ps agree c') (omega arith)
                  (omega (arith, shrinks.same_fresh))
                  (IsLeaf-Agree v.nodes u.nodes m ps agree leaves) (ground arith) atm' (inl refl))
                λ r' x (shrinks', gones, atm'', others'). (
                  Shrinks-trans shrinks shrinks',
                  (shrinks'.stay_gone p gone, gones),
                  atm'',
                  λ y off far. others' y (ground arith) far ∙ others y (ground arith) far,
                )))
