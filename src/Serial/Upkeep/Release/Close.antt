-- ===== src/Serial/Upkeep/Release/Close.antt =====
-- One node is closed and given back: a virtual, or a master without virtuals.
use serial_proxy_c.Prelude.{
  some-inj, ℕ, ◌≡◌, refl, ◌⊎◌, inl, inr, ◌∙◌, ap, sym, true, false, none, some, List, ◌∷◌, arith,
  ◌==◌, Bool-cases,
}
use serial_proxy_c.Prelude.Text.{Text}
use serial_proxy_c.Machine.Types.{Node, Call, Env, World}
use serial_proxy_c.Machine.Monad.{update}
use serial_proxy_c.Machine.Memory.{load_node-some, update_same}
use serial_proxy_c.Machine.Returns.{Returns, returned, Returns-and_then}
use serial_proxy_c.Log.{ll_info}
use serial_proxy_c.Log.Laws.{server_log-Logs}
use serial_proxy_c.Serial.Nodes.{node_is_virtual, free_node}
use serial_proxy_c.Serial.Nodes.Chain.{Nodes, KeepsNext, IsChain-keep}
use serial_proxy_c.Serial.Nodes.Lists.{IsVirtuals}
use serial_proxy_c.Serial.Nodes.Free.{free_node-root, free_node-first, free_node-later}
use serial_proxy_c.Serial.Link.Descriptors.{open_fds-OnlyLog}
use serial_proxy_c.Serial.Link.Accounts.{Balanced-trans, Balanced-fds}
use serial_proxy_c.Serial.Link.Linked.{IsLinked, IsLinked-aside}
use serial_proxy_c.Serial.Upkeep.{close_node}
use serial_proxy_c.Serial.Upkeep.Release.{Shrinks, Shrinks-trans, drop_link-Dropped, taken_out}

module _ (env : Env) (path : Text) where
  -- A node without virtuals that is no virtual: nothing but this node goes.
  abbrev pub RootClosed : World → ℕ → World → Type 0
  RootClosed v p u =
      Shrinks env v u × (u.nodes p ≡ none) × ((q : ℕ) → (q == p) ≡ false → u.nodes q ≡ v.nodes q)

  free_root :
      (v u : World) (p : ℕ) (n : Node)
      → node_is_virtual n ≡ false
      → n.virtual_head ≡ none
      → Shrinks env v u
      → u.nodes p ≡ some (record n { link = none })
      → ((q : ℕ) → (q == p) ≡ false → u.nodes q ≡ v.nodes q)
      → Returns (λ r. RootClosed v p) (free_node p u)
  free_root v u p n real childless shrinks at others =
      let n' : Node = record n { link = none } in
      rw (free_node-root u p n' at childless real) (
        returned (
          Shrinks-trans shrinks (
              taken_out env u shrinks.linked p n' at refl
                (update (update u.nodes p (some (record n' { virtual_head = none }))) p none)
                u.trace refl
                (update_same (update u.nodes p (some (record n' { virtual_head = none }))) p none)
                (λ q x e. (x, ground arith, refl)) λ q y away e. (y, ground arith, refl)),
          update_same (update u.nodes p (some (record n' { virtual_head = none }))) p none,
          λ q away. let same = others q away in ground arith,
        ))

  pub close_root :
      (v : World) (p : ℕ) (n : Node)
      → v.server.logfile ≡ some path
      → IsLinked env v
      → v.nodes p ≡ some n
      → n.virtual_head ≡ none
      → node_is_virtual n ≡ false
      → Returns (λ r. RootClosed v p) (close_node env p v)
  unfolding close_node
  close_root v p n set is at childless real =
      let (t, log, eq) = server_log-Logs env ll_info v path set in
      let v0 : World = record v { trace = t } in
      let is0 : IsLinked env v0 = IsLinked-aside env v is v.server t (open_fds-OnlyLog env log) in
      rw (eq, load_node-some v0 p at)
        (Returns-and_then _ (drop_link-Dropped env v0 is0 p n at childless)
          λ r u (shrinks, at', others).
            free_root v u p n real childless
              (record {
                settings = shrinks.settings;
                same_fresh = shrinks.same_fresh;
                stay_gone = shrinks.stay_gone;
                old_links = shrinks.old_links;
                linked = shrinks.linked;
                balance =
                    Balanced-trans env v v0 u
                      (Balanced-fds env v v0 (open_fds-OnlyLog env log) (λ d. refl))
                      shrinks.balance;
              })
              at' others)

  -- A virtual of `m` without virtuals: nothing else goes, and `m` has no virtuals any more.
  abbrev pub LeafClosed : World → ℕ → ℕ → Node → World → Type 0
  LeafClosed v p m mn u =
      Shrinks env v u
      × (u.nodes p ≡ none)
      × (u.nodes m ≡ some (record mn { virtual_head = none }))
      × ((q : ℕ) → (q == p) ≡ false → (q == m) ≡ false → u.nodes q ≡ v.nodes q)

  module _ (v u : World) (p m : ℕ) (n mn : Node) (virtual : node_is_virtual n ≡ true)
      (childless : n.virtual_head ≡ none) (of : n.virtualof ≡ some m) (ne : (m == p) ≡ false)
      (atm : v.nodes m ≡ some mn) (shrinks : Shrinks env v u)
      (at : u.nodes p ≡ some (record n { link = none }))
      (others : (q : ℕ) → (q == p) ≡ false → u.nodes q ≡ v.nodes q) where
    abbrev n' : Node
    n' = record n { link = none }

    abbrev n1 : Node
    n1 = record n' { next = none }

    atm' : u.nodes m ≡ some mn
    atm' = others m ne ∙ atm

    free_first :
        (vs : List ℕ)
        → IsVirtuals u mn (p ∷ vs)
        → Returns (λ r. LeafClosed v p m mn) (free_node p u)
    free_first vs children =
        let mn' : Node = record mn { virtual_head = none } in
        let nodes1 : Nodes = update (update u.nodes m (some mn')) p (some n1) in
        let nodes2 : Nodes = update nodes1 p (some (record n1 { virtual_head = none })) in
        rw (free_node-first u p n' at childless m mn atm' (ground arith) virtual of vs children) (
          returned (
            Shrinks-trans shrinks (
                taken_out env u shrinks.linked p n' at refl (update nodes2 p none)
                  (Call.remove n.name ∷ u.trace) refl (update_same nodes2 p none)
                  (λ q x e. elim (Bool-cases (q == m)) [
                    | inl here ↦
                        let address : q ≡ m = ground arith in
                        (mn, ap u.nodes address ∙ atm', ground arith)
                    | inr away ↦ (x, ground arith, refl)
                  ])
                  λ q y away e. elim (Bool-cases (q == m)) [
                    | inl here ↦
                        let address : q ≡ m = ground arith in
                        let same : y ≡ mn = some-inj (sym e ∙ ap u.nodes address ∙ atm') in
                        (mn', ground arith, ap (λ (x : Node). x.link) (sym same))
                    | inr far ↦ (y, ground arith, refl)
                  ]),
            update_same nodes2 p none,
            ground arith,
            λ q away far. let same = others q away in ground arith,
          ))

    free_later : mn.virtual_head ≡ none → Returns (λ r. LeafClosed v p m mn) (free_node p u)
    free_later forgotten =
        let nodes2 : Nodes = update u.nodes p (some (record n' { virtual_head = none })) in
        rw (free_node-later u p n' at childless m mn atm' (ground arith) virtual of forgotten) (
          returned (
            Shrinks-trans shrinks (
                taken_out env u shrinks.linked p n' at refl (update nodes2 p none)
                  (Call.remove n.name ∷ u.trace) refl (update_same nodes2 p none)
                  (λ q x e. (x, ground arith, refl)) λ q y away e. (y, ground arith, refl)),
            update_same nodes2 p none,
            (let stays : update nodes2 p none m ≡ some mn = ground (arith, atm') in
                stays ∙ ap (λ o. some (record mn { virtual_head = o })) forgotten),
            λ q away far. let same = others q away in ground arith,
          ))

  KeepsNext-dropped :
      (v u : World) (p : ℕ) (n : Node)
      → v.nodes p ≡ some n
      → u.nodes p ≡ some (record n { link = none })
      → ((q : ℕ) → (q == p) ≡ false → u.nodes q ≡ v.nodes q)
      → KeepsNext v.nodes u.nodes
  KeepsNext-dropped v u p n at at' others q y e = elim (Bool-cases (q == p)) [
    | inl here ↦
        let address : q ≡ p = ground arith in
        let same : y ≡ n = some-inj (sym e ∙ ap v.nodes address ∙ at) in
        (record n { link = none }, ap u.nodes address ∙ at', ap (λ (x : Node). x.next) (sym same))
    | inr away ↦ (y, others q away ∙ e, refl)
  ]

  pub close_leaf :
      (v : World) (p m : ℕ) (n mn : Node) (vs : List ℕ)
      → v.server.logfile ≡ some path
      → IsLinked env v
      → v.nodes p ≡ some n
      → n.virtual_head ≡ none
      → node_is_virtual n ≡ true
      → n.virtualof ≡ some m
      → (m == p) ≡ false
      → v.nodes m ≡ some mn
      → (mn.virtual_head ≡ none) ⊎ (IsVirtuals v mn (p ∷ vs))
      → Returns (λ r. LeafClosed v p m mn) (close_node env p v)
  unfolding close_node
  close_leaf v p m n mn vs set is at childless virtual of ne atm family =
      let (t, log, eq) = server_log-Logs env ll_info v path set in
      let v0 : World = record v { trace = t } in
      let is0 : IsLinked env v0 = IsLinked-aside env v is v.server t (open_fds-OnlyLog env log) in
      rw (eq, load_node-some v0 p at)
        (Returns-and_then _ (drop_link-Dropped env v0 is0 p n at childless)
          λ r u (shrinks, at', others).
            let shrinks' : Shrinks env v u = record {
              settings = shrinks.settings;
              same_fresh = shrinks.same_fresh;
              stay_gone = shrinks.stay_gone;
              old_links = shrinks.old_links;
              linked = shrinks.linked;
              balance =
                  Balanced-trans env v v0 u
                    (Balanced-fds env v v0 (open_fds-OnlyLog env log) (λ d. refl)) shrinks.balance;
            } in
            elim family [
              | inl forgotten ↦
                  free_later v u p m n mn virtual childless of ne atm shrinks' at' others forgotten
              | inr (c, h) ↦
                  free_first v u p m n mn virtual childless of ne atm shrinks' at' others vs (
                    IsChain-keep v.nodes u.nodes mn.virtual_head (p ∷ vs)
                        (KeepsNext-dropped v u p n at at' others) c,
                    omega (arith, h, shrinks.same_fresh),
                  )
            ])
