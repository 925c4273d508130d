-- ===== src/Config/Devices/Adopt.antt =====
-- A master of the file of devices gets a virtual, and a node of it another speed or flag.
use serial_proxy_c.Prelude.{
  ℕ, suc, ◌≡◌, refl, inl, inr, ◌∙◌, ap, sym, subst, ◌==◌, true, false, none, some, List, [], ◌∷◌,
  arith, Bool-cases,
}
use serial_proxy_c.Machine.Types.{Node, Server, Call, Env, World}
use serial_proxy_c.Machine.Monad.{update}
use serial_proxy_c.Machine.Memory.{update_same}
use serial_proxy_c.Serial.Nodes.{node_is_master, node_is_virtual}
use serial_proxy_c.Serial.Nodes.Chain.{Nodes}
use serial_proxy_c.Serial.Nodes.Grow.{
  GrowsTo, IsProper, IsTree-of_IsProper, masters-GrowsTo, virtuals-GrowsTo, parent-GrowsTo,
  IsProper-old,
}
use serial_proxy_c.Serial.Device.Configure.{HasSpeed}
use serial_proxy_c.Config.Devices.Heap.{IsWell}

module _ (env : Env) (s : Server) (w : World) (well : IsWell env s w) (t : List Call) where
  -- A virtual without virtuals in front of those of the master at `m`, at the fresh address.
  module _ (m : ℕ) (mn n : Node) (atm : w.nodes m ≡ some mn) (master : node_is_master mn ≡ true)
      (leaf : node_is_master n ≡ false) (is_virtual : node_is_virtual n ≡ true)
      (of : n.virtualof ≡ some m) (next : n.next ≡ mn.virtual_head)
      (no_virtuals : n.virtual_head ≡ none) (no_link : n.link ≡ none) where
    abbrev mn' : Node
    mn' = record mn { virtual_head = some w.fresh }

    abbrev new : Nodes
    new = update (update w.nodes m (some mn')) w.fresh (some n)

    abbrev v : World
    v = record w { nodes = new; fresh = suc w.fresh; trace = t }

    GrowsTo-adopted : GrowsTo w.nodes new
    GrowsTo-adopted p k at =
        let free = well.bounded w.fresh (omega arith) in
        elim (Bool-cases (p == m)) [
          | inl here ↦
              let same : mn ≡ k = ground arith in
              subst
                (λ (x : Node).
                  (y : Node) × (new p ≡ some y)
                  × (y.next ≡ x.next)
                  × (node_is_master y ≡ node_is_master x)
                  × (node_is_virtual y ≡ node_is_virtual x)
                  × (y.virtualof ≡ x.virtualof)
                  × (node_is_master x ≡ false → y.virtual_head ≡ x.virtual_head))
                same (mn', ground arith, refl, refl, refl, refl, λ e. cc)
          | inr away ↦ (k, ground arith, refl, refl, refl, refl, λ e. refl)
        ]

    new_node-IsProper : (p : ℕ) → IsProper env v p n
    new_node-IsProper p = record {
      virtuals = ([], (no_virtuals, omega arith), tt);
      parent = λ virtual.
          let (m', at', next', kind, virtual', of', head) = GrowsTo-adopted m mn atm in
          (m, m', of, at');
      speed = λ e. cc;
    }

    master-IsProper : IsProper env v m mn'
    master-IsProper =
        let (vs, c, h, leaves) =
          virtuals-GrowsTo env w v well.tree GrowsTo-adopted (omega arith) m mn n.next atm next in
        record {
          virtuals = (
            w.fresh ∷ vs,
            (
              (refl, n, update_same (update w.nodes m (some mn')) w.fresh (some n), c),
              omega (arith, h),
            ),
            (
              (
                n,
                update_same (update w.nodes m (some mn')) w.fresh (some n),
                leaf,
                is_virtual,
                of,
                no_virtuals,
              ),
              leaves,
            ),
          );
          parent =
              parent-GrowsTo env w v well.tree GrowsTo-adopted (omega arith) m mn mn' atm refl refl;
          speed = well.tree.speed m mn atm;
        }

    IsProper-adopted : (p : ℕ) (k : Node) → new p ≡ some k → IsProper env v p k
    IsProper-adopted p k at = elim (Bool-cases (p == w.fresh)) [
      | inl here ↦
          let same : n ≡ k = ground arith in subst (IsProper env v p) same (new_node-IsProper p)
      | inr away ↦ elim (Bool-cases (p == m)) [
        | inl hit ↦
            let same : mn' ≡ k = ground arith in
            let address : p ≡ m = ground arith in
            subst (IsProper env v p) same
              (subst (λ x. IsProper env v x mn') (sym address) master-IsProper)
        | inr miss ↦
            let old : w.nodes p ≡ some k = ground arith in
            IsProper-old env w v well.tree GrowsTo-adopted (omega arith) p k k old refl refl refl
              (well.tree.speed p k old)
      ]
    ]

    pub IsWell-virtual : IsWell env s v
    IsWell-virtual = record {
      bounded = λ q above. let old = well.bounded q (omega (arith, above)) in ground arith;
      tree =
          let (ms, c, h, kinds) =
            masters-GrowsTo env w v well.tree GrowsTo-adopted (omega arith) w.server.master_head
              refl in
          IsTree-of_IsProper env v (ms, (c, omega (arith, h)), kinds) IsProper-adopted;
      unlinked = λ p k at. elim (Bool-cases (p == w.fresh)) [
        | inl here ↦ let same : k ≡ n = ground arith in ap (λ (x : Node). x.link) same ∙ no_link
        | inr away ↦ elim (Bool-cases (p == m)) [
          | inl hit ↦
              let same : k ≡ mn' = ground arith in
              ap (λ (x : Node). x.link) same ∙ well.unlinked m mn atm
          | inr miss ↦ well.unlinked p k (ground arith)
        ]
      ];
      no_links = well.no_links;
      settings = well.settings;
    }

  -- A node whose lists, kind and link stay as they are.
  module _ (q : ℕ) (n n' : Node) (atq : w.nodes q ≡ some n) (next : n'.next ≡ n.next)
      (head : n'.virtual_head ≡ n.virtual_head) (of : n'.virtualof ≡ n.virtualof)
      (master : node_is_master n' ≡ node_is_master n)
      (virtual : node_is_virtual n' ≡ node_is_virtual n)
      (has : node_is_master n' ≡ true → HasSpeed env n'.baudrate) (link : n'.link ≡ n.link) where
    abbrev changed : World
    changed = record w { nodes = update w.nodes q (some n'); trace = t }

    GrowsTo-changed : GrowsTo w.nodes changed.nodes
    GrowsTo-changed p k at = elim (Bool-cases (p == q)) [
      | inl here ↦
          let same : n ≡ k = ground arith in
          subst
            (λ (x : Node).
              (y : Node) × (changed.nodes p ≡ some y)
              × (y.next ≡ x.next)
              × (node_is_master y ≡ node_is_master x)
              × (node_is_virtual y ≡ node_is_virtual x)
              × (y.virtualof ≡ x.virtualof)
              × (node_is_master x ≡ false → y.virtual_head ≡ x.virtual_head))
            same (n', ground arith, next, master, virtual, of, λ e. head)
      | inr away ↦ (k, ground arith, refl, refl, refl, refl, λ e. refl)
    ]

    IsProper-changed : (p : ℕ) (k : Node) → changed.nodes p ≡ some k → IsProper env changed p k
    IsProper-changed p k at = elim (Bool-cases (p == q)) [
      | inl here ↦
          let same : n' ≡ k = ground arith in
          let address : p ≡ q = ground arith in
          subst (IsProper env changed p) same (
            subst (λ x. IsProper env changed x n') (sym address)
              (IsProper-old env w changed well.tree GrowsTo-changed (omega arith) q n n' atq head of
                virtual has))
      | inr away ↦
          let old : w.nodes p ≡ some k = ground arith in
          IsProper-old env w changed well.tree GrowsTo-changed (omega arith) p k k old refl refl
            refl (well.tree.speed p k old)
    ]

    pub IsWell-change : IsWell env s changed
    IsWell-change = record {
      bounded = λ p above. let old = well.bounded p above in ground arith;
      tree =
          let (ms, c, h, kinds) =
            masters-GrowsTo env w changed well.tree GrowsTo-changed (omega arith)
              w.server.master_head refl in
          IsTree-of_IsProper env changed (ms, (c, h), kinds) IsProper-changed;
      unlinked = λ p k at. elim (Bool-cases (p == q)) [
        | inl here ↦
            let same : k ≡ n' = ground arith in
            ap (λ (x : Node). x.link) same ∙ (link ∙ well.unlinked q n atq)
        | inr away ↦ well.unlinked p k (ground arith)
      ];
      no_links = well.no_links;
      settings = well.settings;
    }
