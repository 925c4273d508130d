-- ===== src/Config/Devices/Shows.antt =====
-- When the lists of nodes in memory stand for a list of devices.
use serial_proxy_c.Prelude.{
  some-inj, ℕ, ◌≡◌, ◌≢◌, refl, ◌∙◌, ap, sym, subst, ◌==◌, false, Option, some, List, [], ◌∷◌, arith,
  ◌≤◌, length, All, Bool-cases, inl, inr, Matches, change_first,
}
use serial_proxy_c.Prelude.Text.{Text, text_eq}
use serial_proxy_c.Machine.Types.{Node, Env, World}
use serial_proxy_c.Serial.Nodes.{node_is_virtual, node_is_writer, has_name}
use serial_proxy_c.Serial.Nodes.Chain.{Nodes, IsChain, IsChain-keep, first_with}
use serial_proxy_c.Serial.Nodes.Distinct.{IsChain-unique, Agree, IsChain-Agree, All-is_among}
use serial_proxy_c.Serial.Nodes.Match.{Matches-imp, change_first-Matches, first_with-any}
use serial_proxy_c.Serial.Nodes.Tree.{IsTree, IsRoot, IsLeaf}
use serial_proxy_c.Config.Devices.Abstract.{Virtual, Device, is_device, is_virtual}

-- The node at `v` is the virtual `x`.
abbrev pub IsVirtualAt : Nodes → ℕ → Virtual → Type 0
IsVirtualAt nodes v x =
    (n : Node) × (nodes v ≡ some n) × (n.name ≡ x.name) × (node_is_writer n ≡ x.is_writer)

-- The node at `p` is the device `d`, with its virtuals in order.
abbrev pub IsDeviceAt : Nodes → ℕ → Device → Type 0
IsDeviceAt nodes p d =
    (n : Node) × (nodes p ≡ some n)
    × (n.name ≡ d.name)
    × (n.baudrate ≡ d.baudrate)
    × (vs : List ℕ) × IsChain nodes n.virtual_head vs
    × Matches (IsVirtualAt nodes) vs d.virtuals

-- The masters are the devices in order.
abbrev pub Shows : List Device → World → Type 0
Shows ds w =
    (ms : List ℕ) × IsChain w.nodes w.server.master_head ms × Matches (IsDeviceAt w.nodes) ms ds

-- A device whose node and virtuals stay is still there.
pub IsDeviceAt-Agree :
    (old new : Nodes) (q : ℕ) (d : Device)
    → new q ≡ old q
    → ((n : Node) (vs : List ℕ) → old q ≡ some n → IsChain old n.virtual_head vs → Agree old new vs)
    → IsDeviceAt old q d
    → IsDeviceAt new q d
IsDeviceAt-Agree old new q d same agree (n, at, name, baudrate, vs, c, m) =
    let kept = agree n vs at c in
    (
      n,
      same ∙ at,
      name,
      baudrate,
      vs,
      IsChain-Agree old new n.virtual_head vs kept c,
      Matches-imp vs d.virtuals
          (λ v x on (k, at', name', writer). (k, kept v on ∙ at', name', writer)) m,
    )

-- A device, where its node and the list of its virtuals are known.
pub device_parts :
    (nodes : Nodes) (p : ℕ) (n : Node) (vs : List ℕ) (d : Device)
    → nodes p ≡ some n
    → IsChain nodes n.virtual_head vs
    → IsDeviceAt nodes p d
    → (n.name ≡ d.name) × (n.baudrate ≡ d.baudrate) × Matches (IsVirtualAt nodes) vs d.virtuals
device_parts nodes p n vs d at c (m, at', name, baudrate, us, c', ports) =
    let same : m ≡ n = some-inj (sym at' ∙ at) in
    let lists : us ≡ vs =
      IsChain-unique nodes n.virtual_head us vs
        (subst (λ (x : Node). IsChain nodes x.virtual_head us) same c') c in
    (
      ap (λ (x : Node). x.name) (sym same) ∙ name,
      ap (λ (x : Node). x.baudrate) (sym same) ∙ baudrate,
      subst (λ xs. Matches (IsVirtualAt nodes) xs d.virtuals) lists ports,
    )

-- Every node but `p` and its virtuals stays.
abbrev pub Spares : Nodes → Nodes → ℕ → Type 0
Spares old new p =
    (x : ℕ) (n : Node) → old x ≡ some n → (x == p) ≡ false → n.virtualof ≢ some p → new x ≡ old x

-- Every node stays on its list under its name.
abbrev pub KeepsNames : Nodes → Nodes → Type 0
KeepsNames old new =
    (q : ℕ) (n : Node)
    → old q ≡ some n
    → (m : Node) × (new q ≡ some m) × (m.next ≡ n.next) × (m.name ≡ n.name)

first_with-keep :
    (name : Text) (old new : Nodes) (head : Option ℕ) (ps : List ℕ)
    → KeepsNames old new
    → IsChain old head ps
    → first_with (has_name name) new ps ≡ first_with (has_name name) old ps
unfolding first_with
first_with-keep name old new head [] keeps c = refl
first_with-keep name old new head (p ∷ ps) keeps (e, n, at, c) =
    let (m, at', next, same) = keeps p n at in
    let test : has_name name m ≡ has_name name n = ap (λ x. text_eq name x) same in
    let rest = first_with-keep name old new n.next ps keeps c in ground arith

-- As `Shows`, and the first device of the name is at `p`.
abbrev pub ShowsAt : Text → ℕ → List Device → World → Type 0
ShowsAt name p ds w =
    (ms : List ℕ) × IsChain w.nodes w.server.master_head ms
    × (first_with (has_name name) w.nodes ms ≡ some p)
    × Matches (IsDeviceAt w.nodes) ms ds

pub device_name :
    (name : Text) (nodes : Nodes) (q : ℕ) (d : Device)
    → IsDeviceAt nodes q d
    → (n : Node) × (nodes q ≡ some n) × (has_name name n ≡ is_device name d)
device_name name nodes q d (n, at, same, baudrate, vs, c, m) =
    (n, at, ap (λ x. text_eq name x) same)

pub virtual_name_at :
    (name : Text) (nodes : Nodes) (v : ℕ) (x : Virtual)
    → IsVirtualAt nodes v x
    → (n : Node) × (nodes v ≡ some n) × (has_name name n ≡ is_virtual name x)
virtual_name_at name nodes v x (n, at, same, writer) = (n, at, ap (λ y. text_eq name y) same)

module _ (env : Env) (w : World) (tree : IsTree env w) where
  pub roots_of : (ms : List ℕ) → IsChain w.nodes w.server.master_head ms → All (IsRoot w.nodes) ms
  roots_of ms c =
      let (ms', (c', h), roots) = tree.masters in
      subst (All (IsRoot w.nodes)) (IsChain-unique w.nodes w.server.master_head ms' ms c' c) roots

  pub leaves_of :
      (p : ℕ) (n : Node) (vs : List ℕ)
      → w.nodes p ≡ some n
      → IsChain w.nodes n.virtual_head vs
      → All (IsLeaf w.nodes p) vs
  leaves_of p n vs at c =
      let (vs', (c', h), leaves) = tree.virtuals p n at in
      subst (All (IsLeaf w.nodes p)) (IsChain-unique w.nodes n.virtual_head vs' vs c' c) leaves

  pub bound_of : (ms : List ℕ) → IsChain w.nodes w.server.master_head ms → length ms ≤ w.fresh
  bound_of ms c =
      let (ms', (c', h), roots) = tree.masters in
      subst (λ ps. length ps ≤ w.fresh) (IsChain-unique w.nodes w.server.master_head ms' ms c' c) h

  pub IsRoot-of_ShowsAt :
      (name : Text) (p : ℕ) (ds : List Device) → ShowsAt name p ds w → IsRoot w.nodes p
  IsRoot-of_ShowsAt name p ds (ms, c, found, m) =
      let (any_device, on) =
        first_with-any w.nodes (has_name name) (is_device name) (IsDeviceAt w.nodes)
          (device_name name w.nodes) ms ds p m found in
      All-is_among (IsRoot w.nodes) ms p (roots_of ms c) on

  -- A virtual is no master.
  pub root_no_leaf : (p q x : ℕ) → IsRoot w.nodes p → IsLeaf w.nodes q x → (x == p) ≡ false
  root_no_leaf p q x (n, at, master, real, free) (k, at', other, virtual, of, childless) =
      elim (Bool-cases (x == p)) [
        | inl here ↦
            let address : x ≡ p = ground arith in
            let same : k ≡ n = some-inj (sym at' ∙ ap w.nodes address ∙ at) in
            let clash = sym virtual ∙ ap node_is_virtual same ∙ real in cc
        | inr away ↦ away
      ]

  -- The other devices stay.
  others_stay :
      (new : Nodes) (p q : ℕ) (d : Device)
      → Spares w.nodes new p
      → IsRoot w.nodes p
      → IsRoot w.nodes q
      → (q == p) ≡ false
      → IsDeviceAt w.nodes q d
      → IsDeviceAt new q d
  others_stay new p q d spares root (k, at, master, real, free) away =
      IsDeviceAt-Agree w.nodes new q d (spares q k at away (λ e. let clash = sym free ∙ e in cc))
        λ n vs at' c x on.
          let leaf = All-is_among (IsLeaf w.nodes q) vs x (leaves_of q n vs at' c) on in
          let (j, at_x, other, virtual, of, childless) = leaf in
          spares x j at_x (root_no_leaf p q x root leaf)
            λ e. let same : q ≡ p = some-inj (sym of ∙ e) in absurd (ground arith)

  -- A step that changes one device, and spares the others, is a change of the first device of its name.
  pub ShowsAt-change :
      (name : Text) (p : ℕ) (ds : List Device) (f : Device → Device) (v : World)
      → v.server.master_head ≡ w.server.master_head
      → KeepsNames w.nodes v.nodes
      → Spares w.nodes v.nodes p
      → ((d : Device) → IsDeviceAt w.nodes p d → IsDeviceAt v.nodes p (f d))
      → ShowsAt name p ds w
      → ShowsAt name p (change_first (is_device name) f ds) v
  ShowsAt-change name p ds f v head keeps spares here (ms, c, found, m) =
      let roots = roots_of ms c in
      let root = IsRoot-of_ShowsAt name p ds (ms, c, found, m) in
      (
        ms,
        subst (λ o. IsChain v.nodes o ms) (sym head)
            (IsChain-keep w.nodes v.nodes w.server.master_head ms
              (λ q n at. let (k, at', next, same) = keeps q n at in (k, at', next)) c),
        first_with-keep name w.nodes v.nodes w.server.master_head ms keeps c ∙ found,
        change_first-Matches w.nodes (has_name name) (is_device name) (IsDeviceAt w.nodes)
            (device_name name w.nodes) (IsDeviceAt v.nodes) f w.server.master_head ms ds p c m found
            here
            λ q d on' away.
              others_stay v.nodes p q d spares root (All-is_among (IsRoot w.nodes) ms q roots on')
                away,
      )
