-- ===== src/Config/Devices/Found.antt =====
-- serialGetNode after serialLoadConfig: which sections have a node, and its baud rate.
use serial_proxy_c.Prelude.{
  ℕ, ◌≡◌, refl, ◌∙◌, ap, sym, subst, inl, inr, true, false, Option, none, some, List, [], ◌∷◌,
  arith, All, Bool-cases, Matches,
}
use serial_proxy_c.Prelude.Int.{ℤ, pos}
use serial_proxy_c.Prelude.Text.{Text, text_eq, eq_of_text_eq}
use serial_proxy_c.Machine.Types.{Node, Server, Call, Entry, Env, World}
use serial_proxy_c.Machine.Monad.{done}
use serial_proxy_c.Machine.Returns.{Returns, Returns-weaken}
use serial_proxy_c.Serial.Device.Configure.{HasSpeed}
use serial_proxy_c.Serial.Nodes.{get_node, has_name}
use serial_proxy_c.Serial.Nodes.Chain.{Nodes, first_with}
use serial_proxy_c.Serial.Nodes.Lists.{get_node-first_with}
use serial_proxy_c.Config.Settings.Load.{HasMemory}
use serial_proxy_c.Config.Devices.{serial_load_config}
use serial_proxy_c.Config.Devices.Abstract.{Device, is_device, devices_of}
use serial_proxy_c.Config.Devices.Heap.{IsWell}
use serial_proxy_c.Config.Devices.Shows.{IsDeviceAt, bound_of}
use serial_proxy_c.Config.Devices.Refine.{IsSoundEntry, serial_load_config-Shows}
use serial_proxy_c.Config.Devices.Lookup.{rate_in, rate_said, devices_of-rate}

-- What serialGetNode answers: NULL, or a node of the name with the baud rate.
abbrev pub Finds : Text → World → Option ℤ → Type 0
Finds name v none = get_node name v ≡ done none v
Finds name v (some z) =
    (p : ℕ) × (n : Node) × (get_node name v ≡ done (some p) v)
    × (v.nodes p ≡ some n)
    × (n.name ≡ name)
    × (n.baudrate ≡ z)

abbrev FirstHas : Text → Nodes → Option ℕ → Option ℤ → Type 0
FirstHas name nodes o none = o ≡ none
FirstHas name nodes o (some z) =
    (p : ℕ) × (n : Node) × (o ≡ some p) × (nodes p ≡ some n) × (n.name ≡ name) × (n.baudrate ≡ z)

first_with-rate :
    (name : Text) (nodes : Nodes) (ms : List ℕ) (ds : List Device)
    → Matches (IsDeviceAt nodes) ms ds
    → FirstHas name nodes (first_with (has_name name) nodes ms) (rate_in name ds)
unfolding first_with
first_with-rate name nodes [] [] m = refl
first_with-rate name nodes [] (d ∷ ds) m = absurd m
first_with-rate name nodes (p ∷ ms) [] m = absurd m
first_with-rate name nodes (p ∷ ms) (d ∷ ds) ((n, at, named, baudrate, vs, c, ports), rest) =
    let same : has_name name n ≡ is_device name d = ap (λ x. text_eq name x) named in
    elim (Bool-cases (is_device name d)) [
      | inl hit ↦
          let hit' : has_name name n ≡ true = same ∙ hit in
          let found : first_with (has_name name) nodes (p ∷ ms) ≡ some p = ground arith in
          rw hit ((p, n, found, at, sym (eq_of_text_eq name n.name hit'), baudrate))
      | inr miss ↦
          let miss' : has_name name n ≡ false = same ∙ miss in
          let later : first_with (has_name name) nodes (p ∷ ms)
              ≡ first_with (has_name name) nodes ms =
            ground arith in
          rw miss (
            subst (λ o. FirstHas name nodes o (rate_in name ds)) (sym later)
              (first_with-rate name nodes ms ds rest))
    ]

Finds-of_FirstHas :
    (name : Text) (v : World) (o : Option ℕ) (z : Option ℤ)
    → get_node name v ≡ done o v
    → FirstHas name v.nodes o z
    → Finds name v z
Finds-of_FirstHas name v o none e has = e ∙ ap (λ x. done x v) has
Finds-of_FirstHas name v o (some z) e (p, n, found, at, named, rate) =
    (p, n, e ∙ ap (λ x. done x v) found, at, named, rate)

module _ (env : Env) (s : Server) (memory : (h : List Call) → env.succeeds h Call.calloc ≡ true)
    (copies : HasMemory env) (default : HasSpeed env (pos 9600)) where
  -- With memory, a file that can be opened, baud rates that fit an `int` and can be set, as the
  -- default one can, and names of sections and virtuals that fit their buffers, serialLoadConfig,
  -- on lists without devices, returns; serialGetNode then answers NULL for a name that no entry has
  -- as its section, and for any other name a node of that name, with the baud rate of the last line
  -- `baudrate` of the section, or with 9600 where there is none.
  pub serial_load_config-get_node :
      (filename : Text) (es : List Entry) (w : World) (name : Text)
      → env.ini_entries filename ≡ some es
      → All (IsSoundEntry env) es
      → IsWell env s w
      → w.server.master_head ≡ none
      → Returns
          (λ r v. Finds name v (rate_said name es none))
          (serial_load_config env (some filename) w)
  serial_load_config-get_node filename es w name opened sound well empty =
      Returns-weaken
        (serial_load_config-Shows env s memory copies default filename es [] w opened sound well
          ([], empty, tt))
        λ r v ((ms, c, m), well').
          Finds-of_FirstHas name v (first_with (has_name name) v.nodes ms) (rate_said name es none)
            (get_node-first_with v name ms (c, bound_of env v well'.tree ms c))
            (subst (FirstHas name v.nodes (first_with (has_name name) v.nodes ms))
              (devices_of-rate name es []) (first_with-rate name v.nodes ms (devices_of es []) m))
