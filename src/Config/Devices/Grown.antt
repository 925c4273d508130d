-- ===== src/Config/Devices/Grown.antt =====
-- New nodes in the lists of devices, against the list of devices that the nodes stand for.
use serial_proxy_c.Prelude.{
  ℕ, suc, ◌≡◌, refl, ◌∙◌, ap, ◌<◌, true, some, none, List, [], ◌∷◌, arith, length, take_all,
  Option-cases, inl, inr,
}
use serial_proxy_c.Prelude.Text.{Text, text_eq, text_eq_refl}
use serial_proxy_c.Prelude.Int.{pos}
use serial_proxy_c.Machine.Types.{Node, Server, Call, Env, World}
use serial_proxy_c.Machine.Monad.{update}
use serial_proxy_c.Machine.Memory.{update_same, update-update}
use serial_proxy_c.Machine.Returns.{Returns, returned}
use serial_proxy_c.Serial.Nodes.{new_node, add_node, flag_master, path_max, has_name}
use serial_proxy_c.Serial.Nodes.Chain.{Nodes, first_with}
use serial_proxy_c.Serial.Nodes.Distinct.{IsChain-Agree, Agree-fresh}
use serial_proxy_c.Serial.Nodes.Match.{Matches-imp, first_with-none, first_with-any}
use serial_proxy_c.Serial.Nodes.Lists.{link_in_front_lem, get_node-first_with}
use serial_proxy_c.Config.Devices.{create_master, section_node}
use serial_proxy_c.Config.Devices.Abstract.{Device, is_device, with_device}
use serial_proxy_c.Config.Devices.Shows.{
  IsDeviceAt, Shows, ShowsAt, IsDeviceAt-Agree, device_name, bound_of,
}
use serial_proxy_c.Config.Devices.Build.{create_node_lem}
use serial_proxy_c.Config.Devices.Heap.{IsWell}

first_found :
    (name : Text) (nodes : Nodes) (n : Node) (p : ℕ) (ps : List ℕ)
    → nodes p ≡ some n
    → n.name ≡ name
    → first_with (has_name name) nodes (p ∷ ps) ≡ some p
unfolding first_with
first_found name nodes n p ps at named =
    let test : has_name name n ≡ true = ap (λ x. text_eq name x) named ∙ text_eq_refl name in
    ground arith

module _ (env : Env) (s : Server)
    (memory : (h : List Call) → env.succeeds h Call.calloc ≡ true) where
  create_master-ShowsAt :
      (section : Text) (ds : List Device) (w : World)
      → length section < path_max
      → IsWell env s w
      → Shows ds w
      → Returns
          (λ p.
            ShowsAt section p (record { name = section; baudrate = pos 9600; virtuals = [] } ∷ ds))
          (create_master env section w)
  unfolding create_master add_node
  create_master-ShowsAt section ds w short well (ms, c, m) =
      let n = new_node section flag_master in
      let w1 : World = record w {
        nodes = update w.nodes w.fresh (some n);
        fresh = suc w.fresh;
        trace = Call.calloc ∷ w.trace;
      } in
      let n' : Node = record n { next = w.server.master_head } in
      let new : Nodes = update w.nodes w.fresh (some n') in
      let named : n'.name ≡ section = take_all 4095 section (omega arith) in
      let free : w.nodes w.fresh ≡ none = well.bounded w.fresh (omega arith) in
      let found : first_with (has_name section) new (w.fresh ∷ ms) ≡ some w.fresh =
        first_found section new n' w.fresh ms (update_same w.nodes w.fresh (some n')) named in
      rw
        (
          create_node_lem env section flag_master w (memory w.trace),
          link_in_front_lem w1 w.fresh n w.server.master_head (update_same w.nodes w.fresh (some n))
              refl,
          update-update w.nodes w.fresh (some n) (some n'),
        )
        (returned (
          w.fresh ∷ ms,
          (
            refl,
            n',
            update_same w.nodes w.fresh (some n'),
            IsChain-Agree w.nodes new w.server.master_head ms
                (Agree-fresh w.nodes w.server.master_head ms w.fresh (some n') free c) c,
          ),
          found,
          (
            (n', update_same w.nodes w.fresh (some n'), named, refl, [], refl, tt),
            Matches-imp ms ds
                (λ q d on.
                  IsDeviceAt-Agree w.nodes new q d
                    (Agree-fresh w.nodes w.server.master_head ms w.fresh (some n') free c q on)
                    λ k vs at c'. Agree-fresh w.nodes k.virtual_head vs w.fresh (some n') free c')
                m,
          ),
        ))

  pub section_node-ShowsAt :
      (section : Text) (ds : List Device) (w : World)
      → length section < path_max
      → IsWell env s w
      → Shows ds w
      → Returns (λ p. ShowsAt section p (with_device section ds)) (section_node env section w)
  unfolding section_node
  section_node-ShowsAt section ds w short well (ms, c, m) =
      rw (get_node-first_with w section ms (c, bound_of env w well.tree ms c))
        (elim (Option-cases (first_with (has_name section) w.nodes ms)) [
          | inl e ↦
              let unnamed =
                first_with-none w.nodes (has_name section) (is_device section) (IsDeviceAt w.nodes)
                  (device_name section w.nodes) ms ds m e in
              rw (e, unnamed) (create_master-ShowsAt section ds w short well (ms, c, m))
          | inr (p, e) ↦
              let (named, on) =
                first_with-any w.nodes (has_name section) (is_device section) (IsDeviceAt w.nodes)
                  (device_name section w.nodes) ms ds p m e in
              rw (e, named) (returned (ms, c, e, m))
        ])
