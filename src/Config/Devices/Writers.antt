-- ===== src/Config/Devices/Writers.antt =====
-- A virtual of one device becomes a writer, against the list of devices that the nodes stand for.
use serial_proxy_c.Prelude.{
  ℕ, ◌≡◌, refl, ◌∙◌, ap, sym, ◌==◌, true, false, some, List, arith, Bool-cases, Option-cases, inl,
  inr, change_first, some-inj,
}
use serial_proxy_c.Prelude.Flags.{add_flag, has_flag}
use serial_proxy_c.Prelude.Text.{Text}
use serial_proxy_c.Machine.Types.{Node, Server, Env, World}
use serial_proxy_c.Machine.Monad.{update}
use serial_proxy_c.Machine.Memory.{change_node-some, update_same}
use serial_proxy_c.Machine.Returns.{Returns, returned}
use serial_proxy_c.Serial.Nodes.{flag_writer, has_name}
use serial_proxy_c.Serial.Nodes.Chain.{IsChain, IsChain-keep, KeepsNext-update, first_with}
use serial_proxy_c.Serial.Nodes.Match.{first_with-none, change_first-Matches, change_first-none}
use serial_proxy_c.Serial.Nodes.Grow.{first_with-All}
use serial_proxy_c.Serial.Nodes.Lists.{get_virtual_node-first_with}
use serial_proxy_c.Serial.Nodes.Tree.{IsLeaf}
use serial_proxy_c.Config.Devices.{mark_writer}
use serial_proxy_c.Config.Devices.Abstract.{Virtual, Device, is_device, is_virtual, with_writer}
use serial_proxy_c.Config.Devices.Shows.{
  device_parts, IsVirtualAt, ShowsAt, ShowsAt-change, IsRoot-of_ShowsAt, root_no_leaf,
  virtual_name_at,
}
use serial_proxy_c.Config.Devices.Changed.{KeepsNames-update}
use serial_proxy_c.Config.Devices.Heap.{IsWell}

writer-added : (flags : ℕ) → has_flag (add_flag flags flag_writer) flag_writer ≡ true
writer-added flags = ground arith

module _ (env : Env) (s : Server) (section : Text) (p : ℕ) (w : World) (well : IsWell env s w) where
  ShowsAt-marked :
      (name : Text) (ds : List Device) (m : Node) (vs : List ℕ) (v : ℕ) (j : Node)
      → w.nodes p ≡ some m
      → IsChain w.nodes m.virtual_head vs
      → first_with (has_name name) w.nodes vs ≡ some v
      → w.nodes v ≡ some j
      → j.virtualof ≡ some p
      → (v == p) ≡ false
      → ShowsAt section p ds w
      → ShowsAt section p (change_first (is_device section) (with_writer name) ds) (record w {
        nodes = update w.nodes v (some (record j { flags = add_flag j.flags flag_writer }));
      })
  ShowsAt-marked name ds m vs v j at c e live of away =
      let j' : Node = record j { flags = add_flag j.flags flag_writer } in
      let u : World = record w { nodes = update w.nodes v (some j') } in
      let away' : (p == v) ≡ false = ground arith in
      ShowsAt-change env w well.tree section p ds (with_writer name) u refl
        (KeepsNames-update w.nodes v j j' live refl refl)
        (λ x k at_x far other. elim (Bool-cases (x == v)) [
          | inl here ↦
              let address : x ≡ v = ground arith in
              let same : k ≡ j = some-inj (sym at_x ∙ ap w.nodes address ∙ live) in
              absurd (other (ap (λ (y : Node). y.virtualof) same ∙ of))
          | inr elsewhere ↦ rw elsewhere
        ])
        λ d shown_d.
          let (named, baudrate, ports) = device_parts w.nodes p m vs d at c shown_d in
          (
            m,
            rw away' at,
            named,
            baudrate,
            vs,
            IsChain-keep w.nodes u.nodes m.virtual_head vs
                (KeepsNext-update w.nodes v j j' live refl) c,
            change_first-Matches w.nodes (has_name name) (is_virtual name) (IsVirtualAt w.nodes)
                (virtual_name_at name w.nodes) (IsVirtualAt u.nodes)
                (λ (x : Virtual). record x { is_writer = true }) m.virtual_head vs d.virtuals v c
                ports e
                (λ x (k, at_v, name', writer).
                  let same : k ≡ j = some-inj (sym at_v ∙ live) in
                  (
                    j',
                    update_same w.nodes v (some j'),
                    ap (λ (y : Node). y.name) (sym same) ∙ name',
                    writer-added j.flags,
                  ))
                λ q x on away (k, at_q, name', writer). (k, rw away at_q, name', writer),
          )

  pub mark_writer-ShowsAt :
      (name : Text) (ds : List Device)
      → ShowsAt section p ds w
      → Returns
          (λ r. ShowsAt section p (change_first (is_device section) (with_writer name) ds))
          (mark_writer p (some name) w)
  unfolding mark_writer
  mark_writer-ShowsAt name ds shown =
      let (m, at, master, real, free) = IsRoot-of_ShowsAt env w well.tree section p ds shown in
      let (vs, is, leaves) = well.tree.virtuals p m at in
      rw (get_virtual_node-first_with w p m vs at is name)
        (elim (Option-cases (first_with (has_name name) w.nodes vs)) [
          | inl e ↦ rw e (
              returned (
                ShowsAt-change env w well.tree section p ds (with_writer name) w refl
                  (λ q k live. (k, live, refl, refl)) (λ x k live far other. refl)
                  (λ d shown_d.
                    let (named, baudrate, ports) = device_parts w.nodes p m vs d at is.0 shown_d in
                    let none_such =
                      first_with-none w.nodes (has_name name) (is_virtual name)
                        (IsVirtualAt w.nodes) (virtual_name_at name w.nodes) vs d.virtuals ports
                        e in
                    rw
                      (change_first-none (is_virtual name)
                        (λ (x : Virtual). record x { is_writer = true }) d.virtuals none_such)
                      shown_d)
                  shown))
          | inr (v, e) ↦
              let leaf = first_with-All (IsLeaf w.nodes p) (has_name name) w.nodes vs v e leaves in
              let (j, live, other, virtual, of, childless) = leaf in
              rw
                (
                  e,
                  change_node-some w v
                      (λ (k : Node). record k { flags = add_flag k.flags flag_writer }) live,
                )
                (returned (
                  ShowsAt-marked name ds m vs v j at is.0 e live of
                    (root_no_leaf env w well.tree p p v (m, at, master, real, free) leaf) shown))
        ])
