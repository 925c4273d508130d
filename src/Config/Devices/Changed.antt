-- ===== src/Config/Devices/Changed.antt =====
-- Changes of one device: its baud rate, a new virtual, a writer.
use serial_proxy_c.Prelude.{
  ℕ, ◌≡◌, refl, ◌∙◌, ap, sym, ◌==◌, some, List, arith, Bool-cases, inl, inr, change_first, some-inj,
}
use serial_proxy_c.Prelude.Text.{Text, atoi}
use serial_proxy_c.Machine.Types.{Node, Server, Env, World}
use serial_proxy_c.Machine.Monad.{update}
use serial_proxy_c.Machine.Memory.{change_node-some, update_same}
use serial_proxy_c.Machine.Returns.{Returns, returned}
use serial_proxy_c.Serial.Nodes.Chain.{Nodes}
use serial_proxy_c.Serial.Nodes.Distinct.{Agree, IsChain-Agree, All-is_among}
use serial_proxy_c.Serial.Nodes.Match.{Matches-imp}
use serial_proxy_c.Serial.Nodes.Tree.{IsLeaf}
use serial_proxy_c.Config.Settings.Load.{IsInt, to_int_lem}
use serial_proxy_c.Config.Devices.{set_baudrate}
use serial_proxy_c.Config.Devices.Abstract.{Device, is_device}
use serial_proxy_c.Config.Devices.Shows.{
  device_parts, KeepsNames, ShowsAt, ShowsAt-change, IsRoot-of_ShowsAt, root_no_leaf,
}
use serial_proxy_c.Config.Devices.Heap.{IsWell}

-- One node is written, and keeps its place and name.
pub KeepsNames-update :
    (nodes : Nodes) (p : ℕ) (n n' : Node)
    → nodes p ≡ some n
    → n'.next ≡ n.next
    → n'.name ≡ n.name
    → KeepsNames nodes (update nodes p (some n'))
KeepsNames-update nodes p n n' at next name q m e = elim (Bool-cases (q == p)) [
  | inl here ↦
      let address : q ≡ p = ground arith in
      let same : n ≡ m = some-inj (sym at ∙ ap nodes (sym address) ∙ e) in
      (
        n',
        ground arith,
        next ∙ ap (λ (x : Node). x.next) same,
        name ∙ ap (λ (x : Node). x.name) same,
      )
  | inr away ↦ (m, ground arith, refl, refl)
]

module _ (env : Env) (s : Server) where
  pub set_baudrate-ShowsAt :
      (section : Text) (p : ℕ) (value : Text) (ds : List Device) (w : World)
      → IsInt (atoi value)
      → IsWell env s w
      → ShowsAt section p ds w
      → Returns
          (λ r. ShowsAt section p (
            change_first
              (is_device section)
              (λ (d : Device). record d { baudrate = atoi value })
              ds))
          (set_baudrate p value w)
  unfolding set_baudrate
  set_baudrate-ShowsAt section p value ds w fits well shown =
      let (n, at, master, real, free) = IsRoot-of_ShowsAt env w well.tree section p ds shown in
      let n' : Node = record n { baudrate = atoi value } in
      let v : World = record w { nodes = update w.nodes p (some n') } in
      rw
        (
          to_int_lem (atoi value) w fits,
          change_node-some w p (λ (m : Node). record m { baudrate = atoi value }) at,
        )
        (returned (
          ShowsAt-change env w well.tree section p ds
            (λ (d : Device). record d { baudrate = atoi value }) v refl
            (KeepsNames-update w.nodes p n n' at refl refl) (λ x k live away other. rw away)
            (λ d shown_d.
              let (vs, (c, h), leaves) = well.tree.virtuals p n at in
              let (name, baudrate, ports) = device_parts w.nodes p n vs d at c shown_d in
              let agree : Agree w.nodes v.nodes vs = λ x on.
                let leaf = All-is_among (IsLeaf w.nodes p) vs x leaves on in
                rw (root_no_leaf env w well.tree p p x (n, at, master, real, free) leaf) in
              (
                n',
                update_same w.nodes p (some n'),
                name,
                refl,
                vs,
                IsChain-Agree w.nodes v.nodes n.virtual_head vs agree c,
                Matches-imp vs d.virtuals
                    (λ x y on (k, live, name', writer). (k, agree x on ∙ live, name', writer))
                    ports,
              ))
            shown))
