-- ===== src/Serial/Nodes/Unlink.antt =====
-- Taking nodes off the lists of src/serial.c, and putting virtuals on.
use serial_proxy_c.Prelude.{
  ℕ, zero, suc, ◌≡◌, refl, ◌≢◌, false, Option, none, some, List, [], ◌∷◌, arith, ◌≤◌, if◌then◌else◌,
  length, ap, fun_ext,
}
use serial_proxy_c.Machine.Types.{Node, World}
use serial_proxy_c.Machine.Monad.{done, update}
use serial_proxy_c.Machine.Memory.{load_node-some, change_node-some}
use serial_proxy_c.Machine.Returns.{Returns, returned}
use serial_proxy_c.Serial.Nodes.{
  add_virtual_node, remove_virtual_node, remove_virtual_loop, unlink_virtual, del_node, del_loop,
  unlink_master,
}
use serial_proxy_c.Serial.Nodes.Chain.{
  Nodes, IsChain, is_among, IsChain-update_out, IsChain-keep, KeepsNext-update,
}
use serial_proxy_c.Serial.Nodes.Lists.{IsMasters, IsVirtuals, link_in_front_lem}

-- The master `m` with the virtual `v` in front of its list.
abbrev pub adopted : Nodes → ℕ → Node → ℕ → Node → Nodes
adopted nodes m mn v vn =
    update (update nodes m (some (record mn { virtual_head = some v }))) v
      (some (record vn { next = mn.virtual_head; virtualof = some m }))

module _ (w : World) (m v : ℕ) (mn vn : Node) (atm : w.nodes m ≡ some mn)
    (atv : w.nodes v ≡ some vn) (ne : m ≢ v) where
  pub add_virtual_node_lem :
      vn.next ≡ none
      → add_virtual_node m v w ≡ done tt (record w { nodes = adopted w.nodes m mn v vn })
  unfolding add_virtual_node
  add_virtual_node_lem free =
      let w1 : World = record w {
        nodes = update w.nodes v (some (record vn { next = mn.virtual_head }));
      } in
      let w2 : World = record w1 {
        nodes = update w1.nodes m (some (record mn { virtual_head = some v }));
      } in
      let at1 : w1.nodes m ≡ some mn = ground arith in
      let at2 : w2.nodes v ≡ some (record vn { next = mn.virtual_head }) = ground arith in
      rw
        (
          load_node-some w m atm,
          link_in_front_lem w v vn mn.virtual_head atv free,
          change_node-some w1 m (λ n. record n { virtual_head = some v }) at1,
          change_node-some w2 v (λ n. record n { virtualof = some m }) at2,
        )
        (ap (λ (h : Nodes). done tt (record w { nodes = h })) (fun_ext λ q. ground arith))

  unlink_virtual_lem :
      unlink_virtual m v none w
      ≡ done tt (record w {
        nodes =
            update
              (update w.nodes m (some (record mn { virtual_head = none })))
              v
              (some (record vn { next = none }));
      })
  unfolding unlink_virtual
  unlink_virtual_lem =
      let w1 : World = record w {
        nodes = update w.nodes m (some (record mn { virtual_head = none }));
      } in
      let at1 : w1.nodes v ≡ some vn = ground arith in
      rw (
        change_node-some w m (λ n. record n { virtual_head = none }) atm,
        change_node-some w1 v (λ n. record n { next = none }) at1,
      )

-- serialAddVirtualNode puts a virtual that is on no list, and whose `next` is NULL, in front of the
-- virtuals of another node, and makes that node its master. It writes nothing else.
pub add_virtual_node-cons :
    (w : World) (m v : ℕ) (mn vn : Node) (vs : List ℕ)
    → w.nodes m ≡ some mn
    → w.nodes v ≡ some vn
    → vn.next ≡ none
    → m ≢ v
    → is_among v vs ≡ false
    → IsChain w.nodes mn.virtual_head vs
    → Returns
        (λ r w'.
          IsChain w'.nodes (some v) (v ∷ vs)
          × (w' ≡ record w { nodes = adopted w.nodes m mn v vn }))
        (add_virtual_node m v w)
add_virtual_node-cons w m v mn vn vs atm atv free ne out c =
    let mn' = record mn { virtual_head = some v } in
    let vn' = record vn { next = mn.virtual_head; virtualof = some m } in
    let kept =
      IsChain-keep w.nodes _ mn.virtual_head vs (KeepsNext-update w.nodes m mn mn' atm refl) c in
    rw (add_virtual_node_lem w m v mn vn atm atv ne free) (
      returned (
        (refl, vn', ground arith, IsChain-update_out _ mn.virtual_head vs v (some vn') out kept),
        refl,
      ))

-- The search of serialRemoveVirtualNode: `prev` is still NULL where the node is found.
remove_virtual_loop_lem :
    (fuel : ℕ) (w : World) (m v : ℕ) (head : Option ℕ) (ps : List ℕ)
    → IsChain w.nodes head ps
    → length ps ≤ fuel
    → remove_virtual_loop fuel m v none head w
      ≡ (if is_among v ps then unlink_virtual m v none w else done tt w)
unfolding remove_virtual_loop
remove_virtual_loop_lem fuel w m v none [] c h = refl
remove_virtual_loop_lem fuel w m v (some q) [] c h = cc
remove_virtual_loop_lem fuel w m v none (p ∷ ps) (e, n, at, c) h = cc
remove_virtual_loop_lem zero w m v (some q) (p ∷ ps) c h = absurd (omega arith)
remove_virtual_loop_lem (suc fuel) w m v (some q) (p ∷ ps) (e, n, at, c) h =
    ground (arith, remove_virtual_loop_lem fuel w m v n.next ps c)

-- Removing any virtual on a master's list empties the whole list, so that the other virtuals are no
-- longer reached from the master; a node that is not on the list changes nothing.
pub remove_virtual_node-empties :
    (w : World) (m v : ℕ) (mn vn : Node) (vs : List ℕ)
    → w.nodes m ≡ some mn
    → w.nodes v ≡ some vn
    → m ≢ v
    → IsVirtuals w mn vs
    → remove_virtual_node m v w ≡ (
        if is_among v vs
        then done tt (record w {
          nodes =
              update
                (update w.nodes m (some (record mn { virtual_head = none })))
                v
                (some (record vn { next = none }));
        })
        else done tt w)
unfolding remove_virtual_node
remove_virtual_node-empties w m v mn vn vs atm atv ne is = rw (
  load_node-some w m atm,
  remove_virtual_loop_lem w.fresh w m v mn.virtual_head vs is.0 is.1,
  unlink_virtual_lem w m v mn vn atm atv ne,
)

del_loop_lem :
    (fuel : ℕ) (w : World) (p : ℕ) (head : Option ℕ) (ps : List ℕ)
    → IsChain w.nodes head ps
    → length ps ≤ fuel
    → del_loop fuel p none head w ≡ (if is_among p ps then unlink_master p none w else done tt w)
unfolding del_loop
del_loop_lem fuel w p none [] c h = refl
del_loop_lem fuel w p (some q) [] c h = cc
del_loop_lem fuel w p none (x ∷ ps) (e, n, at, c) h = cc
del_loop_lem zero w p (some q) (x ∷ ps) c h = absurd (omega arith)
del_loop_lem (suc fuel) w p (some q) (x ∷ ps) (e, n, at, c) h =
    ground (arith, del_loop_lem fuel w p n.next ps c)

-- Deleting any listed master empties the list of masters; a node that is not listed changes nothing.
pub del_node-empties :
    (w : World) (p : ℕ) (n : Node) (ms : List ℕ)
    → w.nodes p ≡ some n
    → IsMasters w ms
    → del_node p w ≡ (
        if is_among p ms
        then done tt (record w {
          server = record w.server { master_head = none };
          nodes = update w.nodes p (some (record n { next = none }));
        })
        else done tt w)
unfolding del_node unlink_master
del_node-empties w p n ms at is =
    let w1 : World = record w { server = record w.server { master_head = none } } in
    rw (
      del_loop_lem w.fresh w p w.server.master_head ms is.0 is.1,
      change_node-some w1 p (λ v. record v { next = none }) at,
    )
