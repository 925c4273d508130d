-- ===== src/Serial/Nodes/Free.antt =====
-- serialFreeNode on nodes without virtuals.
use serial_proxy_c.Prelude.{
  ℕ, ◌≡◌, ◌≢◌, refl, ap, true, false, Option, none, some, List, [], ◌∷◌, ◌==◌, arith,
}
use serial_proxy_c.Machine.Types.{Node, Call, World}
use serial_proxy_c.Machine.Monad.{done, update}
use serial_proxy_c.Machine.Memory.{
  load_node-some, change_node-some, update_same, when-true, when-false,
}
use serial_proxy_c.Serial.Nodes.{node_is_virtual, free_node, orphan_loop, leave_master}
use serial_proxy_c.Serial.Nodes.Chain.{Nodes}
use serial_proxy_c.Serial.Nodes.Lists.{IsVirtuals}
use serial_proxy_c.Serial.Nodes.Unlink.{remove_virtual_node-empties}

-- The node `p` as it stands is written once more, and given back.
abbrev given_back : Nodes → ℕ → Node → Nodes
given_back nodes p n = update (update nodes p (some (record n { virtual_head = none }))) p none

orphan_loop-none :
    (fuel : ℕ) (w : World) (head : Option ℕ) → head ≡ none → orphan_loop fuel head w ≡ done tt w
unfolding orphan_loop
orphan_loop-none fuel w none e = refl
orphan_loop-none fuel w (some q) e = cc

leave_master-some :
    (master : Option ℕ) (m p : ℕ) (w : World)
    → master ≡ some m
    → leave_master master p w ≡ leave_master (some m) p w
leave_master-some master m p w e = ap (λ o. leave_master o p w) e

module _ (w : World) (p : ℕ) (n : Node) (at : w.nodes p ≡ some n)
    (childless : n.virtual_head ≡ none) where
  pub free_node-root :
      node_is_virtual n ≡ false
      → free_node p w ≡ done tt (record w { nodes = given_back w.nodes p n })
  unfolding free_node
  free_node-root real = rw (
    load_node-some w p at,
    orphan_loop-none w.fresh w n.virtual_head childless,
    load_node-some w p at,
    when-false (node_is_virtual n) _ w real,
    change_node-some w p (λ (x : Node). record x { virtual_head = none }) at,
  )

  module _ (m : ℕ) (mn : Node) (atm : w.nodes m ≡ some mn) (ne : m ≢ p)
      (virtual : node_is_virtual n ≡ true) (of : n.virtualof ≡ some m) where
    abbrev noted : World
    noted = record w { trace = Call.remove n.name ∷ w.trace }

    -- The master forgets all its virtuals with the first.
    pub free_node-first :
        (vs : List ℕ)
        → IsVirtuals w mn (p ∷ vs)
        → free_node p w
          ≡ done tt (record noted {
            nodes =
                given_back
                  (update
                    (update w.nodes m (some (record mn { virtual_head = none })))
                    p
                    (some (record n { next = none })))
                  p
                  (record n { next = none });
          })
    unfolding free_node leave_master
    free_node-first vs is =
        let n1 : Node = record n { next = none } in
        let w1 : World = record noted {
          nodes = update (update w.nodes m (some (record mn { virtual_head = none }))) p (some n1);
        } in
        let reflexive : (p == p) ≡ true = ground arith in
        rw (
          load_node-some w p at,
          orphan_loop-none w.fresh w n.virtual_head childless,
          load_node-some w p at,
          when-true (node_is_virtual n) _ w virtual,
          leave_master-some n.virtualof m p noted of,
          remove_virtual_node-empties noted m p mn n (p ∷ vs) atm at ne is,
          reflexive,
          change_node-some w1 p (λ (x : Node). record x { virtual_head = none })
              (update_same (update w.nodes m (some (record mn { virtual_head = none }))) p
                (some n1)),
        )

    -- Where it has forgotten them, it stays as it is.
    pub free_node-later :
        mn.virtual_head ≡ none
        → free_node p w ≡ done tt (record noted { nodes = given_back w.nodes p n })
    unfolding free_node leave_master
    free_node-later forgotten = rw (
      load_node-some w p at,
      orphan_loop-none w.fresh w n.virtual_head childless,
      load_node-some w p at,
      when-true (node_is_virtual n) _ w virtual,
      leave_master-some n.virtualof m p noted of,
      remove_virtual_node-empties noted m p mn n [] atm at ne (forgotten, omega arith),
      change_node-some noted p (λ (x : Node). record x { virtual_head = none }) at,
    )
