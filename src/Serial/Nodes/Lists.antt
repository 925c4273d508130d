-- ===== src/Serial/Nodes/Lists.antt =====
-- The list operations of src/serial.c against lists of addresses.
use serial_proxy_c.Prelude.{
  ℕ, ◌≡◌, refl, false, Option, none, some, List, ◌∷◌, arith, ◌≤◌, length, ap, fun_ext, All,
}
use serial_proxy_c.Prelude.Text.{Text}
use serial_proxy_c.Machine.Types.{Node, World}
use serial_proxy_c.Machine.Monad.{done, update}
use serial_proxy_c.Machine.Memory.{load_node-some, change_node-some}
use serial_proxy_c.Machine.Returns.{Returns, returned}
use serial_proxy_c.Serial.Nodes.{
  node_is_writer, has_name, get_node, get_virtual_node, get_virtual_writer_node, add_node,
  link_in_front,
}
use serial_proxy_c.Serial.Nodes.Chain.{
  IsChain, is_among, IsChain-update_out, first_with, find_node-first_with,
}

module _ (w : World) where
  -- The list of masters.
  abbrev pub IsMasters : List ℕ → Type 0
  IsMasters ms = IsChain w.nodes w.server.master_head ms × (length ms ≤ w.fresh)

  -- The list of virtuals of the node `n`.
  abbrev pub IsVirtuals : Node → List ℕ → Type 0
  IsVirtuals n vs = IsChain w.nodes n.virtual_head vs × (length vs ≤ w.fresh)

  -- The masters are `ms`, and the virtuals of a master `m` are `vs m`.
  abbrev pub IsForest : List ℕ → (ℕ → List ℕ) → Type 0
  IsForest ms vs =
      IsMasters ms × All (λ m. (n : Node) × (w.nodes m ≡ some n) × IsVirtuals n (vs m)) ms

  pub get_node-first_with :
      (name : Text) (ms : List ℕ)
      → IsMasters ms
      → get_node name w ≡ done (first_with (has_name name) w.nodes ms) w
  unfolding get_node
  get_node-first_with name ms (c, h) =
      find_node-first_with w.fresh (has_name name) w w.server.master_head ms c h

module _ (w : World) (p : ℕ) (n : Node) (vs : List ℕ) (at : w.nodes p ≡ some n)
    (is : IsVirtuals w n vs) where
  pub get_virtual_node-first_with :
      (name : Text) → get_virtual_node p name w ≡ done (first_with (has_name name) w.nodes vs) w
  unfolding get_virtual_node
  get_virtual_node-first_with name =
      rw (load_node-some w p at)
        (find_node-first_with w.fresh (has_name name) w n.virtual_head vs is.0 is.1)

  pub get_virtual_writer_node-first_with :
      get_virtual_writer_node p w ≡ done (first_with node_is_writer w.nodes vs) w
  unfolding get_virtual_writer_node
  get_virtual_writer_node-first_with =
      rw (load_node-some w p at)
        (find_node-first_with w.fresh node_is_writer w n.virtual_head vs is.0 is.1)

-- A node whose `next` is NULL is put in front of the list at `head`.
pub link_in_front_lem :
    (w : World) (p : ℕ) (n : Node) (head : Option ℕ)
    → w.nodes p ≡ some n
    → n.next ≡ none
    → link_in_front p head w
      ≡ done tt (record w { nodes = update w.nodes p (some (record n { next = head })) })
unfolding link_in_front
link_in_front_lem w p n none at free =
    let same : w.nodes ≡ update w.nodes p (some (record n { next = none })) =
      fun_ext λ q. ground arith in
    ap (λ (h : ℕ → Option Node). done tt (record w { nodes = h })) same
link_in_front_lem w p n (some h) at free = change_node-some w p (λ v. record v { next = some h }) at

-- serialAddNode puts a node that is on no list, and whose `next` is NULL, in front of the masters.
-- It writes nothing but that node's `next` and the head of the list.
pub add_node-cons :
    (w : World) (p : ℕ) (n : Node) (ms : List ℕ)
    → w.nodes p ≡ some n
    → n.next ≡ none
    → is_among p ms ≡ false
    → IsChain w.nodes w.server.master_head ms
    → Returns
        (λ r w'.
          IsChain w'.nodes w'.server.master_head (p ∷ ms)
          × (w' ≡ record w {
            server = record w.server { master_head = some p };
            nodes = update w.nodes p (some (record n { next = w.server.master_head }));
          }))
        (add_node p w)
unfolding add_node
add_node-cons w p n ms at free out c =
    let front = record n { next = w.server.master_head } in
    rw (link_in_front_lem w p n w.server.master_head at free) (
      returned (
        (refl, front, ground arith, IsChain-update_out w.nodes w.server.master_head ms p _ out c),
        refl,
      ))
