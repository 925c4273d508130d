-- ===== src/Serial/Nodes.antt =====
-- The lists of nodes of src/serial.c: masters through `server.serial.master_head`, and the virtuals
-- of a master through its `virtual_head`, both linked by `next`.
pub mod Chain
pub mod Lists
pub mod Unlink
pub mod Tree
pub mod Grow
pub mod Distinct
pub mod Match
pub mod Free
use serial_proxy_c.Prelude.{
  ℕ, zero, suc, Bool, Option, none, some, ◌++◌, ltb, if◌then◌else◌, same_ptr, is_some, length, take,
}
use serial_proxy_c.Prelude.Int.{pos}
use serial_proxy_c.Prelude.Flags.{has_flag}
use serial_proxy_c.Prelude.Text.{Text, codes, text_eq}
use serial_proxy_c.Machine.Types.{Node, Call, Env, Fault}
use serial_proxy_c.Machine.Monad.{
  M, pure, undefined, exit, ◌>>=◌, ◌>>◌, skip, gets, set_server, when, load_node, set_node,
  change_node, take_address, note, perform,
}
use serial_proxy_c.Log.{ll_error, server_log}

abbrev pub flag_master : ℕ
flag_master = 1

abbrev pub flag_virtual : ℕ
flag_virtual = 2

abbrev pub flag_writer : ℕ
flag_writer = 4

abbrev pub node_is_master : Node → Bool
node_is_master n = has_flag n.flags flag_master

abbrev pub node_is_virtual : Node → Bool
node_is_virtual n = has_flag n.flags flag_virtual

abbrev pub node_is_writer : Node → Bool
node_is_writer n = has_flag n.flags flag_writer

abbrev pub path_max : ℕ
path_max = 4096

-- What `calloc` and the assignments behind it make of a node; `strlcpy` keeps one byte for the zero.
abbrev pub new_node : Text → ℕ → Node
new_node name flags = record {
  name = take 4095 name;
  flags = flags;
  virtual_head = none;
  virtualof = none;
  baudrate = pos 9600;
  link = none;
  next = none;
}

-- A name of `none` is NULL.
unfoldable pub create_node : Env → Option Text → ℕ → M (Option ℕ)
create_node env none flags = do server_log env ll_error; pure none
create_node env (some name) flags = do
  granted ← perform env Call.calloc
  if granted
      then (do p ← take_address; set_node p (some (new_node name flags)); pure (some p))
      else (do server_log env ll_error; exit 1)

abbrev pub set_master_head : Option ℕ → M (Unit {0})
set_master_head p = do s ← gets (λ w. w.server); set_server (record s { master_head = p })

-- `if (head) node->next = head;`
pub link_in_front : ℕ → Option ℕ → M (Unit {0})
link_in_front node none = skip
link_in_front node (some head) = change_node node (λ n. record n { next = some head })

unfoldable pub add_node : ℕ → M (Unit {0})
unfolding link_in_front
add_node node = do
  head ← gets (λ w. w.server.master_head)
  link_in_front node head
  set_master_head (some node)

unfoldable pub add_virtual_node : ℕ → ℕ → M (Unit {0})
unfolding link_in_front
add_virtual_node master virtual = do
  m ← load_node master
  link_in_front virtual m.virtual_head
  change_node master (λ n. record n { virtual_head = some virtual })
  change_node virtual (λ v. record v { virtualof = some master })

-- Loops over a list take as fuel the number of addresses ever given out: no list is longer.
abbrev pub list_fuel : M ℕ
list_fuel = gets (λ w. w.fresh)

-- The body of the `if (virtual == cur)` of serialRemoveVirtualNode.
unlink_virtual : ℕ → ℕ → Option ℕ → M (Unit {0})
unlink_virtual master virtual none = do
  change_node master (λ n. record n { virtual_head = none })
  change_node virtual (λ v. record v { next = none })
unlink_virtual master virtual (some prev) = do
  v ← load_node virtual
  change_node prev (λ n. record n { next = v.next })
  change_node virtual (λ v. record v { next = none })

-- `while (cur)`; the source never assigns `prev`.
remove_virtual_loop : ℕ → (master virtual : ℕ) → (prev cur : Option ℕ) → M (Unit {0})
remove_virtual_loop fuel master virtual prev none = skip
remove_virtual_loop zero master virtual prev (some cur) = undefined Fault.no_fuel
remove_virtual_loop (suc fuel) master virtual prev (some cur) =
    if same_ptr (some virtual) (some cur)
    then unlink_virtual master virtual prev
    else (do c ← load_node cur; remove_virtual_loop fuel master virtual prev c.next)

unfoldable pub remove_virtual_node : ℕ → ℕ → M (Unit {0})
unfolding remove_virtual_loop unlink_virtual
remove_virtual_node master virtual = do
  m ← load_node master
  fuel ← list_fuel
  remove_virtual_loop fuel master virtual none m.virtual_head

-- The body of the `if (node == cur)` of serialDelNode.
unlink_master : ℕ → Option ℕ → M (Unit {0})
unlink_master node none = do set_master_head none; change_node node (λ n. record n { next = none })
unlink_master node (some prev) = do
  n ← load_node node
  change_node prev (λ q. record q { next = n.next })
  change_node node (λ n. record n { next = none })

del_loop : ℕ → ℕ → (prev cur : Option ℕ) → M (Unit {0})
del_loop fuel node prev none = skip
del_loop zero node prev (some cur) = undefined Fault.no_fuel
del_loop (suc fuel) node prev (some cur) =
    if same_ptr (some node) (some cur)
    then unlink_master node prev
    else (do c ← load_node cur; del_loop fuel node prev c.next)

unfoldable pub del_node : ℕ → M (Unit {0})
unfolding del_loop unlink_master
del_node node = do
  head ← gets (λ w. w.server.master_head)
  fuel ← list_fuel
  del_loop fuel node none head

-- The search loop that serialGetNode, serialGetVirtualNode and serialGetVirtualWriterNode share.
pub find_node : ℕ → (Node → Bool) → Option ℕ → M (Option ℕ)
find_node fuel test none = pure none
find_node zero test (some cur) = undefined Fault.no_fuel
find_node (suc fuel) test (some cur) = do
  n ← load_node cur
  if test n then pure (some cur) else find_node fuel test n.next

abbrev pub has_name : Text → Node → Bool
has_name name n = text_eq name n.name

unfoldable pub get_node : Text → M (Option ℕ)
unfolding find_node
get_node name = do
  head ← gets (λ w. w.server.master_head)
  fuel ← list_fuel
  find_node fuel (has_name name) head

unfoldable pub get_virtual_node : ℕ → Text → M (Option ℕ)
unfolding find_node
get_virtual_node master name = do
  m ← load_node master
  fuel ← list_fuel
  find_node fuel (has_name name) m.virtual_head

unfoldable pub get_virtual_writer_node : ℕ → M (Option ℕ)
unfolding find_node
get_virtual_writer_node master = do
  m ← load_node master
  fuel ← list_fuel
  find_node fuel node_is_writer m.virtual_head

-- `none` is the result -1: the name with its zero does not fit the buffer.
unfoldable pub virtual_name : Text → Text → ℕ → Option Text
virtual_name device suffix name_size =
    let name = device ++ codes "." ++ suffix in
    if ltb (length name) name_size then some name else none

-- The loop of serialFreeNode over the virtuals of a node.
orphan_loop : ℕ → Option ℕ → M (Unit {0})
orphan_loop fuel none = skip
orphan_loop zero (some cur) = undefined Fault.no_fuel
orphan_loop (suc fuel) (some cur) = do
  change_node cur (λ v. record v { virtualof = none })
  c ← load_node cur
  orphan_loop fuel c.next

-- `if (n->virtualof) { serialRemoveVirtualNode(n->virtualof, n); }`
leave_master : Option ℕ → ℕ → M (Unit {0})
leave_master none node = skip
leave_master (some master) node = remove_virtual_node master node

unfoldable pub free_node : ℕ → M (Unit {0})
unfolding orphan_loop leave_master remove_virtual_node
free_node node = do
  n ← load_node node
  fuel ← list_fuel
  orphan_loop fuel n.virtual_head
  n ← load_node node
  when (node_is_virtual n) (do note (Call.remove n.name); leave_master n.virtualof node)
  change_node node (λ n. record n { virtual_head = none })
  set_node node none
