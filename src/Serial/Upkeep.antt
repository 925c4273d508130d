-- ===== src/Serial/Upkeep.antt =====
-- The passes of src/serial.c over all nodes: reconnecting, emptying the buffers, and the end.
pub mod Sleep
pub mod Empty
pub mod Gains
pub mod Reconnect
pub mod Release
pub mod Term
use serial_proxy_c.Prelude.{
  ℕ, zero, suc, Bool, true, false, Option, none, some, if◌then◌else◌, is_some,
}
use serial_proxy_c.Machine.Types.{Call, Env, Fault}
use serial_proxy_c.Machine.Monad.{
  M, pure, undefined, ◌>>=◌, ◌>>◌, skip, gets, when, deref, load_node, load_link, change_node,
  change_link, note,
}
use serial_proxy_c.Log.{ll_info, ll_warn, server_log}
use serial_proxy_c.Serial.Nodes.{list_fuel, free_node}
use serial_proxy_c.Serial.Link.{event_string, free_link, connect_node}

-- `while (p) { body(p); p = p->next; }`
pub walk : ℕ → (ℕ → M (Unit {0})) → Option ℕ → M (Unit {0})
walk fuel body none = skip
walk zero body (some p) = undefined Fault.no_fuel
walk (suc fuel) body (some p) = do body p; n ← load_node p; walk fuel body n.next

-- The message for a node that was connected names its descriptor and its flags.
announce : Env → ℕ → M (Unit {0})
announce env node = do
  n ← load_node node
  l ← deref n.link
  load_link l
  event_string node
  server_log env ll_info

-- Whether the node is connected at the end; a node that has its link is left alone.
reconnect_node : Env → ℕ → M Bool
unfolding announce
reconnect_node env node = do
  n ← load_node node
  if is_some n.link then pure true else (do
    ok ← connect_node env node
    if ok then (do announce env node; pure true) else (do server_log env ll_warn; pure false))

reconnect_virtual : Env → ℕ → M (Unit {0})
unfolding reconnect_node
reconnect_virtual env node = do reconnect_node env node; skip

reconnect_master : Env → ℕ → M (Unit {0})
unfolding reconnect_node reconnect_virtual walk
reconnect_master env node = do
  connected ← reconnect_node env node
  when connected
      (do n ← load_node node; fuel ← list_fuel; walk fuel (reconnect_virtual env) n.virtual_head)

unfoldable pub reconnect : Env → M (Unit {0})
unfolding reconnect_master walk
reconnect env = do
  head ← gets (λ w. w.server.master_head)
  fuel ← list_fuel
  walk fuel (reconnect_master env) head

-- `if (node->link) { node->link->recvbuflen = 0; }`
empty_link : Option ℕ → M (Unit {0})
empty_link none = skip
empty_link (some l) = change_link l (λ k. record k { recvbuflen = 0 })

empty_node : ℕ → M (Unit {0})
unfolding empty_link
empty_node node = do n ← load_node node; empty_link n.link

empty_master : ℕ → M (Unit {0})
unfolding empty_node walk
empty_master node = do
  empty_node node
  n ← load_node node
  fuel ← list_fuel
  walk fuel empty_node n.virtual_head

unfoldable pub serial_before_sleep : M (Unit {0})
unfolding empty_master walk
serial_before_sleep = do
  head ← gets (λ w. w.server.master_head)
  fuel ← list_fuel
  walk fuel empty_master head
  note (Call.usleep 1_000_000)

unfoldable pub serial_cron : Env → M (Unit {0})
serial_cron env = reconnect env

-- `while (p) { tmp = p; p = p->next; body(tmp); }`
walk_ahead : ℕ → (ℕ → M (Unit {0})) → Option ℕ → M (Unit {0})
walk_ahead fuel body none = skip
walk_ahead zero body (some p) = undefined Fault.no_fuel
walk_ahead (suc fuel) body (some p) = do n ← load_node p; body p; walk_ahead fuel body n.next

-- `if (tmp->link) { _serialFreeLink(tmp->link); tmp->link = NULL; }`
drop_link : ℕ → Option ℕ → M (Unit {0})
drop_link node none = skip
drop_link node (some l) = do free_link l; change_node node (λ n. record n { link = none })

pub close_node : Env → ℕ → M (Unit {0})
unfolding drop_link
close_node env node = do
  server_log env ll_info
  n ← load_node node
  drop_link node n.link
  free_node node

-- The inner loop runs while `node` still stands, and `node->next` is read behind it.
pub term_loop : Env → ℕ → Option ℕ → M (Unit {0})
unfolding close_node walk_ahead
term_loop env fuel none = skip
term_loop env zero (some node) = undefined Fault.no_fuel
term_loop env (suc fuel) (some node) = do
  n ← load_node node
  inner ← list_fuel
  walk_ahead inner (close_node env) n.virtual_head
  n ← load_node node
  close_node env node
  term_loop env fuel n.next

unfoldable pub serial_term : Env → M (Unit {0})
unfolding term_loop
serial_term env = do
  head ← gets (λ w. w.server.master_head)
  fuel ← list_fuel
  term_loop env fuel head
