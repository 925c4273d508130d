-- ===== src/Serial/Link.antt =====
-- Connections of src/serial.c: the event flags of a node, opening and closing its link.
pub mod Flags
pub mod Close
pub mod Descriptors
pub mod Accounts
pub mod Building
pub mod Connect
pub mod Linked
use serial_proxy_c.Prelude.{
  ℕ, Bool, true, false, ◌||◌, Option, none, some, if◌then◌else◌, is_some, replicate,
}
use serial_proxy_c.Prelude.Flags.{has_flag, add_flag}
use serial_proxy_c.Prelude.Text.{Text, codes}
use serial_proxy_c.Machine.Types.{Node, Link, Call, Env}
use serial_proxy_c.Machine.Monad.{
  M, pure, exit, ◌>>=◌, ◌>>◌, skip, load_node, load_link, set_link, change_node, change_link,
  take_address, note, perform,
}
use serial_proxy_c.Log.{ll_error, server_log}
use serial_proxy_c.Serial.Device.{open_device, configure}
use serial_proxy_c.Serial.Nodes.{
  node_is_master, node_is_virtual, node_is_writer, get_virtual_writer_node,
}

abbrev pub ae_readable : ℕ
ae_readable = 1

abbrev pub ae_writable : ℕ
ae_writable = 2

master_flags : ℕ → M ℕ
master_flags node = do
  writer ← get_virtual_writer_node node
  pure (if is_some writer then add_flag ae_readable ae_writable else ae_readable)

virtual_flags : Node → ℕ
virtual_flags n = if node_is_writer n then add_flag ae_writable ae_readable else ae_writable

unfoldable pub event_flags : ℕ → M ℕ
unfolding master_flags virtual_flags
event_flags node = do
  n ← load_node node
  if node_is_master n
      then master_flags node
      else if node_is_virtual n
      then pure (virtual_flags n)
      else pure 0

-- The tests of _serialEventString in their order; `none` is NULL.
flags_text : ℕ → Option Text
flags_text flags =
    if has_flag flags ae_readable || has_flag flags ae_writable
    then some (codes "rw")
    else if has_flag flags ae_readable
    then some (codes "r")
    else if has_flag flags ae_readable
    then some (codes "w")
    else none

unfoldable pub event_string : ℕ → M (Option Text)
unfolding flags_text
event_string node = do flags ← event_flags node; pure (flags_text flags)

-- The result of aeCreateFileEvent is not read.
watch : Env → Option ℕ → ℕ → ℕ → M (Unit {0})
watch env none flags l = skip
watch env (some fd) flags l = do perform env (Call.create_file_event fd flags l); skip

attach : Env → ℕ → ℕ → M (Option ℕ)
unfolding watch
attach env node l = do
  k ← load_link l
  flags ← event_flags node
  watch env k.fd flags l
  change_node node (λ n. record n { link = some l })
  change_link l (λ k. record k { node = some node })
  pure (some l)

unwatch : Option ℕ → Option ℕ → M (Unit {0})
unwatch none _ = skip
unwatch (some fd) none = skip
unwatch (some fd) (some node) = do flags ← event_flags node; note (Call.delete_file_event fd flags)

leave_node : Option ℕ → M (Unit {0})
leave_node none = skip
leave_node (some node) = change_node node (λ n. record n { link = none })

close_descriptor : Option ℕ → M (Unit {0})
close_descriptor none = skip
close_descriptor (some fd) = note (Call.close fd)

unfoldable pub free_link : ℕ → M (Unit {0})
unfolding unwatch leave_node close_descriptor
free_link l = do
  k ← load_link l
  unwatch k.fd k.node
  leave_node k.node
  close_descriptor k.fd
  close_descriptor k.sfd
  set_link l none

unfoldable pub link_io_error : ℕ → M (Unit {0})
link_io_error l = free_link l

-- What `calloc` and the two assignments behind it make of a link.
abbrev pub new_link : Env → Link
new_link env = record {
  fd = none;
  sfd = none;
  recvbuf = replicate env.buf_size 0;
  recvbuflen = 0;
  node = none;
}

-- The link that `l` points to is filled in, or given back at the label `err`.
finish_link : Env → ℕ → ℕ → Bool → M (Option ℕ)
unfolding attach
finish_link env node l true = attach env node l
finish_link env node l false = do link_io_error l; pure none

create_link : Env → ℕ → M (Option ℕ)
unfolding open_device configure finish_link
create_link env node = do
  granted ← perform env Call.calloc
  if granted
      then (do
        l ← take_address
        set_link l (some (new_link env))
        n ← load_node node
        opened ← open_device env l n
        k ← load_link l
        ready ← if opened then configure env k.fd n else pure false
        finish_link env node l ready)
      else (do server_log env ll_error; exit 1)

-- True is C_OK, false is C_ERR, which is also the answer for a node that has its link.
unfoldable pub connect_node : Env → ℕ → M Bool
unfolding create_link
connect_node env node = do
  n ← load_node node
  if is_some n.link then pure false else (do l ← create_link env node; pure (is_some l))
