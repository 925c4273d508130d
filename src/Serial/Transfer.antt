-- ===== src/Serial/Transfer.antt =====
-- The proxy itself in src/serial.c: what is read from one link is written to another.
pub mod Owner
pub mod Read
pub mod Write
pub mod Proxy
pub mod FanOut
pub mod Twice
use serial_proxy_c.Prelude.{
  ℕ, ◌==◌, Bool, true, false, Option, none, some, List, [], ◌∷◌, ◌++◌, ltb, if◌then◌else◌, length,
  take, drop,
}
use serial_proxy_c.Prelude.Flags.{has_flag}
use serial_proxy_c.Machine.Types.{Node, Link, Call, Env, Received}
use serial_proxy_c.Machine.Monad.{
  M, pure, ◌>>=◌, ◌>>◌, skip, gets, when, deref, load_node, load_link, change_link, note,
}
use serial_proxy_c.Log.{ll_error, ll_debug, server_log, server_log_errno}
use serial_proxy_c.Serial.Nodes.{node_is_master, node_is_virtual, get_virtual_writer_node}
use serial_proxy_c.Serial.Link.{ae_readable, ae_writable, link_io_error}

-- `write(fd, bytes, n)`: the bytes that it took, 0 for a result of zero or less.
write_bytes : Env → Option ℕ → List ℕ → M ℕ
write_bytes env none bytes = pure 0
write_bytes env (some fd) bytes = do
  h ← gets (λ w. w.trace)
  note (Call.write fd bytes)
  pure (env.written h fd bytes)

-- `link->node->name`, as an argument of a message.
unfoldable pub name_of_owner : Option ℕ → M (Unit {0})
name_of_owner node = do p ← deref node; load_node p; skip

-- What follows `write` in _serialWriteLink.
after_write : Env → Link → ℕ → ℕ → M (Unit {0})
unfolding name_of_owner
after_write env from tolink nwrite = do
  to ← load_link tolink
  if nwrite == 0
      then (do name_of_owner to.node; server_log_errno env ll_error; link_io_error tolink)
      else (do name_of_owner from.node; name_of_owner to.node; server_log env ll_debug)

unfoldable pub write_link : Env → Option ℕ → ℕ → M (Unit {0})
unfolding write_bytes after_write
write_link env none tolink = skip
write_link env (some fromlink) tolink = do
  from ← load_link fromlink
  when (ltb 0 from.recvbuflen) (do
    to ← load_link tolink
    nwrite ← write_bytes env to.fd (take from.recvbuflen from.recvbuf)
    after_write env from tolink nwrite)

write_from_master : Env → ℕ → Node → M (Unit {0})
write_from_master env l n = do
  m ← deref n.virtualof
  master ← load_node m
  write_link env master.link l

write_from_writer : Env → ℕ → Option ℕ → M (Unit {0})
write_from_writer env l none = skip
write_from_writer env l (some v) = do virtual ← load_node v; write_link env virtual.link l

unfoldable pub write_handler : Env → ℕ → M (Unit {0})
unfolding write_from_master write_from_writer
write_handler env l = do
  k ← load_link l
  p ← deref k.node
  n ← load_node p
  if node_is_virtual n
      then write_from_master env l n
      else when (node_is_master n) (do v ← get_virtual_writer_node p; write_from_writer env l v)

-- `read(fd, &recvbuf, BUFSIZ)`; on a descriptor of -1 it fails, not with EAGAIN.
read_bytes : Env → Option ℕ → M Received
read_bytes env none = pure (record { bytes = []; again = false })
read_bytes env (some fd) = do
  h ← gets (λ w. w.trace)
  note (Call.read fd env.buf_size)
  pure (env.received h fd)

-- What follows `read`; the bytes are in the array before their number is noted.
after_read : Env → ℕ → List ℕ → Bool → M (Unit {0})
unfolding name_of_owner
after_read env l [] true = skip
after_read env l [] false = do
  k ← load_link l
  name_of_owner k.node
  server_log_errno env ll_error
  link_io_error l
after_read env l (b ∷ bytes) again = do
  change_link l (λ k. record k { recvbuf = (b ∷ bytes) ++ drop (length (b ∷ bytes)) k.recvbuf })
  k ← load_link l
  name_of_owner k.node
  server_log env ll_debug
  change_link l (λ k. record k { recvbuflen = length (b ∷ bytes) })

unfoldable pub read_handler : Env → ℕ → M (Unit {0})
unfolding read_bytes after_read
read_handler env l = do k ← load_link l; r ← read_bytes env k.fd; after_read env l r.bytes r.again

-- `privdata` is the link that was registered with the event.
unfoldable pub event_handler : Env → Option ℕ → ℕ → M (Unit {0})
event_handler env none mask = skip
event_handler env (some l) mask = do
  when (has_flag mask ae_readable) (read_handler env l)
  when (has_flag mask ae_writable) (write_handler env l)
