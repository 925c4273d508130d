-- ===== src/Serial/Transfer/Read.antt =====
-- _serialReadHandler: what was read is what a later write will send.
use serial_proxy_c.Prelude.{
  ℕ, ◌≡◌, Bool, true, false, Option, some, List, [], ◌∷◌, ◌++◌, arith, ap, length, take, drop,
  take-length-append, fun_ext,
}
use serial_proxy_c.Prelude.Text.{Text}
use serial_proxy_c.Machine.Types.{Node, Link, Call, Env, World}
use serial_proxy_c.Machine.Monad.{done, update}
use serial_proxy_c.Machine.Memory.{load_link-some, change_link-some}
use serial_proxy_c.Log.{ll_debug, ll_error}
use serial_proxy_c.Log.Laws.{OnlyLog, server_log-Logs, server_log_errno-Logs}
use serial_proxy_c.Serial.Transfer.{read_bytes, after_read, read_handler}
use serial_proxy_c.Serial.Transfer.Owner.{IsOpen, IsOpen-trace, name_of_owner_lem}
use serial_proxy_c.Serial.Nodes.Lists.{IsVirtuals}
use serial_proxy_c.Serial.Link.{link_io_error}
use serial_proxy_c.Serial.Link.Flags.{flags_of}
use serial_proxy_c.Serial.Link.Close.{closed, free_link-closed}

-- The link `k` after `bytes` have arrived: they overwrite the front of the array.
abbrev pub filled : Link → List ℕ → Link
filled k bytes = record k {
  recvbuf = bytes ++ drop (length bytes) k.recvbuf;
  recvbuflen = length bytes;
}

-- What the link holds for a write.
abbrev pub pending : Link → List ℕ
pending k = take k.recvbuflen k.recvbuf

pub pending-filled : (k : Link) (bytes : List ℕ) → pending (filled k bytes) ≡ bytes
pending-filled k bytes = take-length-append bytes (drop (length bytes) k.recvbuf)

read_bytes_lem :
    (env : Env) (w : World) (descriptor : Option ℕ) (fd : ℕ)
    → descriptor ≡ some fd
    → read_bytes env descriptor w
      ≡ done (env.received w.trace fd) (record w { trace = Call.read fd env.buf_size ∷ w.trace })
unfolding read_bytes
read_bytes_lem env w descriptor fd e = rw e

module _ (env : Env) (w : World) (l p fd : ℕ) (k : Link) (n : Node) (path : Text)
    (set : w.server.logfile ≡ some path) (open_link : IsOpen w l k p n fd) where
  after_read-filled :
      (b : ℕ) (bytes : List ℕ) (again : Bool)
      → (t : List Call) × OnlyLog w.trace t
        × (after_read env l (b ∷ bytes) again w
            ≡ done tt
                (record w { links = update w.links l (some (filled k (b ∷ bytes))); trace = t }))
  unfolding after_read
  after_read-filled b bytes again =
      let got = b ∷ bytes in
      let k1 = record k { recvbuf = got ++ drop (length got) k.recvbuf } in
      let w1 : World = record w { links = update w.links l (some k1) } in
      let (t, log, e) = server_log-Logs env ll_debug w1 path set in
      let w2 : World = record w1 { trace = t } in
      let at1 : w1.links l ≡ some k1 = ground arith in
      (
        t,
        log,
        rw
            (
              change_link-some w l (λ j. record j { recvbuf = got ++ drop (length got) j.recvbuf })
                  open_link.link_at,
              load_link-some w1 l at1,
              name_of_owner_lem w1 k.node p n open_link.owner open_link.node_at,
              e,
              change_link-some w2 l (λ j. record j { recvbuflen = length got }) at1,
            )
            (ap (λ (h : ℕ → Option Link). done tt (record w { links = h; trace = t }))
              (fun_ext λ q. ground arith)),
      )

module _ (env : Env) (w : World) (l p fd : ℕ) (k : Link) (n : Node) (path : Text)
    (set : w.server.logfile ≡ some path) (open_link : IsOpen w l k p n fd) where
  abbrev after_call : World
  after_call = record w { trace = Call.read fd env.buf_size ∷ w.trace }

  -- When `read` brings bytes, the link's buffer holds exactly them for the next write, no other link,
  -- no node and no setting changes, and the read is the only call but for the log.
  pub read_handler-filled :
      (b : ℕ) (bytes : List ℕ)
      → (env.received w.trace fd).bytes ≡ b ∷ bytes
      → (t : List Call) × OnlyLog (Call.read fd env.buf_size ∷ w.trace) t
        × (read_handler env l w
            ≡ done tt
                (record w { links = update w.links l (some (filled k (b ∷ bytes))); trace = t }))
  unfolding read_handler
  read_handler-filled b bytes got =
      let again = (env.received w.trace fd).again in
      let (t, log, e) =
        after_read-filled env after_call l p fd k n path set (IsOpen-trace open_link) b bytes
          again in
      (
        t,
        log,
        rw
            (
              load_link-some w l open_link.link_at,
              read_bytes_lem env w k.fd fd open_link.descriptor,
              got,
            )
            e,
      )

  -- When `read` brings nothing and `errno` is EAGAIN, the handler does nothing else.
  pub read_handler-again :
      (env.received w.trace fd).bytes ≡ []
      → (env.received w.trace fd).again ≡ true
      → read_handler env l w ≡ done tt after_call
  unfolding read_handler after_read
  read_handler-again empty again = rw (
    load_link-some w l open_link.link_at,
    read_bytes_lem env w k.fd fd open_link.descriptor,
    empty,
    again,
  )

  -- Let a log file be set, and the link be open, with a well-formed list of virtuals of its owner. When
  -- `read` fails, other than with EAGAIN, the link is closed: its events are deleted, its owner
  -- forgets it and its descriptors are closed. The read, log output and this are all that happens.
  pub read_handler-closed :
      (vs : List ℕ)
      → IsVirtuals w n vs
      → (env.received w.trace fd).bytes ≡ []
      → (env.received w.trace fd).again ≡ false
      → (t : List Call) × OnlyLog after_call.trace t
        × (read_handler env l w
            ≡ done tt (closed (record w { trace = t }) l k.sfd p n fd (flags_of w.nodes vs n)))
  unfolding read_handler after_read link_io_error
  read_handler-closed vs is empty failed =
      let (t, log, e) = server_log_errno-Logs env ll_error after_call path set in
      let w1 : World = record w { trace = t } in
      (
        t,
        log,
        rw (
          load_link-some w l open_link.link_at,
          read_bytes_lem env w k.fd fd open_link.descriptor,
          empty,
          failed,
          load_link-some after_call l open_link.link_at,
          name_of_owner_lem after_call k.node p n open_link.owner open_link.node_at,
          e,
          free_link-closed w1 l k p n fd vs open_link.link_at open_link.owner open_link.descriptor
              open_link.node_at is,
        ),
      )
