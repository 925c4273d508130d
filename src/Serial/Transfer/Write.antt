-- ===== src/Serial/Transfer/Write.antt =====
-- _serialWriteLink and _serialWriteHandler: what is sent where, and what a failed write does.
use serial_proxy_c.Prelude.{ℕ, suc, ◌≡◌, true, false, Option, some, List, ◌∷◌, arith, ltb, ◌==◌}
use serial_proxy_c.Prelude.Text.{Text}
use serial_proxy_c.Machine.Types.{Node, Link, Call, Env, World}
use serial_proxy_c.Machine.Monad.{done}
use serial_proxy_c.Machine.Memory.{load_link-some}
use serial_proxy_c.Log.{ll_debug, ll_error}
use serial_proxy_c.Log.Laws.{OnlyLog, server_log-Logs, server_log_errno-Logs}
use serial_proxy_c.Serial.Nodes.Lists.{IsVirtuals}
use serial_proxy_c.Serial.Link.{link_io_error}
use serial_proxy_c.Serial.Link.Flags.{flags_of}
use serial_proxy_c.Serial.Link.Close.{closed, free_link-closed}
use serial_proxy_c.Serial.Transfer.{write_bytes, after_write, write_link}
use serial_proxy_c.Serial.Transfer.Owner.{IsOpen, name_of_owner_lem}
use serial_proxy_c.Serial.Transfer.Read.{pending}

write_bytes_lem :
    (env : Env) (w : World) (descriptor : Option ℕ) (fd : ℕ) (bytes : List ℕ)
    → descriptor ≡ some fd
    → write_bytes env descriptor bytes w
      ≡ done (env.written w.trace fd bytes) (record w { trace = Call.write fd bytes ∷ w.trace })
unfolding write_bytes
write_bytes_lem env w descriptor fd bytes e = rw e

-- A link without data sends nothing.
pub write_link-empty :
    (env : Env) (w : World) (from to : ℕ) (k : Link)
    → w.links from ≡ some k
    → k.recvbuflen ≡ 0
    → write_link env (some from) to w ≡ done tt w
unfolding write_link
write_link-empty env w from to k at none_pending = rw (load_link-some w from at, none_pending)

module _ (env : Env) (w : World) (path : Text) (set : w.server.logfile ≡ some path) (l p fd : ℕ)
    (k : Link) (n : Node) (source : IsOpen w l k p n fd) (l' p' fd' : ℕ) (k' : Link) (n' : Node)
    (target : IsOpen w l' k' p' n' fd') (data_waits : ltb 0 k.recvbuflen ≡ true) where
  abbrev sent : World
  sent = record w { trace = Call.write fd' (pending k) ∷ w.trace }

  -- Data that waits on one link is written to the other, all of it by one call; if `write` takes some
  -- of it, nothing but the log follows, and the data still waits.
  pub write_link-sent :
      (m : ℕ)
      → env.written w.trace fd' (pending k) ≡ suc m
      → (t : List Call) × OnlyLog (Call.write fd' (pending k) ∷ w.trace) t
        × (write_link env (some l) l' w ≡ done tt (record w { trace = t }))
  unfolding write_link after_write
  write_link-sent m took =
      let (t, log, e) = server_log-Logs env ll_debug sent path set in
      let more : (suc m == 0) ≡ false = ground arith in
      (
        t,
        log,
        rw
            (
              load_link-some w l source.link_at,
              data_waits,
              load_link-some w l' target.link_at,
              write_bytes_lem env w k'.fd fd' (pending k) target.descriptor,
              load_link-some sent l' target.link_at,
              took,
              more,
              name_of_owner_lem sent k.node p n source.owner source.node_at,
              name_of_owner_lem sent k'.node p' n' target.owner target.node_at,
            )
            e,
      )

  -- Let a log file be set, both links be open, with a well-formed list of virtuals of the owner of the
  -- one that is written to, and data wait on the other. A `write` that fails, or takes nothing, closes
  -- the link that was written to; the write, log output and this are all that happens.
  pub write_link-failed :
      (vs : List ℕ)
      → IsVirtuals w n' vs
      → env.written w.trace fd' (pending k) ≡ 0
      → (t : List Call) × OnlyLog (Call.write fd' (pending k) ∷ w.trace) t
        × (write_link env (some l) l' w
            ≡ done tt
                (closed (record w { trace = t }) l' k'.sfd p' n' fd' (flags_of w.nodes vs n')))
  unfolding write_link after_write link_io_error
  write_link-failed vs is took =
      let (t, log, e) = server_log_errno-Logs env ll_error sent path set in
      let w1 : World = record w { trace = t } in
      (
        t,
        log,
        rw (
          load_link-some w l source.link_at,
          data_waits,
          load_link-some w l' target.link_at,
          write_bytes_lem env w k'.fd fd' (pending k) target.descriptor,
          load_link-some sent l' target.link_at,
          took,
          name_of_owner_lem sent k'.node p' n' target.owner target.node_at,
          e,
          free_link-closed w1 l' k' p' n' fd' vs target.link_at target.owner target.descriptor
              target.node_at is,
        ),
      )
