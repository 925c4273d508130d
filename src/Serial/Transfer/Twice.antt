-- ===== src/Serial/Transfer/Twice.antt =====
-- An event that reports a link readable and writable: aeProcessEvents (src/ae.c) hands it over once
-- with both flags, and then again for writing.
use serial_proxy_c.Prelude.{ℕ, ◌+◌, ◌≡◌, ◌≢◌, true, false, some, List, ◌∷◌, ◌∙◌, ap, ltb}
use serial_proxy_c.Prelude.Text.{Text}
use serial_proxy_c.Machine.Types.{Node, Link, Call, Env, World}
use serial_proxy_c.Machine.Monad.{done, ◌>>◌}
use serial_proxy_c.Log.Laws.{device_calls, device_calls-OnlyLog}
use serial_proxy_c.Serial.Nodes.{node_is_master, node_is_virtual, node_is_writer}
use serial_proxy_c.Serial.Nodes.Chain.{first_with}
use serial_proxy_c.Serial.Nodes.Lists.{IsVirtuals}
use serial_proxy_c.Serial.Link.{ae_readable, ae_writable}
use serial_proxy_c.Serial.Transfer.{event_handler}
use serial_proxy_c.Serial.Transfer.Owner.{IsOpen, IsOpen-trace}
use serial_proxy_c.Serial.Transfer.Read.{filled, pending, read_handler-filled}
use serial_proxy_c.Serial.Transfer.Write.{write_link-sent}
use serial_proxy_c.Serial.Transfer.Proxy.{Accepts, write_handler-master}
use serial_proxy_c.Serial.Transfer.FanOut.{with_link, IsOpen-other, IsOpen-filled}

module _ (env : Env) (path : Text) (l m fd : ℕ) (n : Node) (vs : List ℕ) (l' v fd' : ℕ) (k' : Link)
    (vn : Node) (real : node_is_virtual n ≡ false) (master : node_is_master n ≡ true)
    (waits : ltb 0 k'.recvbuflen ≡ true) (accepts : Accepts env (pending k')) where
  -- What waits on the writer is written to the open master that is found writable.
  write_master :
      (w : World) (k : Link)
      → w.server.logfile ≡ some path
      → IsOpen w l k m n fd
      → IsOpen w l' k' v vn fd'
      → IsVirtuals w n vs
      → first_with node_is_writer w.nodes vs ≡ some v
      → (t : List Call) × (device_calls t ≡ Call.write fd (pending k') ∷ device_calls w.trace)
        × (event_handler env (some l) ae_writable w ≡ done tt (record w { trace = t }))
  unfolding event_handler
  write_master w k set o o' is first =
      let (taken, took) = accepts w.trace fd in
      let (t, log, e) =
        write_link-sent env w path set l' v fd' k' vn o' l m fd k n o waits taken took in
      (
        t,
        device_calls-OnlyLog log,
        rw
            (
              write_handler-master env w l m fd k n vs v vn o real master is first o'.node_at,
              o'.back,
            )
            e,
      )

  -- Let a log file be set, and an open master have a first writer among its virtuals, in a well-formed list, the
  -- writer be open on another link and hold data of which `write` takes some. When an event reports the master
  -- readable and writable, which calls _serialEventHandler with both flags and then for writing, and the
  -- read brings bytes, then the same data of the writer is written to the master twice. One read and
  -- these writes are the only calls but for the log, and only the master's buffer changes.
  pub event_handler-twice :
      (w : World) (k : Link) (b : ℕ) (bytes : List ℕ)
      → w.server.logfile ≡ some path
      → IsOpen w l k m n fd
      → IsOpen w l' k' v vn fd'
      → l' ≢ l
      → IsVirtuals w n vs
      → first_with node_is_writer w.nodes vs ≡ some v
      → (env.received w.trace fd).bytes ≡ b ∷ bytes
      → (t : List Call) × (device_calls t
          ≡ Call.write fd (pending k')
            ∷ Call.write fd (pending k')
            ∷ Call.read fd env.buf_size
            ∷ device_calls w.trace)
        × ((event_handler env (some l) (ae_readable + ae_writable)
                >> event_handler env (some l) ae_writable)
              w
            ≡ done tt (with_link w l (filled k (b ∷ bytes)) t))
  unfolding event_handler
  event_handler-twice w k b bytes set o o' ne is first got =
      let j = filled k (b ∷ bytes) in
      let more : List Call → List Call = λ h. Call.write fd (pending k') ∷ h in
      let (t, log, e) = read_handler-filled env w l m fd k n path set o b bytes got in
      let same = device_calls-OnlyLog log in
      let here = IsOpen-filled (b ∷ bytes) t o in
      let there = IsOpen-other l j t ne o' in
      let (t1, same1, e1) = write_master (with_link w l j t) j set here there is first in
      let (t2, same2, e2) =
        write_master (with_link w l j t1) j set (IsOpen-trace here) (IsOpen-trace there) is first in
      (t2, same2 ∙ ap more (same1 ∙ ap more same), rw (e, e1) e2)
