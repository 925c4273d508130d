-- ===== src/Serial/Transfer/FanOut.antt =====
-- From a read on one link to the writes on others.
use serial_proxy_c.Prelude.{
  ℕ, ◌+◌, ◌≡◌, ◌≢◌, true, false, none, some, List, [], ◌∷◌, arith, ap, sym, subst, ltb, ◌∙◌, All,
}
use serial_proxy_c.Prelude.Text.{Text}
use serial_proxy_c.Machine.Types.{Node, Link, Call, Env, World, Fault}
use serial_proxy_c.Machine.Monad.{done, fault, update, ◌>>◌}
use serial_proxy_c.Machine.Memory.{load_link-none}
use serial_proxy_c.Log.Laws.{device_calls, device_calls-OnlyLog}
use serial_proxy_c.Serial.Nodes.{node_is_master, node_is_virtual, node_is_writer}
use serial_proxy_c.Serial.Nodes.Chain.{first_with}
use serial_proxy_c.Serial.Nodes.Lists.{IsVirtuals}
use serial_proxy_c.Serial.Link.{ae_readable, ae_writable}
use serial_proxy_c.Serial.Link.Close.{closed}
use serial_proxy_c.Serial.Link.Flags.{flags_of}
use serial_proxy_c.Serial.Transfer.{write_handler, event_handler}
use serial_proxy_c.Serial.Transfer.Owner.{IsOpen}
use serial_proxy_c.Serial.Transfer.Read.{
  filled, pending, pending-filled, read_handler-filled, read_handler-closed,
}
use serial_proxy_c.Serial.Transfer.Write.{write_link-sent}
use serial_proxy_c.Serial.Transfer.Proxy.{
  Port, IsPort, serve, delivered, Accepts, serve-delivered, write_handler-master,
}

-- The world `w` in which the link at `l` is `k`, after the calls `t`.
abbrev pub with_link : World → ℕ → Link → List Call → World
with_link w l k t = record w { links = update w.links l (some k); trace = t }

pub IsOpen-other :
    {w : World} {l p fd : ℕ} {k : Link} {n : Node} (q : ℕ) (j : Link) (t : List Call)
    → l ≢ q
    → IsOpen w l k p n fd
    → IsOpen (with_link w q j t) l k p n fd
IsOpen-other q j t ne o = record {
  link_at = ground (arith, o.link_at);
  node_at = o.node_at;
  owner = o.owner;
  descriptor = o.descriptor;
  back = o.back;
}

pub IsOpen-filled :
    {w : World} {l p fd : ℕ} {k : Link} {n : Node} (bytes : List ℕ) (t : List Call)
    → IsOpen w l k p n fd
    → IsOpen (with_link w l (filled k bytes) t) l (filled k bytes) p n fd
IsOpen-filled bytes t o = record {
  link_at = ground arith;
  node_at = o.node_at;
  owner = o.owner;
  descriptor = o.descriptor;
  back = o.back;
}

All-IsPort-other :
    (w : World) (m l : ℕ) (j : Link) (t : List Call) (ss : List Port)
    → All (λ s. s.link ≢ l) ss
    → All (IsPort w m) ss
    → All (IsPort (with_link w l j t) m) ss
All-IsPort-other w m l j t [] ne all = tt
All-IsPort-other w m l j t (s ∷ ss) (ne, nes) (port, all) = (
  record {
    content = port.content;
    is_open = IsOpen-other l j t ne port.is_open;
    virtual = port.virtual;
    of_master = port.of_master;
  },
  All-IsPort-other w m l j t ss nes all,
)

module _ (env : Env) (w : World) (path : Text) (set : w.server.logfile ≡ some path) (l m fd : ℕ)
    (k : Link) (n : Node) (o : IsOpen w l k m n fd) (b : ℕ) (bytes : List ℕ)
    (got : (env.received w.trace fd).bytes ≡ b ∷ bytes) (accepts : Accepts env (b ∷ bytes)) where
  Accepts-pending : Accepts env (pending (filled k (b ∷ bytes)))
  Accepts-pending = subst (Accepts env) (sym (pending-filled k (b ∷ bytes))) accepts

  -- Bytes that are read from a master are written, all and unchanged, to each open virtual of it that
  -- is served after that, in their order. One read and those writes are the only calls but for the
  -- log, and only the master's buffer changes.
  pub read_then_serve :
      (ss : List Port)
      → All (λ s. s.link ≢ l) ss
      → All (IsPort w m) ss
      → (t : List Call) × (device_calls t
          ≡ delivered (b ∷ bytes) ss (Call.read fd env.buf_size ∷ device_calls w.trace))
        × ((event_handler env (some l) ae_readable >> serve env ss) w
            ≡ done tt (with_link w l (filled k (b ∷ bytes)) t))
  unfolding event_handler
  read_then_serve ss ne all =
      let k' = filled k (b ∷ bytes) in
      let (t, log, e) = read_handler-filled env w l m fd k n path set o b bytes got in
      let same = device_calls-OnlyLog log in
      let w1 : World = with_link w l k' t in
      let waits : ltb 0 k'.recvbuflen ≡ true = ground arith in
      let (t', same', e') =
        serve-delivered env path l m fd k' n waits Accepts-pending w1 ss set
          (IsOpen-filled (b ∷ bytes) t o) (All-IsPort-other w m l k' t ss ne all) in
      (
        t',
        same'
            ∙ ap (λ (x : List ℕ). delivered x ss (device_calls t)) (pending-filled k (b ∷ bytes))
            ∙ ap (delivered (b ∷ bytes) ss) same,
        rw e e',
      )

  -- Bytes that are read from a virtual are written, all and unchanged, to its master when that is
  -- served after the read, if the virtual is the first writer on the master's list.
  pub read_then_write_master :
      (l' p' fd' : ℕ) (k' : Link) (mn : Node) (vs : List ℕ)
      → IsOpen w l' k' p' mn fd'
      → l' ≢ l
      → node_is_virtual mn ≡ false
      → node_is_master mn ≡ true
      → IsVirtuals w mn vs
      → first_with node_is_writer w.nodes vs ≡ some m
      → (t : List Call) × (device_calls t
          ≡ Call.write fd' (b ∷ bytes) ∷ Call.read fd env.buf_size ∷ device_calls w.trace)
        × ((event_handler env (some l) ae_readable >> event_handler env (some l') ae_writable) w
            ≡ done tt (with_link w l (filled k (b ∷ bytes)) t))
  unfolding event_handler
  read_then_write_master l' p' fd' k' mn vs o' ne real master is first =
      let j = filled k (b ∷ bytes) in
      let (t, log, e) = read_handler-filled env w l m fd k n path set o b bytes got in
      let same = device_calls-OnlyLog log in
      let w1 : World = with_link w l j t in
      let waits : ltb 0 j.recvbuflen ≡ true = ground arith in
      let open1 = IsOpen-other l j t ne o' in
      let (taken, took) = Accepts-pending t fd' in
      let (t', log', e') =
        write_link-sent env w1 path set l m fd j n (IsOpen-filled (b ∷ bytes) t o) l' p' fd' k' mn
          open1 waits taken took in
      let same' = device_calls-OnlyLog log' in
      (
        t',
        same'
            ∙ ap (λ (x : List ℕ). Call.write fd' x ∷ device_calls t) (pending-filled k (b ∷ bytes))
            ∙ ap (λ (x : List Call). Call.write fd' (b ∷ bytes) ∷ x) same,
        rw
            (
              e,
              write_handler-master env w1 l' p' fd' k' mn vs m n open1 real master is first
                  o.node_at,
              o.back,
            )
            e',
      )

-- Let a log file be set, and the link be open, with a well-formed list of virtuals of its owner. When
-- one event reports it readable and writable, and the read fails, other than with EAGAIN,
-- _serialReadHandler frees the link and _serialEventHandler then follows the same pointer: the
-- behaviour is undefined.
pub event_handler-dangling :
    (env : Env) (w : World) (path : Text) (l p fd : ℕ) (k : Link) (n : Node) (vs : List ℕ)
    → w.server.logfile ≡ some path
    → IsOpen w l k p n fd
    → IsVirtuals w n vs
    → (env.received w.trace fd).bytes ≡ []
    → (env.received w.trace fd).again ≡ false
    → event_handler env (some l) (ae_readable + ae_writable) w ≡ fault Fault.dangling_pointer
unfolding event_handler write_handler
event_handler-dangling env w path l p fd k n vs set o is empty failed =
    let (t, log, e) = read_handler-closed env w l p fd k n path set o vs is empty failed in
    let w1 : World = closed (record w { trace = t }) l k.sfd p n fd (flags_of w.nodes vs n) in
    let gone : w1.links l ≡ none = ground arith in rw (e, load_link-none w1 l gone)
