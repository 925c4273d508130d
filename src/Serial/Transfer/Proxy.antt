-- ===== src/Serial/Transfer/Proxy.antt =====
-- The proxy as a whole: what arrives on a master goes to its virtuals, and what arrives on the
-- writer goes to the master.
use serial_proxy_c.Prelude.{
  ℕ, suc, ◌≡◌, refl, true, false, none, some, List, [], ◌∷◌, ap, ltb, ◌∙◌, All,
}
use serial_proxy_c.Prelude.Text.{Text}
use serial_proxy_c.Machine.Types.{Node, Link, Call, Env, World}
use serial_proxy_c.Machine.Monad.{M, done, skip, ◌>>◌}
use serial_proxy_c.Machine.Memory.{load_node-some, load_link-some}
use serial_proxy_c.Log.Laws.{device_calls, device_calls-OnlyLog}
use serial_proxy_c.Serial.Nodes.{node_is_master, node_is_virtual, node_is_writer}
use serial_proxy_c.Serial.Nodes.Chain.{first_with}
use serial_proxy_c.Serial.Nodes.Lists.{IsVirtuals, get_virtual_writer_node-first_with}
use serial_proxy_c.Serial.Link.{ae_writable}
use serial_proxy_c.Serial.Transfer.{
  write_link, write_handler, write_from_master, write_from_writer, event_handler,
}
use serial_proxy_c.Serial.Transfer.Owner.{IsOpen, IsOpen-trace}
use serial_proxy_c.Serial.Transfer.Read.{pending}
use serial_proxy_c.Serial.Transfer.Write.{write_link-sent}

-- A virtual is written what its master holds.
pub write_handler-virtual :
    (env : Env) (w : World) (l p fd : ℕ) (k : Link) (n : Node) (m : ℕ) (mn : Node)
    → IsOpen w l k p n fd
    → node_is_virtual n ≡ true
    → n.virtualof ≡ some m
    → w.nodes m ≡ some mn
    → write_handler env l w ≡ write_link env mn.link l w
unfolding write_handler write_from_master
write_handler-virtual env w l p fd k n m mn o virtual of at = rw (
  load_link-some w l o.link_at,
  o.owner,
  load_node-some w p o.node_at,
  virtual,
  of,
  load_node-some w m at,
)

-- A master is written what the first writer among its virtuals holds, and nothing without one.
pub write_handler-master :
    (env : Env) (w : World) (l p fd : ℕ) (k : Link) (n : Node) (vs : List ℕ) (v : ℕ) (vn : Node)
    → IsOpen w l k p n fd
    → node_is_virtual n ≡ false
    → node_is_master n ≡ true
    → IsVirtuals w n vs
    → first_with node_is_writer w.nodes vs ≡ some v
    → w.nodes v ≡ some vn
    → write_handler env l w ≡ write_link env vn.link l w
unfolding write_handler write_from_writer
write_handler-master env w l p fd k n vs v vn o real master is first at = rw (
  load_link-some w l o.link_at,
  o.owner,
  load_node-some w p o.node_at,
  real,
  master,
  get_virtual_writer_node-first_with w p n vs o.node_at is,
  first,
  load_node-some w v at,
)

-- A master without a writer is written nothing.
pub write_handler-alone :
    (env : Env) (w : World) (l p fd : ℕ) (k : Link) (n : Node) (vs : List ℕ)
    → IsOpen w l k p n fd
    → node_is_virtual n ≡ false
    → node_is_master n ≡ true
    → IsVirtuals w n vs
    → first_with node_is_writer w.nodes vs ≡ none
    → write_handler env l w ≡ done tt w
unfolding write_handler write_from_writer
write_handler-alone env w l p fd k n vs o real master is nothing = rw (
  load_link-some w l o.link_at,
  o.owner,
  load_node-some w p o.node_at,
  real,
  master,
  get_virtual_writer_node-first_with w p n vs o.node_at is,
  nothing,
)

-- A node that is neither a master nor a virtual is written nothing.
pub write_handler-neither :
    (env : Env) (w : World) (l p fd : ℕ) (k : Link) (n : Node)
    → IsOpen w l k p n fd
    → node_is_virtual n ≡ false
    → node_is_master n ≡ false
    → write_handler env l w ≡ done tt w
unfolding write_handler
write_handler-neither env w l p fd k n o real other =
    rw (load_link-some w l o.link_at, o.owner, load_node-some w p o.node_at, real, other)

-- A virtual with an open link.
pub record Port : Type 0 where
  pub link : ℕ
  pub fd : ℕ
  pub at : ℕ
  pub node : Node

-- `s` is an open virtual of the master `m`.
pub record IsPort (w : World) (m : ℕ) (s : Port) : Type 0 where
  pub content : Link
  pub is_open : IsOpen w s.link content s.at s.node s.fd
  pub virtual : node_is_virtual s.node ≡ true
  pub of_master : s.node.virtualof ≡ some m

-- The event loop calls the handler of one port after the other, for writing.
unfoldable pub serve : Env → List Port → M (Unit {0})
serve env [] = skip
serve env (s ∷ ss) = do event_handler env (some s.link) ae_writable; serve env ss

-- The calls made so far, and then one write of `bytes` to each port.
unfoldable pub delivered : List ℕ → List Port → List Call → List Call
delivered bytes [] calls = calls
delivered bytes (s ∷ ss) calls = delivered bytes ss (Call.write s.fd bytes ∷ calls)

-- `write` takes some of `bytes`, whenever and wherever they are written.
abbrev pub Accepts : Env → List ℕ → Type 0
Accepts env bytes = (h : List Call) (fd : ℕ) → (m : ℕ) × (env.written h fd bytes ≡ suc m)

module _ (env : Env) (path : Text) (l m fd : ℕ) (k : Link) (n : Node)
    (waits : ltb 0 k.recvbuflen ≡ true) (accepts : Accepts env (pending k)) where
  write_port :
      (w : World) (s : Port)
      → w.server.logfile ≡ some path
      → IsOpen w l k m n fd
      → IsPort w m s
      → (t : List Call) × (device_calls t ≡ Call.write s.fd (pending k) ∷ device_calls w.trace)
        × (event_handler env (some s.link) ae_writable w ≡ done tt (record w { trace = t }))
  unfolding event_handler
  write_port w s set o port =
      let (taken, took) = accepts w.trace s.fd in
      let (t, log, e) =
        write_link-sent env w path set l m fd k n o s.link s.at s.fd port.content s.node
          port.is_open waits taken took in
      (
        t,
        device_calls-OnlyLog log,
        rw
            (
              write_handler-virtual env w s.link s.at s.fd port.content s.node m n port.is_open
                  port.virtual port.of_master o.node_at,
              o.back,
            )
            e,
      )

  All-IsPort-trace :
      (w : World) (t : List Call) (ss : List Port)
      → All (IsPort w m) ss
      → All (IsPort (record w { trace = t }) m) ss
  All-IsPort-trace w t [] all = tt
  All-IsPort-trace w t (s ∷ ss) (port, all) = (
    record {
      content = port.content;
      is_open = IsOpen-trace port.is_open;
      virtual = port.virtual;
      of_master = port.of_master;
    },
    All-IsPort-trace w t ss all,
  )

  -- Data that waits on a master is written to each of its open virtuals that is served, in their
  -- order and unchanged; nothing else happens but log output.
  pub serve-delivered :
      (w : World) (ss : List Port)
      → w.server.logfile ≡ some path
      → IsOpen w l k m n fd
      → All (IsPort w m) ss
      → (t : List Call) × (device_calls t ≡ delivered (pending k) ss (device_calls w.trace))
        × (serve env ss w ≡ done tt (record w { trace = t }))
  unfolding serve delivered
  serve-delivered w [] set o all = (w.trace, refl, refl)
  serve-delivered w (s ∷ ss) set o (port, all) =
      let (t, same, e) = write_port w s set o port in
      let w1 : World = record w { trace = t } in
      let (t', same', e') =
        serve-delivered w1 ss set (IsOpen-trace o) (All-IsPort-trace w t ss all) in
      (t', same' ∙ ap (delivered (pending k) ss) same, rw e e')
