-- ===== src/Tests/Transfer.antt =====
-- The proxy's theorems on the small configuration.
use serial_proxy_c.Prelude.{ℕ, ◌+◌, ◌≡◌, refl, none, some, List, [], ◌∷◌, arith}
use serial_proxy_c.Machine.Types.{Call, Fault}
use serial_proxy_c.Machine.Monad.{done, fault, ◌>>◌}
use serial_proxy_c.Log.Laws.{device_calls, OnlyLog}
use serial_proxy_c.Serial.Nodes.Chain.{first_with}
use serial_proxy_c.Serial.Link.{ae_readable, ae_writable}
use serial_proxy_c.Serial.Link.Flags.{flags_of}
use serial_proxy_c.Serial.Link.Close.{closed}
use serial_proxy_c.Serial.Transfer.{read_handler, write_link, event_handler}
use serial_proxy_c.Serial.Transfer.Read.{filled, read_handler-closed}
use serial_proxy_c.Serial.Transfer.Write.{write_link-failed}
use serial_proxy_c.Serial.Transfer.Proxy.{Port, serve, delivered, Accepts}
use serial_proxy_c.Serial.Transfer.FanOut.{
  with_link, read_then_serve, read_then_write_master, event_handler-dangling,
}
use serial_proxy_c.Tests.Setup.{
  env, broken, stuck, world, master, writer, link_of, virtuals, master-IsOpen, writer-IsOpen,
  writer_port, reader_port, writer-IsPort, reader-IsPort,
}

abbrev hi : List ℕ
hi = 104 ∷ 105 ∷ []

abbrev ports : List Port
ports = reader_port ∷ writer_port ∷ []

env-Accepts : Accepts env hi
env-Accepts h fd = (1, refl)

read_then_serve_example :
    (t : List Call) × (device_calls t ≡ Call.write 11 hi ∷ Call.write 12 hi ∷ Call.read 10 4 ∷ [])
    × ((event_handler env (some 4) ae_readable >> serve env ports) world
        ≡ done tt (with_link world 4 (filled (link_of 10 1) hi) t))
unfolding delivered
read_then_serve_example =
    read_then_serve env world [] refl 4 1 10 (link_of 10 1) master master-IsOpen 104 (105 ∷ []) refl
      env-Accepts ports (omega arith, (omega arith, tt)) (reader-IsPort, (writer-IsPort, tt))

read_then_write_master_example :
    (t : List Call) × (device_calls t ≡ Call.write 10 hi ∷ Call.read 11 4 ∷ [])
    × ((event_handler env (some 5) ae_readable >> event_handler env (some 4) ae_writable) world
        ≡ done tt (with_link world 5 (filled (link_of 11 2) hi) t))
unfolding first_with
read_then_write_master_example =
    read_then_write_master env world [] refl 5 2 11 (link_of 11 2) writer writer-IsOpen 104
      (105 ∷ []) refl env-Accepts 4 1 10 (link_of 10 1) master virtuals master-IsOpen (omega arith)
      refl refl ((refl, _, refl, (refl, writer, refl, refl)), omega arith) refl

event_handler-dangling_example :
    event_handler broken (some 4) (ae_readable + ae_writable) world ≡ fault Fault.dangling_pointer
event_handler-dangling_example =
    event_handler-dangling broken world [] 4 1 10 (link_of 10 1) master virtuals refl master-IsOpen
      ((refl, _, refl, (refl, writer, refl, refl)), omega arith) refl refl

read_handler-closed_example :
    (t : List Call) × OnlyLog (Call.read 10 4 ∷ []) t
    × (read_handler broken 4 world
        ≡ done tt (closed (record world { trace = t }) 4 none 1 master 10 3))
unfolding flags_of first_with
read_handler-closed_example =
    read_handler-closed broken world 4 1 10 (link_of 10 1) master [] refl master-IsOpen virtuals
      ((refl, _, refl, (refl, writer, refl, refl)), omega arith) refl refl

write_link-failed_example :
    (t : List Call) × OnlyLog (Call.write 11 (1 ∷ 2 ∷ 3 ∷ []) ∷ []) t
    × (write_link stuck (some 4) 5 world
        ≡ done tt (closed (record world { trace = t }) 5 none 2 writer 11 3))
unfolding flags_of first_with
write_link-failed_example =
    write_link-failed stuck world [] refl 4 1 10 (link_of 10 1) master master-IsOpen 5 2 11
      (link_of 11 2) writer writer-IsOpen refl [] (refl, omega arith) refl
