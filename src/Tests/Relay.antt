-- ===== src/Tests/Relay.antt =====
-- The theorems on streams of bytes on the small configuration.
use serial_proxy_c.Prelude.{◌+◌, ◌≡◌, refl, some, List, [], ◌∷◌, ◌++◌, arith}
use serial_proxy_c.Machine.Types.{Call}
use serial_proxy_c.Machine.Monad.{done, ◌>>◌}
use serial_proxy_c.Machine.Returns.{Returns}
use serial_proxy_c.Log.Laws.{device_calls}
use serial_proxy_c.Serial.Nodes.Chain.{first_with}
use serial_proxy_c.Serial.Link.{ae_readable, ae_writable}
use serial_proxy_c.Serial.Transfer.{event_handler}
use serial_proxy_c.Serial.Transfer.Read.{filled}
use serial_proxy_c.Serial.Transfer.Proxy.{Port}
use serial_proxy_c.Serial.Transfer.FanOut.{with_link}
use serial_proxy_c.Serial.Transfer.Twice.{event_handler-twice}
use serial_proxy_c.Serial.Relay.{sent, relay}
use serial_proxy_c.Serial.Relay.Streams.{share}
use serial_proxy_c.Serial.Relay.Rounds.{IsReady, relay-sent}
use serial_proxy_c.Tests.Setup.{
  env, world, master, writer, reader, writer-IsOpen, link_of, virtuals, virtuals_of, forest,
  master-IsOpen, writer_port, reader_port, writer-IsPort, reader-IsPort,
}

abbrev ports : List Port
ports = reader_port ∷ writer_port ∷ []

world-IsReady : IsReady [] (1 ∷ []) virtuals_of 4 1 10 ports world
world-IsReady = record {
  logfile = refl;
  forest = forest;
  live = ((link_of 10 1, refl), ((link_of 12 3, refl), ((link_of 11 2, refl), tt)));
  content = link_of 10 1;
  node = master;
  device = master-IsOpen;
  ports = (reader-IsPort, (writer-IsPort, tt));
}

relay-sent_example :
    Returns
      (λ xs u. sent env 12 u.trace ≡ sent env 12 [] ++ share 12 ports xs)
      (relay env 4 10 ports 2 world)
relay-sent_example =
    relay-sent [] (1 ∷ []) virtuals_of 4 1 10 ports env (λ h d bytes. refl) (refl, (refl, tt))
      (omega arith, (omega arith, tt)) (λ h. (104, 105 ∷ [], refl)) 12 2 world world-IsReady

-- The writer's buffer holds the bytes 1, 2 and 3, and the device brings "hi".
event_handler-twice_example :
    (t : List Call) × (device_calls t
      ≡ Call.write 10 (1 ∷ 2 ∷ 3 ∷ []) ∷ Call.write 10 (1 ∷ 2 ∷ 3 ∷ []) ∷ Call.read 10 4 ∷ [])
    × ((event_handler env (some 4) (ae_readable + ae_writable)
            >> event_handler env (some 4) ae_writable)
          world
        ≡ done tt (with_link world 4 (filled (link_of 10 1) (104 ∷ 105 ∷ [])) t))
unfolding first_with
event_handler-twice_example =
    event_handler-twice env [] 4 1 10 master virtuals 5 2 11 (link_of 11 2) writer refl refl refl
      (λ h fd. (2, refl)) world (link_of 10 1) 104 (105 ∷ []) refl master-IsOpen writer-IsOpen
      (omega arith) ((refl, reader, refl, (refl, writer, refl, refl)), omega arith) refl refl
