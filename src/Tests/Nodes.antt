-- ===== src/Tests/Nodes.antt =====
-- The theorems on lists of nodes, event flags, buffers and the log on the small configuration.
use serial_proxy_c.Prelude.{
  ◌+◌, Bool, true, false, ◌≡◌, refl, none, some, [], ◌∷◌, ◌&&◌, ◌||◌, arith, if◌then◌else◌,
}
use serial_proxy_c.Prelude.Flags.{has_flag}
use serial_proxy_c.Prelude.Text.{codes, text_eq}
use serial_proxy_c.Machine.Types.{Node, Call, World, Fault}
use serial_proxy_c.Machine.Monad.{done, fault, update}
use serial_proxy_c.Machine.Returns.{Returns}
use serial_proxy_c.Log.{server_log}
use serial_proxy_c.Log.Laws.{server_log_needs_logfile}
use serial_proxy_c.Log.Files.{open_files, server_log-open_files}
use serial_proxy_c.Serial.Nodes.{
  node_is_master, node_is_virtual, node_is_writer, get_node, add_node, add_virtual_node,
  remove_virtual_node, del_node,
}
use serial_proxy_c.Serial.Nodes.Chain.{IsChain, first_with}
use serial_proxy_c.Serial.Nodes.Lists.{get_node-first_with, add_node-cons}
use serial_proxy_c.Serial.Nodes.Unlink.{
  adopted, add_virtual_node-cons, remove_virtual_node-empties, del_node-empties,
}
use serial_proxy_c.Serial.Link.{ae_readable, ae_writable, event_flags, event_string, free_link}
use serial_proxy_c.Serial.Link.Flags.{has_writer, flags_of, event_flags-directions, event_string-rw}
use serial_proxy_c.Serial.Link.Close.{closed, free_link-closed}
use serial_proxy_c.Serial.Upkeep.{serial_before_sleep}
use serial_proxy_c.Serial.Upkeep.Sleep.{emptied, serial_before_sleep-emptied}
use serial_proxy_c.Tests.Setup.{
  env, world, master, writer, reader, link_of, server, nodes, links, virtuals, virtuals_of, forest,
}

get_node-first_with_example : get_node (codes "/dev/a") world ≡ done (some 1) world
unfolding first_with text_eq
get_node-first_with_example =
    get_node-first_with world (codes "/dev/a") (1 ∷ []) ((refl, master, refl, refl), omega arith)

-- A new node at address 8.
abbrev spare : Node
spare = record master { link = none; virtual_head = none }

abbrev wider : World
wider = record world { nodes = update nodes 8 (some spare); fresh = 9 }

add_node-cons_example :
    Returns
      (λ r w'.
        IsChain w'.nodes w'.server.master_head (8 ∷ 1 ∷ [])
        × (w' ≡ record wider {
          server = record server { master_head = some 8 };
          nodes = update wider.nodes 8 (some (record spare { next = some 1 }));
        }))
      (add_node 8 wider)
add_node-cons_example =
    add_node-cons wider 8 spare (1 ∷ []) refl refl refl (refl, master, refl, refl)

add_virtual_node-cons_example :
    Returns
      (λ r w'.
        IsChain w'.nodes (some 8) (8 ∷ virtuals)
        × (w' ≡ record wider { nodes = adopted wider.nodes 1 master 8 spare }))
      (add_virtual_node 1 8 wider)
add_virtual_node-cons_example =
    add_virtual_node-cons wider 1 8 master spare virtuals refl refl refl (omega arith) refl
      (refl, reader, refl, (refl, writer, refl, refl))

-- The reader 3 is lost with the writer 2.
remove_virtual_node-empties_example :
    remove_virtual_node 1 2 world
    ≡ done tt (record world {
      nodes =
          update
            (update nodes 1 (some (record master { virtual_head = none })))
            2
            (some (record writer { next = none }));
    })
remove_virtual_node-empties_example =
    remove_virtual_node-empties world 1 2 master writer virtuals refl refl (omega arith)
      ((refl, reader, refl, (refl, writer, refl, refl)), omega arith)

del_node-empties_example :
    del_node 1 world
    ≡ done tt (record world {
      server = record server { master_head = none };
      nodes = update nodes 1 (some (record master { next = none }));
    })
del_node-empties_example =
    del_node-empties world 1 master (1 ∷ []) refl ((refl, master, refl, refl), omega arith)

event_flags-directions_example :
    Returns
      (λ flags w'.
        (w' ≡ world)
        × (has_flag flags ae_readable
            ≡ (node_is_master master || (node_is_virtual master && node_is_writer master)))
        × (has_flag flags ae_writable ≡ (
            if node_is_master master then has_writer nodes virtuals else node_is_virtual master)))
      (event_flags 1 world)
event_flags-directions_example =
    event_flags-directions world 1 master virtuals refl
      ((refl, reader, refl, (refl, writer, refl, refl)), omega arith)

event_string-rw_example : event_string 3 world ≡ done (some (codes "rw")) world
event_string-rw_example = event_string-rw world 3 reader [] refl (refl, omega arith)

free_link-closed_example : free_link 4 world ≡ done tt (closed world 4 none 1 master 10 3)
unfolding flags_of first_with
free_link-closed_example =
    free_link-closed world 4 (link_of 10 1) 1 master 10 virtuals refl refl refl refl
      ((refl, reader, refl, (refl, writer, refl, refl)), omega arith)

serial_before_sleep-emptied_example :
    serial_before_sleep world
    ≡ done tt (record world {
      links = emptied (4 ∷ 6 ∷ 5 ∷ []) links;
      trace = Call.usleep 1_000_000 ∷ [];
    })
serial_before_sleep-emptied_example =
    serial_before_sleep-emptied world (1 ∷ []) virtuals_of forest
      ((link_of 10 1, refl), ((link_of 12 3, refl), ((link_of 11 2, refl), tt)))

server_log_needs_logfile_example :
    server_log env 3 (record world { server = record server { logfile = none } })
    ≡ fault Fault.null_pointer
server_log_needs_logfile_example =
    server_log_needs_logfile env 3 (record world { server = record server { logfile = none } }) refl

abbrev has_time : Call → Bool
has_time Call.gettimeofday = false
has_time _ = true

-- Without the time the log file stays open.
server_log-open_files_example :
    Returns
      (λ r u. open_files (record env { succeeds = λ h c. has_time c }) u.trace ≡ 0 + 1)
      (server_log
        (record env { succeeds = λ h c. has_time c })
        3
        (record world { server = record server { logfile = some (codes "log") } }))
server_log-open_files_example =
    server_log-open_files (record env { succeeds = λ h c. has_time c }) 3
      (record world { server = record server { logfile = some (codes "log") } }) (codes "log") refl
