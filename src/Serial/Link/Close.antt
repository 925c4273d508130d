-- ===== src/Serial/Link/Close.antt =====
-- What closing a link does: _serialFreeLink on a link with an owner, and on one without.
use serial_proxy_c.Prelude.{ℕ, ◌≡◌, refl, Option, none, some, List, [], ◌∷◌, ◌++◌, ap, ◌∙◌}
use serial_proxy_c.Machine.Types.{Node, Link, Call, World}
use serial_proxy_c.Machine.Monad.{done, update}
use serial_proxy_c.Machine.Memory.{load_link-some, change_node-some}
use serial_proxy_c.Serial.Nodes.Lists.{IsVirtuals}
use serial_proxy_c.Serial.Link.{unwatch, leave_node, close_descriptor, free_link, link_io_error}
use serial_proxy_c.Serial.Link.Flags.{flags_of, event_flags-flags_of}

-- The call that closes a descriptor, if there is one.
abbrev pub closing : Option ℕ → List Call
closing none = []
closing (some fd) = Call.close fd ∷ []

close_descriptor_lem :
    (w : World) (fd : Option ℕ)
    → close_descriptor fd w ≡ done tt (record w { trace = closing fd ++ w.trace })
unfolding close_descriptor
close_descriptor_lem w none = refl
close_descriptor_lem w (some fd) = refl

module _ (w : World) (p : ℕ) (n : Node) (at : w.nodes p ≡ some n) where
  unwatch_lem :
      (fd : ℕ) (vs : List ℕ) (descriptor owner : Option ℕ)
      → IsVirtuals w n vs
      → descriptor ≡ some fd
      → owner ≡ some p
      → unwatch descriptor owner w
        ≡ done tt (record w { trace = Call.delete_file_event fd (flags_of w.nodes vs n) ∷ w.trace })
  unfolding unwatch
  unwatch_lem fd vs descriptor owner is e own = rw (e, own, event_flags-flags_of w p n vs at is)

  leave_node_lem :
      (owner : Option ℕ)
      → owner ≡ some p
      → leave_node owner w
        ≡ done tt (record w { nodes = update w.nodes p (some (record n { link = none })) })
  unfolding leave_node
  leave_node_lem owner own = rw own (change_node-some w p (λ m. record m { link = none }) at)

-- The world after the link `l` of the node `p`, with the descriptors `fd` and `sfd`, is closed.
abbrev pub closed : World → ℕ → Option ℕ → ℕ → Node → ℕ → ℕ → World
closed w l sfd p n fd flags = record w {
  nodes = update w.nodes p (some (record n { link = none }));
  links = update w.links l none;
  trace = closing sfd ++ (Call.close fd ∷ Call.delete_file_event fd flags ∷ w.trace);
}

unwatch-none :
    (w : World) (descriptor owner : Option ℕ)
    → owner ≡ none
    → unwatch descriptor owner w ≡ done tt w
unfolding unwatch
unwatch-none w none owner e = refl
unwatch-none w (some fd) owner e = rw e

leave_node-none : (w : World) (owner : Option ℕ) → owner ≡ none → leave_node owner w ≡ done tt w
unfolding leave_node
leave_node-none w owner e = rw e

-- A link with an owner: its events are deleted, the owner forgets it, both descriptors are closed in
-- that order, and its memory is given back.
pub free_link-closed :
    (w : World) (l : ℕ) (k : Link) (p : ℕ) (n : Node) (fd : ℕ) (vs : List ℕ)
    → w.links l ≡ some k
    → k.node ≡ some p
    → k.fd ≡ some fd
    → w.nodes p ≡ some n
    → IsVirtuals w n vs
    → free_link l w ≡ done tt (closed w l k.sfd p n fd (flags_of w.nodes vs n))
unfolding free_link
free_link-closed w l k p n fd vs atl own open_fd atn is =
    let flags = flags_of w.nodes vs n in
    let w1 : World = record w { trace = Call.delete_file_event fd flags ∷ w.trace } in
    let w2 : World = record w1 { nodes = update w.nodes p (some (record n { link = none })) } in
    let w3 : World = record w2 { trace = Call.close fd ∷ w1.trace } in
    let close_fd : close_descriptor k.fd w2 ≡ done tt w3 =
      close_descriptor_lem w2 k.fd
      ∙ ap (λ (d : Option ℕ). done tt (record w2 { trace = closing d ++ w2.trace })) open_fd in
    rw (
      load_link-some w l atl,
      unwatch_lem w p n atn fd vs k.fd k.node is open_fd own,
      leave_node_lem w1 p n atn k.node own,
      close_fd,
      close_descriptor_lem w3 k.sfd,
    )

-- A link without an owner, as at the label `err` of _serialCreateLink: its descriptors are closed, its
-- memory is given back, and no node changes.
pub link_io_error-unowned :
    (w : World) (l : ℕ) (k : Link)
    → w.links l ≡ some k
    → k.node ≡ none
    → link_io_error l w
      ≡ done tt (record w {
        links = update w.links l none;
        trace = closing k.sfd ++ (closing k.fd ++ w.trace);
      })
unfolding link_io_error free_link
link_io_error-unowned w l k at free =
    let w1 : World = record w { trace = closing k.fd ++ w.trace } in
    rw (
      load_link-some w l at,
      unwatch-none w k.fd k.node free,
      leave_node-none w k.node free,
      close_descriptor_lem w k.fd,
      close_descriptor_lem w1 k.sfd,
    )
