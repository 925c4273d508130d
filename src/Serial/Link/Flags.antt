-- ===== src/Serial/Link/Flags.antt =====
-- Which events the link of a node is watched for.
use serial_proxy_c.Prelude.{
  ℕ, ◌≡◌, refl, inl, inr, Bool, ◌&&◌, ◌||◌, Option, none, some, List, arith, if◌then◌else◌, is_some,
  Bool-cases, ap,
}
use serial_proxy_c.Prelude.Flags.{has_flag, add_flag}
use serial_proxy_c.Prelude.Text.{codes}
use serial_proxy_c.Machine.Types.{Node, World}
use serial_proxy_c.Machine.Monad.{done}
use serial_proxy_c.Machine.Memory.{load_node-some}
use serial_proxy_c.Machine.Returns.{Returns, returned}
use serial_proxy_c.Serial.Nodes.{node_is_master, node_is_virtual, node_is_writer}
use serial_proxy_c.Serial.Nodes.Chain.{Nodes, first_with}
use serial_proxy_c.Serial.Nodes.Lists.{IsVirtuals, get_virtual_writer_node-first_with}
use serial_proxy_c.Serial.Link.{
  ae_readable, ae_writable, master_flags, virtual_flags, event_flags, event_string, flags_text,
}

abbrev pub has_writer : Nodes → List ℕ → Bool
has_writer nodes vs = is_some (first_with node_is_writer nodes vs)

-- The flags of the node `n` whose virtuals are `vs`.
unfoldable pub flags_of : Nodes → List ℕ → Node → ℕ
unfolding virtual_flags
flags_of nodes vs n =
    if node_is_master n
    then (if has_writer nodes vs then add_flag ae_readable ae_writable else ae_readable)
    else if node_is_virtual n
    then virtual_flags n
    else 0

-- _serialEventFlags changes nothing and returns these flags.
pub event_flags-flags_of :
    (w : World) (p : ℕ) (n : Node) (vs : List ℕ)
    → w.nodes p ≡ some n
    → IsVirtuals w n vs
    → event_flags p w ≡ done (flags_of w.nodes vs n) w
unfolding event_flags flags_of master_flags
event_flags-flags_of w p n vs at is =
    rw (load_node-some w p at) (elim (Bool-cases (node_is_master n)) [
      | inl master ↦ rw (master, get_virtual_writer_node-first_with w p n vs at is)
      | inr other ↦ elim (Bool-cases (node_is_virtual n)) [
        | inl virtual ↦ rw (other, virtual)
        | inr neither ↦ rw (other, neither)
      ]
    ])

-- A link is read from if it belongs to a master, or to a virtual that is a writer; it is written to
-- if it belongs to a virtual, or to a master that has a writer among its virtuals.
pub event_flags-directions :
    (w : World) (p : ℕ) (n : Node) (vs : List ℕ)
    → w.nodes p ≡ some n
    → IsVirtuals w n vs
    → Returns
        (λ flags w'.
          (w' ≡ w)
          × (has_flag flags ae_readable
              ≡ (node_is_master n || (node_is_virtual n && node_is_writer n)))
          × (has_flag flags ae_writable
              ≡ (if node_is_master n then has_writer w.nodes vs else node_is_virtual n)))
        (event_flags p w)
event_flags-directions w p n vs at is =
    rw (event_flags-flags_of w p n vs at is) (returned (refl, readable, writable))
  where
    readable :
        has_flag (flags_of w.nodes vs n) ae_readable
        ≡ (node_is_master n || (node_is_virtual n && node_is_writer n))
    readable = unfold flags_of in ground arith

    writable :
        has_flag (flags_of w.nodes vs n) ae_writable
        ≡ (if node_is_master n then has_writer w.nodes vs else node_is_virtual n)
    writable = unfold flags_of in ground arith

-- The text for the log is "rw" for every watched link, also for one that is only read or written.
pub event_string-rw :
    (w : World) (p : ℕ) (n : Node) (vs : List ℕ)
    → w.nodes p ≡ some n
    → IsVirtuals w n vs
    → event_string p w
      ≡ done (if node_is_master n || node_is_virtual n then some (codes "rw") else none) w
unfolding event_string
event_string-rw w p n vs at is =
    rw (event_flags-flags_of w p n vs at is)
      (ap (λ (t : Option (List ℕ)). done t w) (flags_text_lem n))
  where
    flags_text_lem :
        (m : Node)
        → flags_text (flags_of w.nodes vs m)
          ≡ (if node_is_master m || node_is_virtual m then some (codes "rw") else none)
    flags_text_lem m = unfold flags_of flags_text in ground arith
