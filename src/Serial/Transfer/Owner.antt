-- ===== src/Serial/Transfer/Owner.antt =====
-- Links that are in use: the facts that a read or a write of the proxy relies on.
use serial_proxy_c.Prelude.{ℕ, ◌≡◌, some, Option, List}
use serial_proxy_c.Machine.Types.{Node, Link, Call, World}
use serial_proxy_c.Machine.Monad.{done}
use serial_proxy_c.Machine.Memory.{load_node-some}
use serial_proxy_c.Serial.Transfer.{name_of_owner}

-- `l` is the link `k` of the node `n` at `p`, open on the descriptor `fd`.
pub record IsOpen (w : World) (l : ℕ) (k : Link) (p : ℕ) (n : Node) (fd : ℕ) : Type 0 where
  pub link_at : w.links l ≡ some k
  pub node_at : w.nodes p ≡ some n
  pub owner : k.node ≡ some p
  pub descriptor : k.fd ≡ some fd
  pub back : n.link ≡ some l

pub IsOpen-trace :
    {w : World} {l p fd : ℕ} {k : Link} {n : Node} {t : List Call}
    → IsOpen w l k p n fd
    → IsOpen (record w { trace = t }) l k p n fd
IsOpen-trace o = record {
  link_at = o.link_at;
  node_at = o.node_at;
  owner = o.owner;
  descriptor = o.descriptor;
  back = o.back;
}

pub name_of_owner_lem :
    (w : World) (owner : Option ℕ) (p : ℕ) (n : Node)
    → owner ≡ some p
    → w.nodes p ≡ some n
    → name_of_owner owner w ≡ done tt w
unfolding name_of_owner
name_of_owner_lem w owner p n own at = rw (own, load_node-some w p at)
