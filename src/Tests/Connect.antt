-- ===== src/Tests/Connect.antt =====
-- The theorems on opening links, on serverCron and on the file of devices, on the small configuration
-- before it is connected.
use serial_proxy_c.Prelude.{
  ◌≡◌, refl, ◌⊎◌, inl, inr, sym, subst, true, ℕ, Option, none, some, List, [], ◌∷◌, arith, All,
}
use serial_proxy_c.Prelude.Int.{pos, ◌/ℤ◌}
use serial_proxy_c.Machine.Types.{Node, World}
use serial_proxy_c.Machine.Returns.{Returns}
use serial_proxy_c.Serial.Device.Configure.{HasSpeed}
use serial_proxy_c.Serial.Link.{connect_node}
use serial_proxy_c.Serial.Link.Connect.{Connected, connect_node-Connected}
use serial_proxy_c.Serial.Link.Accounts.{AllOpen-none}
use serial_proxy_c.Serial.Link.Linked.{IsLinked}
use serial_proxy_c.Serial.Nodes.{node_is_master, node_is_virtual}
use serial_proxy_c.Serial.Nodes.Tree.{IsTree, IsLeaf}
use serial_proxy_c.Serial.Upkeep.{reconnect}
use serial_proxy_c.Serial.Upkeep.Gains.{Gains}
use serial_proxy_c.Serial.Upkeep.Reconnect.{reconnect-Gains}
use serial_proxy_c.Serial.Nodes.Lists.{IsVirtuals}
use serial_proxy_c.Daemon.Cron.{server_cron}
use serial_proxy_c.Daemon.Cron.Round.{Counted, server_cron-Counted}
use serial_proxy_c.Tests.Setup.{env, world, master, writer, reader, nodes, virtuals}

abbrev unlinked : Option Node → Option Node
unlinked none = none
unlinked (some n) = some (record n { link = none })

-- The configuration before any device is opened.
abbrev pub asleep : World
asleep = record world { nodes = λ p. unlinked (nodes p); links = λ l. none }

link_of_unlinked : (o : Option Node) (m : Node) → unlinked o ≡ some m → m.link ≡ none
link_of_unlinked none m at = cc
link_of_unlinked (some n) m at = ground arith

pub asleep-IsLinked : IsLinked env asleep
asleep-IsLinked = record {
  back = λ p n l at e. let free : n.link ≡ none = link_of_unlinked (nodes p) n at in cc;
  owned = λ l k at. absurd (ground arith);
  open_all = AllOpen-none env asleep (λ l. refl);
}

pub speed : HasSpeed env (pos 9600)
unfolding ◌/ℤ◌
speed = inr (refl, λ h d. omega arith)

connect_node-Connected_example :
    Returns
      (Connected env asleep 1 (record master { link = none }) virtuals)
      (connect_node env 1 asleep)
connect_node-Connected_example =
    connect_node-Connected env asleep 1 (record master { link = none }) virtuals refl
      (
        (
          refl,
          record reader { link = none },
          refl,
          (refl, record writer { link = none }, refl, refl),
        ),
        omega arith,
      )
      [] refl (λ e. speed) refl refl

abbrev pub idle : Node → Node
idle n = record n { link = none }

-- What holds of the three nodes, each at its address, holds of all.
each_node :
    (P : ℕ → Node → Type 0)
    → P 1 (idle master)
    → P 2 (idle writer)
    → P 3 (idle reader)
    → (p : ℕ) (n : Node) → asleep.nodes p ≡ some n
    → P p n
each_node P one two three p n at = elim (three_cases p n at) [
  | inl (a, e) ↦ subst (λ x. P x n) (sym a) (subst (P 1) (sym e) one)
  | inr (inl (a, e)) ↦ subst (λ x. P x n) (sym a) (subst (P 2) (sym e) two)
  | inr (inr (a, e)) ↦ subst (λ x. P x n) (sym a) (subst (P 3) (sym e) three)
]
  where
    three_cases :
        (p : ℕ) (n : Node)
        → asleep.nodes p ≡ some n
        → ((p ≡ 1) × (n ≡ idle master))
          ⊎ (((p ≡ 2) × (n ≡ idle writer)) ⊎ ((p ≡ 3) × (n ≡ idle reader)))
    three_cases p n at = ground arith

pub asleep-IsTree : IsTree env asleep
asleep-IsTree = record {
  masters = (
    1 ∷ [],
    ((refl, idle master, refl, refl), omega arith),
    ((idle master, refl, refl, refl, refl), tt),
  );
  virtuals =
      each_node (λ p n. (vs : List ℕ) × IsVirtuals asleep n vs × All (IsLeaf asleep.nodes p) vs)
        (
          virtuals,
          ((refl, idle reader, refl, (refl, idle writer, refl, refl)), omega arith),
          (
            (idle reader, refl, refl, refl, refl, refl),
            ((idle writer, refl, refl, refl, refl, refl), tt),
          ),
        )
        ([], (refl, omega arith), tt) ([], (refl, omega arith), tt);
  parent =
      each_node
        (λ p n.
          node_is_virtual n ≡ true
          → (m : ℕ) × (mn : Node) × (n.virtualof ≡ some m) × (asleep.nodes m ≡ some mn))
        (λ e. cc) (λ e. (1, idle master, refl, refl)) (λ e. (1, idle master, refl, refl));
  speed =
      each_node (λ p n. node_is_master n ≡ true → HasSpeed env n.baudrate) (λ e. speed) (λ e. speed)
        (λ e. speed);
}

reconnect-Gains_example : Returns (λ r. Gains env asleep) (reconnect env asleep)
reconnect-Gains_example =
    reconnect-Gains env asleep [] refl (λ h. refl) asleep-IsTree asleep-IsLinked

server_cron-Counted_example : Returns (Counted env asleep) (server_cron env asleep)
server_cron-Counted_example =
    server_cron-Counted env asleep [] refl (λ h. refl) asleep-IsLinked asleep-IsTree (omega arith)
      (omega arith)
