-- ===== src/Serial/Sound.antt =====
-- The state of src/serial.c between two events, and what the event handlers make of it.
pub mod Handlers
use serial_proxy_c.Prelude.{
  ℕ, ◌≡◌, refl, inl, inr, ◌∙◌, ap, arith, Option, none, some, List, Bool-cases, ◌==◌,
}
use serial_proxy_c.Prelude.Text.{Text}
use serial_proxy_c.Machine.Types.{Node, Link, Server, Call, Env, World}
use serial_proxy_c.Machine.Monad.{update}
use serial_proxy_c.Serial.Nodes.Chain.{Nodes}
use serial_proxy_c.Serial.Nodes.Tree.{SameNodes, IsTree, IsTree-same, strip}
use serial_proxy_c.Serial.Link.Close.{closed}
use serial_proxy_c.Serial.Link.Linked.{
  IsLinked, Fits, IsLinked-aside, IsLinked-closed, IsLinked-changed, closed-Balanced,
}
use serial_proxy_c.Serial.Link.Descriptors.{open_fds}
use serial_proxy_c.Serial.Link.Accounts.{Balanced, Balanced-fds, Balanced-changed}
use serial_proxy_c.Serial.Transfer.Owner.{IsOpen}

-- A log file is set, the lists are well formed, and nodes and links lead to each other.
pub record IsSound (env : Env) (path : Text) (w : World) : Type 0 where
  pub logfile : w.server.logfile ≡ some path
  pub tree : IsTree env w
  pub linked : IsLinked env w

-- From `w` to `v` the settings, the addresses given out, and all nodes but for their links are kept,
-- `v` is sound, and as many descriptors were opened as its links hold more.
pub record Goes (env : Env) (path : Text) (w v : World) : Type 0 where
  pub sound : IsSound env path v
  pub settings : v.server ≡ w.server
  pub same_fresh : v.fresh ≡ w.fresh
  pub same_tree : SameNodes w.nodes v.nodes
  pub balance : Balanced env w v

module _ (env : Env) (path : Text) (w : World) (sound : IsSound env path w) where
  Goes-intro :
      (v : World)
      → v.server ≡ w.server
      → v.fresh ≡ w.fresh
      → SameNodes w.nodes v.nodes
      → IsLinked env v
      → Balanced env w v
      → Goes env path w v
  Goes-intro v settings fresh same linked balance = record {
    sound = record {
      logfile = ap (λ (s : Server). s.logfile) settings ∙ sound.logfile;
      tree =
          IsTree-same env w v (ap (λ (s : Server). s.master_head) settings) (omega (arith, fresh))
            same sound.tree;
      linked = linked;
    };
    settings = settings;
    same_fresh = fresh;
    same_tree = same;
    balance = balance;
  }

  -- More calls were made, and the same descriptors are open.
  pub Goes-trace :
      (t : List Call)
      → open_fds env t ≡ open_fds env w.trace
      → Goes env path w (record w { trace = t })
  Goes-trace t fds =
      Goes-intro _ refl refl (λ p. refl) (IsLinked-aside env w sound.linked w.server t fds)
        (Balanced-fds env w _ fds (λ d. refl))

  -- A link was closed.
  pub Goes-closed :
      (l p fd flags : ℕ) (k : Link) (n : Node) (t : List Call)
      → IsOpen w l k p n fd
      → open_fds env t ≡ open_fds env w.trace
      → Goes env path w (closed (record w { trace = t }) l k.sfd p n fd flags)
  Goes-closed l p fd flags k n t o fds =
      Goes-intro _ refl refl same (IsLinked-closed env w sound.linked l p fd flags k n t o fds)
        (closed-Balanced env w sound.linked l p fd flags k n t o fds)
    where
      same : SameNodes w.nodes (update w.nodes p (some (record n { link = none })))
      same q = elim (Bool-cases (q == p)) [
        | inl here ↦ let address : q ≡ p = ground arith in rw (here, ap w.nodes address ∙ o.node_at)
        | inr away ↦ rw away
      ]

  -- The content of a link changed.
  pub Goes-changed :
      (l : ℕ) (k k' : Link) (t : List Call)
      → w.links l ≡ some k
      → k'.node ≡ k.node
      → k'.fd ≡ k.fd
      → k'.sfd ≡ k.sfd
      → Fits env k'
      → open_fds env t ≡ open_fds env w.trace
      → Goes env path w (record w { links = update w.links l (some k'); trace = t })
  Goes-changed l k k' t at node fd sfd fits fds =
      Goes-intro _ refl refl (λ p. refl)
        (IsLinked-changed env w sound.linked l k k' t at node fd sfd fits fds)
        (Balanced-changed env w l k k' t at fd sfd fds)
