-- ===== src/Serial/Link/Linked.antt =====
-- The links of src/serial.c as a whole: which node each belongs to, and what its buffer holds.
pub mod New
use serial_proxy_c.Prelude.{
  some-inj, ℕ, zero, suc, ◌≡◌, refl, inl, inr, ◌∙◌, ap, sym, subst, ◌≤◌, ◌<◌, none, some, List,
  length, replicate, arith, Bool-cases, ◌==◌,
}
use serial_proxy_c.Machine.Types.{Node, Link, Server, Call, Env, World}
use serial_proxy_c.Machine.Monad.{update}
use serial_proxy_c.Machine.Memory.{update_same}
use serial_proxy_c.Serial.Link.Close.{closed}
use serial_proxy_c.Serial.Link.Descriptors.{open_fds}
use serial_proxy_c.Serial.Link.Accounts.{
  AllOpen, Balanced, AllOpen-Balanced, Balanced-fds, Balanced-closed, Balanced-changed,
}
use serial_proxy_c.Serial.Transfer.Owner.{IsOpen}

-- The array of a link has its size, and holds what is said to wait in it.
abbrev pub Fits : Env → Link → Type 0
Fits env k = (length k.recvbuf ≡ env.buf_size) × (k.recvbuflen ≤ env.buf_size)

-- The link of every node is live, was given out, and names the node as its owner. Every live link is
-- open and belongs to a node that has it. Every descriptor that links hold is open, at least as often
-- as they hold it.
pub record IsLinked (env : Env) (w : World) : Type 0 where
  pub back :
      (p : ℕ) (n : Node) (l : ℕ)
      → w.nodes p ≡ some n
      → n.link ≡ some l
      → (l < w.fresh) × (k : Link) × (w.links l ≡ some k) × (k.node ≡ some p)
  pub owned :
      (l : ℕ) (k : Link)
      → w.links l ≡ some k
      → (p : ℕ) × (n : Node) × (fd : ℕ) × IsOpen w l k p n fd × Fits env k
  pub open_all : AllOpen env w

module _ (env : Env) (w : World) (is : IsLinked env w) where
  -- The settings do not matter, nor does the history beyond the open descriptors.
  pub IsLinked-aside :
      (s : Server) (t : List Call)
      → open_fds env t ≡ open_fds env w.trace
      → IsLinked env (record w { server = s; trace = t })
  IsLinked-aside s t same = record {
    open_all =
        AllOpen-Balanced env w (record w { server = s; trace = t })
          (Balanced-fds env w (record w { server = s; trace = t }) same (λ d. refl)) is.open_all;
    back = is.back;
    owned = λ l k at.
        let (p, n, fd, o, fits) = is.owned l k at in
        (
          p,
          n,
          fd,
          record {
            link_at = o.link_at;
            node_at = o.node_at;
            owner = o.owner;
            descriptor = o.descriptor;
            back = o.back;
          },
          fits,
        );
  }

  pub closed-Balanced :
      (l p fd flags : ℕ) (k : Link) (n : Node) (t : List Call)
      → IsOpen w l k p n fd
      → open_fds env t ≡ open_fds env w.trace
      → Balanced env w (closed (record w { trace = t }) l k.sfd p n fd flags)
  closed-Balanced l p fd flags k n t o same_fds =
      let (below, live, at, own) = is.back p n l o.node_at o.back in
      Balanced-closed env w l p fd flags k n t o.link_at o.descriptor below is.open_all same_fds

  pub IsLinked-closed :
      (l p fd flags : ℕ) (k : Link) (n : Node) (t : List Call)
      → IsOpen w l k p n fd
      → open_fds env t ≡ open_fds env w.trace
      → IsLinked env (closed (record w { trace = t }) l k.sfd p n fd flags)
  IsLinked-closed l p fd flags k n t o same_fds = record {
    open_all =
        AllOpen-Balanced env w (closed (record w { trace = t }) l k.sfd p n fd flags)
          (closed-Balanced l p fd flags k n t o same_fds) is.open_all;
    back = λ q m l' at e. elim (Bool-cases (q == p)) [
      | inl here ↦
          let same : m ≡ record n { link = none } = ground arith in
          let unlinked : m.link ≡ none = ap (λ (x : Node). x.link) same in cc
      | inr away ↦
          let old : w.nodes q ≡ some m = ground arith in
          let (below, j, live, own) = is.back q m l' old e in
          elim (Bool-cases (l' == l)) [
            | inl hit ↦
                let address : l' ≡ l = ground arith in
                let live' : w.links l ≡ some j = ap w.links (sym address) ∙ live in
                let same : j ≡ k = some-inj (sym live' ∙ o.link_at) in
                let owner : some q ≡ some p = sym own ∙ ap (λ (x : Link). x.node) same ∙ o.owner in
                absurd (ground arith)
            | inr miss ↦ (below, j, ground arith, own)
          ]
    ];
    owned = λ l' k' at. elim (Bool-cases (l' == l)) [
      | inl hit ↦ absurd (ground arith)
      | inr miss ↦
          let old : w.links l' ≡ some k' = ground arith in
          let (p', n', fd', o', fits) = is.owned l' k' old in
          elim (Bool-cases (p' == p)) [
            | inl here ↦
                let address : p' ≡ p = ground arith in
                let at' : w.nodes p ≡ some n' = ap w.nodes (sym address) ∙ o'.node_at in
                let same : n' ≡ n = some-inj (sym at' ∙ o.node_at) in
                let link : some l' ≡ some l =
                  sym o'.back ∙ ap (λ (x : Node). x.link) same ∙ o.back in
                absurd (ground arith)
            | inr away ↦ (
              p',
              n',
              fd',
              record {
                link_at = at;
                node_at = ground (arith, o'.node_at);
                owner = o'.owner;
                descriptor = o'.descriptor;
                back = o'.back;
              },
              fits,
            )
          ]
    ];
  }

  -- The content of a live link changes, but not where it belongs.
  pub IsLinked-changed :
      (l : ℕ) (k k' : Link) (t : List Call)
      → w.links l ≡ some k
      → k'.node ≡ k.node
      → k'.fd ≡ k.fd
      → k'.sfd ≡ k.sfd
      → Fits env k'
      → open_fds env t ≡ open_fds env w.trace
      → IsLinked env (record w { links = update w.links l (some k'); trace = t })
  IsLinked-changed l k k' t at node fd sfd fits same_fds = record {
    open_all =
        AllOpen-Balanced env w (record w { links = update w.links l (some k'); trace = t })
          (Balanced-changed env w l k k' t at fd sfd same_fds) is.open_all;
    back = λ q m l' at' e.
        let (below, j, live, own) = is.back q m l' at' e in
        elim (Bool-cases (l' == l)) [
          | inl hit ↦
              let address : l' ≡ l = ground arith in
              let live' : w.links l ≡ some j = ap w.links (sym address) ∙ live in
              let same : j ≡ k = some-inj (sym live' ∙ at) in
              (below, k', ground arith, node ∙ ap (λ (x : Link). x.node) (sym same) ∙ own)
          | inr miss ↦ (below, j, ground arith, own)
        ];
    owned = λ l' j at'. elim (Bool-cases (l' == l)) [
      | inl hit ↦
          let address : l' ≡ l = ground arith in
          let same : j ≡ k' = ground arith in
          let (p, n, d, o, old) = is.owned l k at in
          (
            p,
            n,
            d,
            record {
              link_at = at';
              node_at = o.node_at;
              owner = ap (λ (x : Link). x.node) same ∙ node ∙ o.owner;
              descriptor = ap (λ (x : Link). x.fd) same ∙ fd ∙ o.descriptor;
              back = o.back ∙ ap some (sym address);
            },
            subst (Fits env) (sym same) fits,
          )
      | inr miss ↦
          let old : w.links l' ≡ some j = ground arith in
          let (p, n, d, o, fits') = is.owned l' j old in
          (
            p,
            n,
            d,
            record {
              link_at = at';
              node_at = o.node_at;
              owner = o.owner;
              descriptor = o.descriptor;
              back = o.back;
            },
            fits',
          )
    ];
  }
