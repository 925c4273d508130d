-- ===== src/Serial/Link/Linked/New.antt =====
-- A node gets a link, or the attempt fails: nodes and links lead to each other as before.
use serial_proxy_c.Prelude.{
  some-inj, ℕ, suc, ◌∷◌, ◌++◌, to_list, ◌≡◌, inl, inr, ◌∙◌, ap, sym, subst, none, some, List, arith,
  Bool-cases, ◌==◌,
}
use serial_proxy_c.Machine.Types.{Node, Link, Call, Env, World}
use serial_proxy_c.Machine.Monad.{update}
use serial_proxy_c.Machine.Memory.{update_same}
use serial_proxy_c.Serial.Link.Linked.{IsLinked, Fits}
use serial_proxy_c.Serial.Link.Descriptors.{open_fds}
use serial_proxy_c.Serial.Link.Accounts.{AllOpen-Balanced, Balanced-connected, Balanced-unconnected}

module _ (env : Env) (w : World) (is : IsLinked env w) (p : ℕ) (n : Node) (at : w.nodes p ≡ some n)
    (free : n.link ≡ none) where
  -- A new link for a node that has none, at the fresh address.
  pub IsLinked-connected :
      (k : Link) (fd : ℕ) (t : List Call)
      → k.node ≡ some p
      → k.fd ≡ some fd
      → Fits env k
      → open_fds env t ≡ to_list k.sfd ++ (fd ∷ open_fds env w.trace)
      → IsLinked env (record w {
        nodes = update w.nodes p (some (record n { link = some w.fresh }));
        links = update w.links w.fresh (some k);
        fresh = suc w.fresh;
        trace = t;
      })
  IsLinked-connected k fd t own open_on fits opened = record {
    open_all =
        AllOpen-Balanced env w _
          (Balanced-connected env w (update w.nodes p (some (record n { link = some w.fresh }))) k
            fd t open_on opened)
          is.open_all;
    back = λ q m l at' e. elim (Bool-cases (q == p)) [
      | inl here ↦
          let new : m ≡ record n { link = some w.fresh } = ground arith in
          let address : l ≡ w.fresh = ground (arith, ap (λ (x : Node). x.link) new) in
          (omega (arith, address), k, ground arith, ground arith)
      | inr away ↦
          let old : w.nodes q ≡ some m = ground arith in
          let (below, j, live, own') = is.back q m l old e in
          (omega (arith, below), j, ground arith, own')
    ];
    owned = λ l j at'. elim (Bool-cases (l == w.fresh)) [
      | inl here ↦
          let n' : Node = record n { link = some w.fresh } in
          let address : l ≡ w.fresh = ground arith in
          let same : j ≡ k = ground arith in
          (
            p,
            n',
            fd,
            record {
              link_at = at';
              node_at = update_same w.nodes p (some n');
              owner = ap (λ (x : Link). x.node) same ∙ own;
              descriptor = ap (λ (x : Link). x.fd) same ∙ open_on;
              back = ap some (sym address);
            },
            subst (Fits env) (sym same) fits,
          )
      | inr away ↦
          let old : w.links l ≡ some j = ground arith in
          let (p', n', d, o, fits') = is.owned l j old in
          elim (Bool-cases (p' == p)) [
            | inl hit ↦
                let address : p' ≡ p = ground arith in
                let at_p : w.nodes p ≡ some n' = ap w.nodes (sym address) ∙ o.node_at in
                let same : n' ≡ n = some-inj (sym at_p ∙ at) in
                let link : some l ≡ none = sym o.back ∙ ap (λ (x : Node). x.link) same ∙ free in cc
            | inr miss ↦ (
              p',
              n',
              d,
              record {
                link_at = at';
                node_at = ground (arith, o.node_at);
                owner = o.owner;
                descriptor = o.descriptor;
                back = o.back;
              },
              fits',
            )
          ]
    ];
  }

  -- The fresh address is given back.
  pub IsLinked-unconnected :
      (t : List Call)
      → open_fds env t ≡ open_fds env w.trace
      → IsLinked env
          (record w { links = update w.links w.fresh none; fresh = suc w.fresh; trace = t })
  IsLinked-unconnected t same_fds = record {
    open_all = AllOpen-Balanced env w _ (Balanced-unconnected env w t same_fds) is.open_all;
    back = λ q m l at' e.
        let (below, k, live, own) = is.back q m l at' e in
        (omega (arith, below), k, ground arith, own);
    owned = λ l j at'. elim (Bool-cases (l == w.fresh)) [
      | inl here ↦ absurd (ground arith)
      | inr away ↦
          let old : w.links l ≡ some j = ground arith in
          let (p', n', d, o, fits') = is.owned l j old in
          (
            p',
            n',
            d,
            record {
              link_at = at';
              node_at = o.node_at;
              owner = o.owner;
              descriptor = o.descriptor;
              back = o.back;
            },
            fits',
          )
    ];
  }
