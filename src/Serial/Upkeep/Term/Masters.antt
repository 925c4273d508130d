-- ===== src/Serial/Upkeep/Term/Masters.antt =====
-- The outer loop of serialTerm: one master after the other, with its virtuals.
use serial_proxy_c.Prelude.{
  some-inj, ℕ, zero, suc, ◌≡◌, refl, inl, inr, ◌∙◌, ap, sym, subst, true, false, Option, none, some,
  List, [], ◌∷◌, arith, ◌==◌, ◌≤◌, length, All, Bool-cases,
}
use serial_proxy_c.Prelude.Text.{Text}
use serial_proxy_c.Machine.Types.{Node, Server, Env, World}
use serial_proxy_c.Machine.Memory.{load_node-some}
use serial_proxy_c.Machine.Returns.{Returns, returned, Returns-and_then, Returns-weaken}
use serial_proxy_c.Serial.Nodes.{node_is_virtual}
use serial_proxy_c.Serial.Nodes.Chain.{IsChain, is_among}
use serial_proxy_c.Serial.Nodes.Lists.{IsVirtuals}
use serial_proxy_c.Serial.Nodes.Tree.{IsLeaf}
use serial_proxy_c.Serial.Nodes.Distinct.{
  not-is_among-rest, Agree, IsChain-Agree, apart, All-is_among, All-of_is_among,
}
use serial_proxy_c.Serial.Link.Accounts.{Balanced-fds}
use serial_proxy_c.Serial.Link.Linked.{IsLinked}
use serial_proxy_c.Serial.Upkeep.{term_loop}
use serial_proxy_c.Serial.Upkeep.Release.{Shrinks, Shrinks-trans}
use serial_proxy_c.Serial.Upkeep.Release.Close.{close_root}
use serial_proxy_c.Serial.Upkeep.Term.{AllGone, AllGone-stay, IsLeaf-Agree, close_virtuals}

-- `m` is a live node that is no virtual, with the virtuals `vs`.
abbrev pub Family : World → ℕ → List ℕ → Type 0
Family v m vs =
    (n : Node) × (v.nodes m ≡ some n)
    × (node_is_virtual n ≡ false)
    × IsVirtuals v n vs
    × All (IsLeaf v.nodes m) vs

-- No virtual is a node that is none.
not-among_leaves :
    (v : World) (m q : ℕ) (vs : List ℕ) (n : Node)
    → v.nodes q ≡ some n
    → node_is_virtual n ≡ false
    → All (IsLeaf v.nodes m) vs
    → is_among q vs ≡ false
not-among_leaves v m q vs n at real leaves = elim (Bool-cases (is_among q vs)) [
  | inl on ↦
      let (k, at', other, virtual, of, childless) =
        All-is_among (IsLeaf v.nodes m) vs q leaves on in
      let same : n ≡ k = some-inj (sym at ∙ at') in
      let false' = sym real ∙ ap node_is_virtual same ∙ virtual in cc
  | inr off ↦ off
]

-- Two masters share no virtual.
not-among_others :
    (v : World) (m p q : ℕ) (vs : List ℕ)
    → (p == m) ≡ false
    → IsLeaf v.nodes p q
    → All (IsLeaf v.nodes m) vs
    → is_among q vs ≡ false
not-among_others v m p q vs away (n, at, other, virtual, of, childless) leaves =
    elim (Bool-cases (is_among q vs)) [
      | inl on ↦
          let (k, at', other', virtual', of', childless') =
            All-is_among (IsLeaf v.nodes m) vs q leaves on in
          let same : n ≡ k = some-inj (sym at ∙ at') in
          let masters : some p ≡ some m = sym of ∙ ap (λ (x : Node). x.virtualof) same ∙ of' in
          absurd (ground arith)
      | inr off ↦ off
    ]

-- Another family stays.
Family-stays :
    (v x : World) (m p : ℕ) (n : Node) (vs us : List ℕ)
    → v.nodes m ≡ some n
    → node_is_virtual n ≡ false
    → All (IsLeaf v.nodes m) vs
    → x.fresh ≡ v.fresh
    → ((q : ℕ) → is_among q vs ≡ false → (q == m) ≡ false → x.nodes q ≡ v.nodes q)
    → (p == m) ≡ false
    → Family v p us
    → Family x p us
Family-stays v x m p n vs us atm real leaves fresh stays away (k, at, real', (c, h), leaves') =
    let agree : Agree v.nodes x.nodes us = λ q on.
      let leaf = All-is_among (IsLeaf v.nodes p) us q leaves' on in
      stays q (not-among_others v m p q vs away leaf leaves)
        (apart us q m on (not-among_leaves v p m us n atm real leaves')) in
    (
      k,
      stays p (not-among_leaves v m p vs k at real' leaves) away ∙ at,
      real',
      (IsChain-Agree v.nodes x.nodes k.virtual_head us agree c, omega (arith, h, fresh)),
      IsLeaf-Agree v.nodes x.nodes p us agree leaves',
    )

module _ (env : Env) (path : Text) (kids : ℕ → List ℕ) where
  abbrev pub FamilyGone : World → ℕ → Type 0
  FamilyGone u m = (u.nodes m ≡ none) × AllGone u (kids m)

  pub term_loop-Gone :
      (fuel : ℕ) (v : World) (head : Option ℕ) (ms : List ℕ)
      → v.server.logfile ≡ some path
      → IsLinked env v
      → IsChain v.nodes head ms
      → length ms ≤ fuel
      → All (λ m. Family v m (kids m)) ms
      → Returns (λ r u. Shrinks env v u × All (FamilyGone u) ms) (term_loop env fuel head v)
  unfolding term_loop
  term_loop-Gone fuel v none [] set is c h families = returned (
    record {
      settings = refl;
      same_fresh = refl;
      stay_gone = λ q e. e;
      old_links = λ l k e. e;
      linked = is;
      balance = Balanced-fds env v v refl (λ d. refl);
    },
    tt,
  )
  term_loop-Gone fuel v (some p) [] set is c h families = cc
  term_loop-Gone fuel v none (p ∷ ps) set is (e, n, at, c) h families = cc
  term_loop-Gone zero v (some q) (p ∷ ps) set is c h families = absurd (omega arith)
  term_loop-Gone (suc fuel) v (some q) (m ∷ ms) set is (e, n, at, c) h (family, families) =
      let (n', at', real, (cv, hv), leaves) = family in
      let same : n ≡ n' = some-inj (sym at ∙ at') in
      let c' = subst (λ (x : Node). IsChain v.nodes x.next ms) same c in
      let address : q ≡ m = some-inj e in
      let once = not-is_among-rest v.nodes (some m) m ms (refl, n, at, c) in
      let out = not-among_leaves v m m (kids m) n' at' real leaves in
      subst
        (λ x.
          Returns (λ r u. Shrinks env v u × All (FamilyGone u) (m ∷ ms))
            (term_loop env (suc fuel) (some x) v))
        (sym address)
        (rw (load_node-some v m at') (
          Returns-and_then _
            (close_virtuals env path m v.fresh v n'.virtual_head (kids m) n' set is cv hv hv leaves
              out at' (inr refl))
            λ r u (shrinks, gones, atm, others). rw (load_node-some u m atm) (
              Returns-and_then _
                (close_root env path u m (record n' { virtual_head = none })
                  (ap (λ (s : Server). s.logfile) shrinks.settings ∙ set) shrinks.linked atm refl
                  real)
                λ r' x (shrinks', gone, others').
                  let both = Shrinks-trans shrinks shrinks' in
                  let stays : (y : ℕ)
                      → is_among y (kids m) ≡ false
                      → (y == m) ≡ false
                      → x.nodes y ≡ v.nodes y =
                    λ y off far. others' y far ∙ others y off far in
                  let family_at : (y : ℕ) → is_among y ms ≡ true → Family v y (kids y) =
                    λ y on. All-is_among (λ m'. Family v m' (kids m')) ms y families on in
                  let agree : Agree v.nodes x.nodes ms = λ y on.
                    let (k, at_y, real_y, is_y, leaves_y) = family_at y on in
                    stays y (not-among_leaves v m y (kids m) k at_y real_y leaves)
                      (apart ms y m on once) in
                  Returns-weaken
                    (term_loop-Gone fuel x n'.next ms
                      (ap (λ (s : Server). s.logfile) both.settings ∙ set) both.linked
                      (IsChain-Agree v.nodes x.nodes n'.next ms agree c') (omega arith)
                      (All-of_is_among (λ m'. Family x m' (kids m')) ms
                        λ y on.
                          Family-stays v x m y n' (kids m) (kids y) at' real leaves both.same_fresh
                            stays (apart ms y m on once) (family_at y on)))
                    λ r'' z (shrinks'', all). (
                      Shrinks-trans both shrinks'',
                      (
                        (
                          shrinks''.stay_gone m gone,
                          AllGone-stay u z (kids m) (Shrinks-trans shrinks' shrinks'') gones,
                        ),
                        all,
                      ),
                    ))))
