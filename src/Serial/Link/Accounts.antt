-- ===== src/Serial/Link/Accounts.antt =====
-- Which descriptors are open, and how many times the live links hold each.
use serial_proxy_c.Prelude.{
  ℕ, zero, suc, ◌+◌, ◌-◌, ◌≤◌, ◌<◌, ◌≡◌, refl, inl, inr, Option, none, some, List, [], ◌∷◌, ◌++◌,
  ◌==◌, arith, if◌then◌else◌, to_list, Bool-cases, ap, ◌∙◌, sym,
}
use serial_proxy_c.Machine.Types.{Node, Link, Call, Env, World}
use serial_proxy_c.Machine.Monad.{update}
use serial_proxy_c.Serial.Link.Close.{closed, closing}
use serial_proxy_c.Serial.Link.Descriptors.{without, open_fds}

abbrev pub count : ℕ → List ℕ → ℕ
count d [] = 0
count d (e ∷ es) = let rest = count d es in if d == e then suc rest else rest

-- The descriptors of a link.
abbrev pub held : Option Link → List ℕ
held none = []
held (some k) = to_list k.sfd ++ to_list k.fd

-- How often the links below an address hold the descriptor `d`.
abbrev pub total : ℕ → (ℕ → Option Link) → ℕ → ℕ
total d links zero = 0
total d links (suc n) = total d links n + count d (held (links n))

-- Every descriptor that links hold is open, at least as often as they hold it.
abbrev pub AllOpen : Env → World → Type 0
AllOpen env w = (d : ℕ) → total d w.links w.fresh ≤ count d (open_fds env w.trace)

-- From `w` to `v` as many descriptors were opened, and not closed again, as the links hold more.
pub record Balanced (env : Env) (w v : World) : Type 0 where
  pub even :
      (d : ℕ)
      → count d (open_fds env v.trace) + total d w.links w.fresh
        ≡ count d (open_fds env w.trace) + total d v.links v.fresh

pub AllOpen-Balanced : (env : Env) (w v : World) → Balanced env w v → AllOpen env w → AllOpen env v
AllOpen-Balanced env w v b open_all d = omega (arith, b.even d, open_all d)

pub Balanced-trans :
    (env : Env) (w v u : World) → Balanced env w v → Balanced env v u → Balanced env w u
Balanced-trans env w v u b c = record { even = λ d. omega (arith, b.even d, c.even d) }

pub Balanced-fds :
    (env : Env) (w v : World)
    → open_fds env v.trace ≡ open_fds env w.trace
    → ((d : ℕ) → total d v.links v.fresh ≡ total d w.links w.fresh)
    → Balanced env w v
Balanced-fds env w v same held_same = record { even = λ d. rw (same, held_same d) refl }

total-none :
    (d : ℕ) (links : ℕ → Option Link) (n : ℕ) → ((l : ℕ) → links l ≡ none) → total d links n ≡ 0
total-none d links zero empty = refl
total-none d links (suc n) empty = rw (total-none d links n empty, empty n) refl

-- Without links no descriptor has to be open.
pub AllOpen-none : (env : Env) (w : World) → ((l : ℕ) → w.links l ≡ none) → AllOpen env w
AllOpen-none env w empty d = omega (arith, total-none d w.links w.fresh empty)

count-append : (d : ℕ) (xs ys : List ℕ) → count d (xs ++ ys) ≡ count d xs + count d ys
count-append d [] ys = omega arith
count-append d (x ∷ xs) ys = ground (arith, count-append d xs ys)

count-without :
    (d c : ℕ) (es : List ℕ)
    → count d (without c es) ≡ (if d == c then count d es - 1 else count d es)
count-without d c [] = ground arith
count-without d c (e ∷ es) = ground (arith, count-without d c es)

total-above :
    (d : ℕ) (links : ℕ → Option Link) (l : ℕ) (x : Option Link) (n : ℕ)
    → n ≤ l
    → total d (update links l x) n ≡ total d links n
total-above d links l x zero h = refl
total-above d links l x (suc n) h =
    let miss : update links l x n ≡ links n = ground arith in
    rw (total-above d links l x n (omega arith), miss) refl

total-update :
    (d : ℕ) (links : ℕ → Option Link) (l : ℕ) (x : Option Link) (n : ℕ)
    → l < n
    → total d (update links l x) n + count d (held (links l)) ≡ total d links n + count d (held x)
total-update d links l x zero h = absurd (omega arith)
total-update d links l x (suc n) h = elim (Bool-cases (n == l)) [
  | inl here ↦
      let address : n ≡ l = ground arith in
      let hit : update links l x n ≡ x = ground arith in
      let below = total-above d links l x n (omega arith) in rw (hit, below, address) (omega arith)
  | inr away ↦
      let miss : update links l x n ≡ links n = ground arith in
      let rest = total-update d links l x n (ground arith) in rw miss (omega (arith, rest))
]

-- A link that is closed gives back each of its descriptors once.
count-closing :
    (env : Env) (d : ℕ) (sfd : Option ℕ) (fd : ℕ) (t : List Call)
    → count d (to_list sfd ++ (fd ∷ [])) ≤ count d (open_fds env t)
    → count d (open_fds env (closing sfd ++ (Call.close fd ∷ t)))
        + count d (to_list sfd ++ (fd ∷ []))
      ≡ count d (open_fds env t)
count-closing env d none fd t h = ground (arith, count-without d fd (open_fds env t), h)
count-closing env d (some c) fd t h =
    let one = count-without d fd (open_fds env t) in
    let two = count-without d c (without fd (open_fds env t)) in ground (arith, one, two, h)

module _ (env : Env) (w : World) where
  pub Balanced-closed :
      (l p fd flags : ℕ) (k : Link) (n : Node) (t : List Call)
      → w.links l ≡ some k
      → k.fd ≡ some fd
      → l < w.fresh
      → AllOpen env w
      → open_fds env t ≡ open_fds env w.trace
      → Balanced env w (closed (record w { trace = t }) l k.sfd p n fd flags)
  Balanced-closed l p fd flags k n t at open_on below open_all same = record {
    even = λ d.
        let own : count d (held (w.links l)) ≡ count d (to_list k.sfd ++ (fd ∷ [])) =
          rw (at, open_on) refl in
        let freed = total-update d w.links l none w.fresh below in
        let t' : List Call = Call.delete_file_event fd flags ∷ t in
        let now : count d (open_fds env t') ≡ count d (open_fds env w.trace) = ap (count d) same in
        let all_open = open_all d in
        let given_back =
          count-closing env d k.sfd fd t' (omega (arith, own, freed, now, all_open)) in
        omega (arith, own, freed, now, given_back);
  }

  total-same :
      (d : ℕ) (l : ℕ) (x : Option Link) (n : ℕ)
      → held x ≡ held (w.links l)
      → total d (update w.links l x) n ≡ total d w.links n
  total-same d l x zero e = refl
  total-same d l x (suc n) e = elim (Bool-cases (n == l)) [
    | inl here ↦
        let address : n ≡ l = ground arith in
        let hit : held (update w.links l x n) ≡ held (w.links n) =
          rw here (e ∙ ap (λ q. held (w.links q)) (sym address)) in
        rw (total-same d l x n e, hit) refl
    | inr away ↦
        let miss : update w.links l x n ≡ w.links n = ground arith in
        rw (total-same d l x n e, miss) refl
  ]

  pub Balanced-changed :
      (l : ℕ) (k k' : Link) (t : List Call)
      → w.links l ≡ some k
      → k'.fd ≡ k.fd
      → k'.sfd ≡ k.sfd
      → open_fds env t ≡ open_fds env w.trace
      → Balanced env w (record w { links = update w.links l (some k'); trace = t })
  Balanced-changed l k k' t at fd sfd same =
      Balanced-fds env w (record w { links = update w.links l (some k'); trace = t }) same
        λ d. total-same d l (some k') w.fresh (rw (at, fd, sfd) refl)

  pub Balanced-connected :
      (nodes : ℕ → Option Node) (k : Link) (fd : ℕ) (t : List Call)
      → k.fd ≡ some fd
      → open_fds env t ≡ to_list k.sfd ++ (fd ∷ open_fds env w.trace)
      → Balanced env w (record w {
        nodes = nodes;
        links = update w.links w.fresh (some k);
        fresh = suc w.fresh;
        trace = t;
      })
  Balanced-connected nodes k fd t open_on opened = record {
    even = λ d.
        let old = total-above d w.links w.fresh (some k) w.fresh (omega arith) in
        let hit : update w.links w.fresh (some k) w.fresh ≡ some k = ground arith in
        let more : count d (open_fds env t)
            ≡ count d (to_list k.sfd) + count d (fd ∷ open_fds env w.trace) =
          ap (count d) opened ∙ count-append d (to_list k.sfd) (fd ∷ open_fds env w.trace) in
        let own : count d (held (some k)) ≡ count d (to_list k.sfd) + count d (fd ∷ []) =
          ap (λ o. count d (to_list k.sfd ++ to_list o)) open_on
          ∙ count-append d (to_list k.sfd) (fd ∷ []) in
        rw (old, hit) (ground (arith, more, own));
  }

  pub Balanced-unconnected :
      (t : List Call)
      → open_fds env t ≡ open_fds env w.trace
      → Balanced env w
          (record w { links = update w.links w.fresh none; fresh = suc w.fresh; trace = t })
  Balanced-unconnected t same = record {
    even = λ d.
        let old = total-above d w.links w.fresh none w.fresh (omega arith) in
        let miss : update w.links w.fresh none w.fresh ≡ none = ground arith in
        rw (same, old, miss) (omega arith);
  }
