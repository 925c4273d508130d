-- ===== src/Serial/Relay/Streams.antt =====
-- What writes to several descriptors add to the stream of each.
use serial_proxy_c.Prelude.{
  ℕ, ◌≡◌, refl, ◌∙◌, ap, sym, inl, inr, true, false, List, [], ◌∷◌, ◌++◌, ◌==◌, length, take,
  take_all, arith, if◌then◌else◌, Bool-cases,
}
use mathlib.Core.List.{append-nil}
use serial_proxy_c.Machine.Types.{Call, Env}
use serial_proxy_c.Log.Laws.{is_logging, device_calls}
use serial_proxy_c.Serial.Nodes.Chain.{is_among}
use serial_proxy_c.Serial.Transfer.Proxy.{Port, delivered}
use serial_proxy_c.Serial.Relay.{payload, sent}

-- `write` takes all it is given.
abbrev pub TakesAll : Env → Type 0
TakesAll env = (h : List Call) (d : ℕ) (bytes : List ℕ) → env.written h d bytes ≡ length bytes

-- What a call asks `write` to take for the descriptor `d`.
abbrev whole : ℕ → Call → List ℕ
whole d (Call.write e bytes) = if d == e then bytes else []
whole d _ = []

abbrev pub sent_whole : ℕ → List Call → List ℕ
sent_whole d [] = []
sent_whole d (c ∷ t) = sent_whole d t ++ whole d c

payload-whole :
    (env : Env) (d : ℕ) (t : List Call) (c : Call) → TakesAll env → payload env d t c ≡ whole d c
payload-whole env d t (Call.write e bytes) all =
    let taken : take (env.written t e bytes) bytes ≡ bytes =
      ap (λ n. take n bytes) (all t e bytes) ∙ take_all (length bytes) bytes (omega arith) in
    ap (λ x. if d == e then x else []) taken
payload-whole env d t _ all = refl

quiet-whole : (d : ℕ) (c : Call) → is_logging c ≡ true → whole d c ≡ []
quiet-whole d (Call.write e bytes) quiet = cc
quiet-whole d _ quiet = refl

-- Log output is no part of any stream of a device.
pub sent-device_calls :
    (env : Env) (d : ℕ) (t : List Call)
    → TakesAll env
    → sent env d t ≡ sent_whole d (device_calls t)
unfolding sent
sent-device_calls env d [] all = refl
sent-device_calls env d (c ∷ t) all =
    let rest = sent-device_calls env d t all in
    let one = payload-whole env d t c all in
    elim (Bool-cases (is_logging c)) [
      | inl quiet ↦
          rw (quiet, rest, one, quiet-whole d c quiet) (append-nil (sent_whole d (device_calls t)))
      | inr loud ↦ rw (loud, rest, one)
    ]

abbrev pub fds_of : List Port → List ℕ
fds_of [] = []
fds_of (s ∷ ss) = s.fd ∷ fds_of ss

-- No descriptor stands for two ports.
abbrev pub AllApart : List Port → Type 0
AllApart [] = Unit
AllApart (s ∷ ss) = (is_among s.fd (fds_of ss) ≡ false) × AllApart ss

sent_whole-others :
    (d : ℕ) (bytes : List ℕ) (ss : List Port) (t : List Call)
    → is_among d (fds_of ss) ≡ false
    → sent_whole d (delivered bytes ss t) ≡ sent_whole d t
unfolding delivered
sent_whole-others d bytes [] t off = refl
sent_whole-others d bytes (s ∷ ss) t off =
    let away : (d == s.fd) ≡ false = ground arith in
    let later : is_among d (fds_of ss) ≡ false = ground arith in
    sent_whole-others d bytes ss (Call.write s.fd bytes ∷ t) later
    ∙ rw away (append-nil (sent_whole d t))

-- Each port gets the bytes once.
sent_whole-delivered :
    (d : ℕ) (bytes : List ℕ) (ss : List Port) (t : List Call)
    → AllApart ss
    → is_among d (fds_of ss) ≡ true
    → sent_whole d (delivered bytes ss t) ≡ sent_whole d t ++ bytes
unfolding delivered
sent_whole-delivered d bytes [] t apart on = cc
sent_whole-delivered d bytes (s ∷ ss) t (off, apart) on = elim (Bool-cases (s.fd == d)) [
  | inl here ↦
      let address : s.fd ≡ d = ground arith in
      let same : (d == s.fd) ≡ true = ground arith in
      sent_whole-others d bytes ss (Call.write s.fd bytes ∷ t)
        (ap (λ x. is_among x (fds_of ss)) (sym address) ∙ off)
      ∙ rw same
  | inr away ↦
      let other : (d == s.fd) ≡ false = ground arith in
      sent_whole-delivered d bytes ss (Call.write s.fd bytes ∷ t) apart (ground arith)
      ∙ ap (λ x. x ++ bytes) (rw other (append-nil (sent_whole d t)))
]

-- What `bytes` add to the stream of the descriptor `d`: all of them for a port, else nothing.
abbrev pub share : ℕ → List Port → List ℕ → List ℕ
share d ss bytes = if is_among d (fds_of ss) then bytes else []

pub sent_whole-share :
    (d : ℕ) (bytes : List ℕ) (ss : List Port) (t : List Call)
    → AllApart ss
    → sent_whole d (delivered bytes ss t) ≡ sent_whole d t ++ share d ss bytes
sent_whole-share d bytes ss t apart = elim (Bool-cases (is_among d (fds_of ss))) [
  | inl on ↦ sent_whole-delivered d bytes ss t apart on ∙ rw on refl
  | inr off ↦ sent_whole-others d bytes ss t off ∙ rw off (sym (append-nil (sent_whole d t)))
]

pub share-append :
    (d : ℕ) (ss : List Port) (xs ys : List ℕ)
    → share d ss xs ++ share d ss ys ≡ share d ss (xs ++ ys)
share-append d ss xs ys = elim (Bool-cases (is_among d (fds_of ss))) [
  | inl on ↦ rw on refl
  | inr off ↦ rw off refl
]

pub share-nil : (d : ℕ) (ss : List Port) → share d ss [] ≡ []
share-nil d ss = elim (Bool-cases (is_among d (fds_of ss))) [
  | inl on ↦ rw on refl
  | inr off ↦ rw off refl
]
