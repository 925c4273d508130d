-- ===== src/Serial/Link/Descriptors.antt =====
-- The descriptors that are open, read off the calls: what `open`, `openpty` and `close` of
-- src/serial.c leave.
use serial_proxy_c.Prelude.{
  ℕ, ◌≡◌, refl, inl, inr, true, Option, none, some, List, [], ◌∷◌, ◌++◌, arith, ◌∙◌, ◌==◌,
  if◌then◌else◌, to_list, Bool-cases,
}
use serial_proxy_c.Machine.Types.{Call, Env}
use serial_proxy_c.Log.Laws.{is_logging, OnlyLog, same, more}
use serial_proxy_c.Serial.Link.Close.{closing}

-- A list without the first place of a number.
abbrev pub without : ℕ → List ℕ → List ℕ
without d [] = []
without d (e ∷ es) = let rest = without d es in if d == e then es else e ∷ rest

-- What a call makes of the open descriptors, after the calls `t`.
abbrev pub fds_after : Env → List Call → Call → List ℕ → List ℕ
fds_after env t (Call.open_path p) fds =
    if env.succeeds t (Call.open_path p) then env.descriptor t (Call.open_path p) ∷ fds else fds
fds_after env t Call.openpty fds =
    if env.succeeds t Call.openpty
    then env.slave_descriptor t ∷ (env.descriptor t Call.openpty ∷ fds)
    else fds
fds_after env t (Call.close d) fds = without d fds
fds_after env t _ fds = fds

-- The descriptors of devices that are open, the latest first.
abbrev pub open_fds : Env → List Call → List ℕ
open_fds env [] = []
open_fds env (c ∷ t) = fds_after env t c (open_fds env t)

fds_after-logging :
    (env : Env) (t : List Call) (c : Call) (fds : List ℕ)
    → is_logging c ≡ true
    → fds_after env t c fds ≡ fds
fds_after-logging env t c fds quiet = ground arith

pub open_fds-OnlyLog : (env : Env) {s t : List Call} → OnlyLog s t → open_fds env t ≡ open_fds env s
open_fds-OnlyLog env same = refl
open_fds-OnlyLog env (more quiet log) = fds_after-logging env _ _ _ quiet ∙ open_fds-OnlyLog env log

-- Closing both descriptors of a link, in the order of _serialFreeLink, gives back what they took.
pub open_fds-closing :
    (env : Env) (fd sfd : Option ℕ) (s t : List Call)
    → open_fds env t ≡ to_list sfd ++ (to_list fd ++ open_fds env s)
    → open_fds env (closing sfd ++ (closing fd ++ t)) ≡ open_fds env s
open_fds-closing env none none s t e = e
open_fds-closing env none (some d) s t e = rw e (ground arith)
open_fds-closing env (some c) none s t e = rw e (ground arith)
open_fds-closing env (some c) (some d) s t e = elim (Bool-cases (c == d)) [
  | inl eq ↦ rw e (ground arith)
  | inr ne ↦ rw e (ground arith)
]
