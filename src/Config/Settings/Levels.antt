-- ===== src/Config/Settings/Levels.antt =====
-- The names of the verbosity levels: what serverLogLevel prints and _getLogLevel reads.
use mathlib.Core.List.{map}
use serial_proxy_c.Prelude.{some-inj, ℕ, zero, suc, ◌≡◌, refl, ◌∙◌, ap, subst, true, some, arith}
use serial_proxy_c.Prelude.Text.{Text, codes, to_lower, text_eq, eq_of_text_eq, case_eq}
use serial_proxy_c.Log.{server_log_level}
use serial_proxy_c.Config.Settings.{get_log_level}

-- Texts that differ in case only are the same to every test.
case_eq-same : (s t r : Text) → case_eq s t ≡ true → case_eq s r ≡ case_eq t r
unfolding case_eq
case_eq-same s t r e =
    ap (λ x. text_eq x (map to_lower r)) (eq_of_text_eq (map to_lower s) (map to_lower t) e)

get_log_level-same :
    (s t : Text) → case_eq s t ≡ true → get_log_level (some s) ≡ get_log_level (some t)
unfolding get_log_level
get_log_level-same s t e = rw (
  case_eq-same s t (codes "debug") e,
  case_eq-same s t (codes "info") e,
  case_eq-same s t (codes "warn") e,
)

read_back :
    (level : ℕ) (s : Text) → server_log_level level ≡ some s → get_log_level (some s) ≡ level
unfolding server_log_level get_log_level case_eq text_eq
read_back zero s e = subst (λ (x : Text). get_log_level (some x) ≡ 0) (some-inj e) refl
read_back (suc zero) s e = subst (λ (x : Text). get_log_level (some x) ≡ 1) (some-inj e) refl
read_back (suc (suc zero)) s e = subst (λ (x : Text). get_log_level (some x) ≡ 2) (some-inj e) refl
read_back (suc (suc (suc zero))) s e =
    subst (λ (x : Text). get_log_level (some x) ≡ 3) (some-inj e) refl
read_back (suc (suc (suc (suc n)))) s e = absurd (ground arith)

-- The name that serverLogLevel prints for a level, also where some of its letters are written in the
-- other case, is read by _getLogLevel as that level.
pub get_log_level-server_log_level :
    (level : ℕ) (s name : Text)
    → server_log_level level ≡ some s
    → case_eq name s ≡ true
    → get_log_level (some name) ≡ level
get_log_level-server_log_level level s name e same =
    get_log_level-same name s same ∙ read_back level s e
