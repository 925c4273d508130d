-- ===== src/Serial/Link/Building.antt =====
-- A link between its allocation and the end of _serialCreateLink: which descriptors it holds.
use serial_proxy_c.Prelude.{
  ℕ, suc, ◌≡◌, Bool, true, false, Option, some, List, ◌∷◌, ◌++◌, if◌then◌else◌, to_list, ◌∙◌, ap,
}
use serial_proxy_c.Prelude.Text.{Text}
use serial_proxy_c.Machine.Types.{Link, Call, Env, World}
use serial_proxy_c.Machine.Monad.{M, pure, ◌>>=◌, done, update, perform, gets, change_link}
use serial_proxy_c.Machine.Memory.{change_link-some, update_same, update-update}
use serial_proxy_c.Machine.Returns.{Returns, returned, Returns-of_eq, Returns-and_then}
use serial_proxy_c.Log.{server_log_errno}
use serial_proxy_c.Log.Laws.{server_log_errno-Logs}
use serial_proxy_c.Serial.Link.{new_link}
use serial_proxy_c.Serial.Link.Descriptors.{open_fds, open_fds-OnlyLog}

-- The link of a node that has no owner yet.
abbrev pub unowned : Env → (fd sfd : Option ℕ) → Link
unowned env fd sfd = record (new_link env) { fd = fd; sfd = sfd }

-- The world `w` with such a link at the address that was fresh.
abbrev pub setting_up : Env → World → (fd sfd : Option ℕ) → List Call → World
setting_up env w fd sfd t = record w {
  links = update w.links w.fresh (some (unowned env fd sfd));
  fresh = suc w.fresh;
  trace = t;
}

pub change_link-unowned :
    (env : Env) (w : World) (fd sfd : Option ℕ) (t : List Call) (f : Link → Link)
    → change_link w.fresh f (setting_up env w fd sfd t)
      ≡ done tt (record w {
        links = update w.links w.fresh (some (f (unowned env fd sfd)));
        fresh = suc w.fresh;
        trace = t;
      })
change_link-unowned env w fd sfd t f =
    let k = unowned env fd sfd in
    change_link-some (setting_up env w fd sfd t) w.fresh f (update_same w.links w.fresh (some k))
    ∙ ap (λ (h : ℕ → Option Link). done tt (record w { links = h; fresh = suc w.fresh; trace = t }))
        (update-update w.links w.fresh (some k) (some (f k)))

-- The open descriptors are those from before and the ones that the link holds.
abbrev pub Holds : Env → World → (fd sfd : Option ℕ) → List Call → Type 0
Holds env w fd sfd t = open_fds env t ≡ to_list sfd ++ (to_list fd ++ open_fds env w.trace)

pub data Building (env : Env) (w : World) (fd sfd : Option ℕ) : World → Type 0 where
  building :
      {t : List Call} → Holds env w fd sfd t → Building env w fd sfd (setting_up env w fd sfd t)

-- A command that lets a link in this phase hold what it holds.
abbrev pub Keeps : {A : Type 0} → Env → World → (fd sfd : Option ℕ) → M A → Type 0
Keeps env w fd sfd m =
    (v : World) → Building env w fd sfd v → Returns (λ _. Building env w fd sfd) (m v)

module _ {env : Env} {w : World} {fd sfd : Option ℕ} where
  pub Keeps-pure : {A : Type 0} (a : A) → Keeps env w fd sfd (pure a)
  Keeps-pure a v b = returned b

  pub Keeps-gets : {A : Type 0} (f : World → A) → Keeps env w fd sfd (gets f)
  Keeps-gets f v b = returned b

  pub Keeps-and_then :
      {A B : Type 0} (m : M A) (k : A → M B)
      → Keeps env w fd sfd m
      → ((a : A) → Keeps env w fd sfd (k a))
      → Keeps env w fd sfd (m >>= k)
  Keeps-and_then m k first next v b = Returns-and_then k (first v b) next

  pub Keeps-if :
      {A : Type 0} (test : Bool) (m n : M A)
      → Keeps env w fd sfd m
      → Keeps env w fd sfd n
      → Keeps env w fd sfd (if test then m else n)
  Keeps-if true m n yes_case no_case = yes_case
  Keeps-if false m n yes_case no_case = no_case

  -- A call that opens and closes nothing.
  pub Keeps-perform :
      (c : Call)
      → ((t : List Call) → open_fds env (c ∷ t) ≡ open_fds env t)
      → Keeps env w fd sfd (perform env c)
  Keeps-perform c neutral _ (building {t = t} h) = returned (building (neutral t ∙ h))

  module _ (path : Text) (set : w.server.logfile ≡ some path) where
    pub Keeps-server_log_errno : (level : ℕ) → Keeps env w fd sfd (server_log_errno env level)
    Keeps-server_log_errno level _ (building {t = t} h) =
        let (u, log, e) = server_log_errno-Logs env level (setting_up env w fd sfd t) path set in
        Returns-of_eq _ e (building (open_fds-OnlyLog env log ∙ h))
