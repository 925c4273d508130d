-- ===== src/Daemon/Cron/Round.antt =====
-- One call of serverCron of src/server.c, with its shutdown and its reconnecting pass.
use serial_proxy_c.Prelude.{
  ℕ, ◌+◌, ◌≤◌, ◌≡◌, refl, ◌∙◌, ◌∷◌, ap, sym, subst, ◌<◌, Bool, true, false, some, List, arith, ◌||◌,
  is_some,
}
use serial_proxy_c.Prelude.Text.{Text}
use serial_proxy_c.Machine.Types.{Server, Call, Env, World}
use serial_proxy_c.Machine.Monad.{◌>>=◌, ◌>>◌, when, note, gets}
use serial_proxy_c.Machine.Returns.{Returns, returned, Returns-and_then, Returns-weaken}
use serial_proxy_c.Log.{ll_info}
use serial_proxy_c.Log.Laws.{server_log-Logs}
use serial_proxy_c.Serial.Nodes.Tree.{SameNodes, IsTree, IsTree-same}
use serial_proxy_c.Serial.Link.Descriptors.{open_fds, open_fds-OnlyLog}
use serial_proxy_c.Serial.Link.Accounts.{Balanced, Balanced-trans, Balanced-fds}
use serial_proxy_c.Serial.Link.Linked.{IsLinked, IsLinked-aside}
use serial_proxy_c.Serial.Upkeep.{serial_cron}
use serial_proxy_c.Serial.Upkeep.Gains.{NodesKept, Gains, Gains-refl, Gains-trace}
use serial_proxy_c.Serial.Upkeep.Reconnect.{reconnect-Gains}
use serial_proxy_c.Config.Settings.Limits.{IsWithinLimits}
use serial_proxy_c.Daemon.Cron.{
  server_cron, prepare_for_shutdown, count_loop, divide, run_with_period,
}
use serial_proxy_c.Daemon.Cron.Period.{tick, due, run_with_period-due, count_loop_lem, divide_lem}

Gains-source :
    {env : Env} {w v : World} (t : List Call)
    → open_fds env t ≡ open_fds env w.trace
    → Gains env (record w { trace = t }) v
    → Gains env w v
Gains-source {env = env} {w = w} {v = v} t fds g = record {
  server_same = g.server_same;
  grows = g.grows;
  kept = g.kept;
  same_tree = g.same_tree;
  linked = g.linked;
  balance =
      Balanced-trans env w (record w { trace = t }) v (Balanced-fds env w _ fds (λ d. refl))
        g.balance;
}

-- A world with another history, in which the same descriptors are open.
data Traced (env : Env) (w : World) : World → Type 0 where
  traced :
      {t : List Call}
      → open_fds env t ≡ open_fds env w.trace
      → Traced env w (record w { trace = t })

when-Traced :
    (env : Env) (w v : World) (test : Bool) (c : Call)
    → ((t : List Call) → open_fds env (c ∷ t) ≡ open_fds env t)
    → Traced env w v
    → Returns (λ r. Traced env w) (when test (note c) v)
when-Traced env w _ true c neutral (traced {t = t} fds) = returned (traced (neutral t ∙ fds))
when-Traced env w _ false c neutral (traced fds) = returned (traced fds)

-- What the call leaves, with its result.
abbrev pub Counted : Env → World → ℕ → World → Type 0
Counted env w ms v =
    (ms ≡ tick w.server)
    × (v.server ≡ record w.server { cronloops = w.server.cronloops + 1 })
    × (w.fresh ≤ v.fresh)
    × NodesKept w.nodes v.nodes
    × SameNodes w.nodes v.nodes
    × IsLinked env v
    × Balanced env w v

module _ (env : Env) (w : World) (path : Text) (set : w.server.logfile ≡ some path) where
  shut_down-Traced :
      (down : Bool)
      → Returns (λ r. Traced env w) (when down (do prepare_for_shutdown env; note Call.ae_stop) w)
  unfolding prepare_for_shutdown
  shut_down-Traced false = returned (traced refl)
  shut_down-Traced true =
      let (t, log, e) = server_log-Logs env ll_info w path set in
      rw e (
        Returns-and_then _
          (when-Traced env w _ (w.server.daemonize || is_some w.server.pidfile)
            (Call.unlink w.server.pidfile) (λ h. refl) (traced {t = t} (open_fds-OnlyLog env log)))
          λ r v b. when-Traced env w v true Call.ae_stop (λ h. refl) b)

  -- What follows the reconnecting pass, if there is one.
  counted :
      (v : World)
      → IsWithinLimits w.server
      → w.server.cronloops < 2_147_483_647
      → Gains env w v
      → Returns (Counted env w) ((do count_loop; s ← gets (λ x. x.server); divide 1000 s.hz) v)
  counted v limits few g =
      let few' = subst (λ (x : Server). x.cronloops < 2_147_483_647) (sym g.server_same) few in
      let limits' = subst IsWithinLimits (sym g.server_same) limits in
      rw (count_loop_lem v few', divide_lem 1000 v.server.hz _ (omega (arith, limits')))
        (returned (
          ap tick g.server_same,
          ap (λ (x : Server). record x { cronloops = x.cronloops + 1 }) g.server_same,
          g.grows,
          g.kept,
          g.same_tree,
          IsLinked-aside env v g.linked _ _ refl,
          Balanced-trans env w v _ g.balance (Balanced-fds env v _ refl (λ d. refl)),
        ))

  module _ (memory : (h : List Call) → env.succeeds h Call.calloc ≡ true) (is : IsLinked env w)
      (tree : IsTree env w) where
    reconnected :
        (v : World)
        → Traced env w v
        → (now : Bool) → Returns (λ r. Gains env w) (when now (serial_cron env) v)
    unfolding serial_cron
    reconnected _ (traced {t = t} fds) false = returned (Gains-trace t fds (Gains-refl w is))
    reconnected _ (traced {t = t} fds) true =
        Returns-weaken
          (reconnect-Gains env (record w { trace = t }) path set memory
            (IsTree-same env w (record w { trace = t }) refl (omega arith) (λ p. refl) tree)
            (IsLinked-aside env w is w.server t fds))
          λ r v g. Gains-source t fds g

    round-Counted :
        (v : World)
        → Traced env w v
        → IsWithinLimits w.server
        → w.server.cronloops < 2_147_483_647
        → Returns (Counted env w) (
            (do
              s ← gets (λ x. x.server)
              now ← run_with_period s.reconnect_interval s
              when now (serial_cron env)
              count_loop
              s ← gets (λ x. x.server)
              divide 1000 s.hz)
              v)
    round-Counted _ (traced {t = t} fds) limits few =
        rw (run_with_period-due w.server (record w { trace = t }) limits) (
          Returns-and_then _ (reconnected _ (traced fds) (due w.server))
            λ r v g. counted v limits few g)

    -- With a log file, memory, settings within their limits, the counter below the limit of an
    -- `int`, nodes and links that lead to each other, well-formed lists of masters and virtuals,
    -- which have none of their own, and speeds of masters that can be set, serverCron returns a
    -- tick, whether or not a shutdown was asked for and the call is due to reconnect. The counter is
    -- one more, every other setting, the lists, and every link that a node had stay, nodes and links
    -- lead to each other afterwards, and of each descriptor as many were opened, and not closed
    -- again, as the links hold more.
    pub server_cron-Counted :
        IsWithinLimits w.server
        → w.server.cronloops < 2_147_483_647
        → Returns (Counted env w) (server_cron env w)
    unfolding server_cron
    server_cron-Counted limits few =
        Returns-and_then _ (shut_down-Traced w.server.shutdown)
          λ r v b. round-Counted v b limits few
