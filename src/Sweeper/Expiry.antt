-- ===== src/Sweeper/Expiry.antt =====
pub mod Frame
pub mod Laws
-- The expiring of stale requests in `RunOnce` of internal/sweeper/sweeper.go.
use deploy_bot.Prelude.{ℤ, String, List, [], ◌∷◌}
use deploy_bot.Config.{pending_label}
use deploy_bot.Store.Types.{PendingDeploy, key_of, history_from_pending}
use deploy_bot.Store.Pending.{Result, ok, err, get_expired}
use deploy_bot.World.{
  Env, World, Identity, send, comment, close_pr, remove_label, post_slack, audit_log, record_deploy,
}
use deploy_bot.Bot.Tasks.{Task, sends, releases_lock, deletes, pushes, run_all}
use deploy_bot.Bot.Approve.{audit_of}

-- The sweeper acts for nobody.
abbrev pub nobody : Identity
nobody = record { github_login = ""; email = ""; name = "" }

module _ {K : Type 0} (env : Env K) where
  -- The seven goroutines and the entry of the history that is written beside them.
  pub expire_tasks : PendingDeploy → World K → List Task
  expire_tasks d w =
      sends (comment "expired" d.pr_number "")
      ∷ sends (close_pr d.pr_number)
      ∷ sends (remove_label d.pr_number (pending_label env.cfg))
      ∷ releases_lock d.environment d.app
      ∷ deletes (key_of d)
      ∷ sends (post_slack "expired" "" d.pr_number)
      ∷ sends (
          audit_log (record (audit_of "expired" "sweeper" d d.pr_number nobody) {
            reason = "stale duration exceeded";
          }))
      ∷ pushes (history_from_pending w.now d "expired")
      ∷ []

  pub expire : PendingDeploy → World K → World K
  expire d w = run_all env (expire_tasks d w) (send (record_deploy d.app "expired") w)

  pub expire_all : List PendingDeploy → World K → World K
  expire_all [] w = w
  expire_all (d ∷ ds) w = expire_all ds (expire d w)
