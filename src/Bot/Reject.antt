-- ===== src/Bot/Reject.antt =====
pub mod Frame
pub mod Laws
-- `handleRejectSubmit` of internal/bot/actions.go.
use deploy_bot.Prelude.{ℤ, String, true, false, none, some, Option, List, [], ◌∷◌, atoi}
use deploy_bot.Config.{pending_label}
use deploy_bot.Store.Types.{PendingDeploy, history_from_pending}
use deploy_bot.Store.Pending.{Result, ok, err, get}
use deploy_bot.World.{
  Env, World, Identity, Membership, member_error, membership, send, comment, close_pr, remove_label,
  audit_log, record_deploy, post_slack,
}
use deploy_bot.Bot.Member.{remember}
use deploy_bot.Bot.Tasks.{Task, sends, releases_lock, deletes, pushes, posts_threaded, run_all}
use deploy_bot.Bot.Approve.{row_key, config_key, audit_of, update_pending_gauge}

module _ {K : Type 0} (env : Env K) where
  -- The eight goroutines.
  pub reject_tasks : String → PendingDeploy → ℤ → Identity → World K → List Task
  reject_tasks reason d pr ident w =
      sends (comment "rejected" pr ident.github_login)
      ∷ sends (close_pr pr)
      ∷ sends (remove_label pr (pending_label env.cfg))
      ∷ releases_lock d.environment d.app
      ∷ deletes (row_key d pr)
      ∷ posts_threaded "rejected" d.environment pr
      ∷ sends (
          audit_log
            (record (audit_of "rejected" "slash_command" d pr ident) { rejection = reason }))
      ∷ pushes (history_from_pending w.now d "rejected")
      ∷ []

  pub reject_verdict : Membership → String → PendingDeploy → ℤ → World K → World K
  reject_verdict member_error reason d pr w = send (post_slack "not a member" "" pr) w
  reject_verdict (membership false ident) reason d pr w = send (post_slack "not a member" "" pr) w
  reject_verdict (membership true ident) reason d pr w =
      update_pending_gauge env
        (run_all env (reject_tasks reason d pr ident w) (send (record_deploy d.app "rejected") w))

  pub reject_row : Result (Option PendingDeploy) → String → String → ℤ → World K → World K
  reject_row (err _) user reason pr w = w
  reject_row (ok none) user reason pr w = w
  reject_row (ok (some d)) user reason pr w =
      reject_verdict (env.is_member user) reason d pr (remember env user w)

  pub reject_parsed : Option ℤ → String → String → World K → World K
  reject_parsed none user reason w = w
  reject_parsed (some pr) user reason w =
      reject_row (get env (config_key env pr) w) user reason pr w

  -- handleRejectSubmit; the number is in the modal's private metadata.
  pub handle_reject_submit : String → String → String → World K → World K
  handle_reject_submit user metadata reason w = reject_parsed (atoi metadata) user reason w
