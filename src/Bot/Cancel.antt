-- ===== src/Bot/Cancel.antt =====
pub mod Frame
pub mod Laws
-- internal/bot/cancel.go. The two callbacks that differ between the slash command and the mention
-- are functions from the text to the message.
use deploy_bot.Prelude.{
  ℤ, String, Bool, true, not, ◌&&◌, ◌||◌, none, some, Option, List, [], ◌∷◌, ◌==◌, atoi,
  if◌then◌else◌,
}
use Prim.Native.String.{◌++◌ as append}
use deploy_bot.Config.{pending_label}
use deploy_bot.Store.Types.{PendingDeploy, history_from_pending}
use deploy_bot.Store.Pending.{Result, ok, err, get}
use deploy_bot.World.{
  Env, World, Effect, Identity, Resolution, resolved, unresolved, send, comment, close_pr,
  remove_label, audit_log, record_deploy,
}
use deploy_bot.Bot.Member.{remember}
use deploy_bot.Bot.Tasks.{Task, sends, releases_lock, deletes, pushes, run_all}
use deploy_bot.Bot.Approve.{row_key, config_key, audit_of, update_pending_gauge}

pub record CancelParams : Type 0 where
  pub user_id : String
  pub user_name : String
  pub trigger : String
  pub reply_error : String → Effect
  pub reply_success : String → Effect
  pub allow_ecr : Bool

fallback_name : CancelParams → String
fallback_name p = if p.user_name == "" then append "slack:" p.user_id else p.user_name

-- The name in the comment on the pull request.
canceller_name : Resolution → CancelParams → String
canceller_name (unresolved i) p = fallback_name p
canceller_name (resolved i) p = if i.github_login == "" then fallback_name p else i.github_login

abbrev pub identity_of : Resolution → Identity
identity_of (unresolved i) = i
identity_of (resolved i) = i

-- Who may cancel: the requester and, where `allow_ecr` says so, anybody for a deploy without one.
unfoldable pub may_cancel : CancelParams → PendingDeploy → Bool
may_cancel p d = d.requester_id == p.user_id || p.allow_ecr && d.requester_id == ""

module _ {K : Type 0} (env : Env K) where
  -- The eight goroutines.
  pub cancel_tasks : CancelParams → PendingDeploy → ℤ → World K → List Task
  cancel_tasks p d pr w =
      let r = env.resolve_identity p.user_id in
      sends (comment "cancelled" pr (canceller_name r p))
      ∷ sends (close_pr pr)
      ∷ sends (remove_label pr (pending_label env.cfg))
      ∷ releases_lock d.environment d.app
      ∷ deletes (row_key d pr)
      ∷ sends (audit_log (audit_of "cancelled" p.trigger d pr (identity_of r)))
      ∷ pushes (history_from_pending w.now d "cancelled")
      ∷ sends (p.reply_success "cancelled")
      ∷ []

  pub cancel_found : CancelParams → PendingDeploy → ℤ → World K → World K
  cancel_found p d pr w =
      if may_cancel p d
      then update_pending_gauge env (
          run_all env (cancel_tasks p d pr w)
            (send (record_deploy d.app "cancelled") (remember env p.user_id w)))
      else send (p.reply_error "not your own") w

  pub cancel_row : Result (Option PendingDeploy) → CancelParams → ℤ → World K → World K
  cancel_row (err _) p pr w = send (p.reply_error "not found") w
  cancel_row (ok none) p pr w = send (p.reply_error "not found") w
  cancel_row (ok (some d)) p pr w = cancel_found p d pr w

  pub cancel_parsed : Option ℤ → CancelParams → World K → World K
  cancel_parsed none p w = send (p.reply_error "invalid number") w
  cancel_parsed (some pr) p w = cancel_row (get env (config_key env pr) w) p pr w

  -- doCancelDeploy
  pub do_cancel_deploy : String → CancelParams → World K → World K
  do_cancel_deploy pr_arg p w = cancel_parsed (atoi pr_arg) p w
