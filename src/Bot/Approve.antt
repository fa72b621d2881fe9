-- ===== src/Bot/Approve.antt =====
pub mod Frame
pub mod Effects
pub mod Access
pub mod Outcomes
pub mod Handler
pub mod NoOp
pub mod Keeps
-- `handleApprove`, `notifyConflictFailed` and `closeNoOpPR` of internal/bot/actions.go.
use deploy_bot.Prelude.{
  ℤ, String, true, false, none, some, Option, List, [], ◌∷◌, ◌==◌, atoi, if◌then◌else◌, length,
}
use deploy_bot.Config.{AppConfig, app_by_name, pending_label}
use deploy_bot.Store.Types.{Key, PendingDeploy, history_from_pending, state_pending, state_merging}
use deploy_bot.Store.Pending.{Result, ok, err, get, update_state, get_all}
use deploy_bot.World.{
  Env, World, Outcome, done, failed, AuditEvent, Identity, Membership, CreatePrParams, GithubError,
  merge_conflict, ci_not_passed, draft_pr, head_modified, rate_limited, member_error, membership,
  send, sleep, reply_ephemeral, replace_buttons, post_slack, comment, close_pr, remove_label,
  audit_log, record_deploy, set_pending_gauge, start_health_check,
}
use deploy_bot.Github.Merge.{merge_pr}
use deploy_bot.Bot.Member.{remember}
use deploy_bot.Bot.Tasks.{Task, sends, releases_lock, deletes, pushes, posts_threaded, run_all}
use deploy_bot.Bot.Merge.{MergeResult, merge_with_retry}

-- The key under which the store is asked for the pull request `pr`, which is a row's own key too.
abbrev pub row_key : PendingDeploy → ℤ → Key
row_key d pr = record { org = d.github_org; repo = d.github_repo; number = pr }

pub merge_params : PendingDeploy → AppConfig → CreatePrParams
merge_params d a = record {
  app = d.app;
  environment = d.environment;
  tag = d.tag;
  kustomize_path = a.kustomize_path;
  base_branch = "";
  requester = "";
  reason = "";
  requester_slack_id = "";
}

pub audit_of : String → String → PendingDeploy → ℤ → Identity → AuditEvent
audit_of event_type trigger d pr ident = record {
  event_type = event_type;
  trigger = trigger;
  app = d.app;
  environment = d.environment;
  tag = d.tag;
  pr_number = pr;
  pr_url = d.pr_url;
  reason = "";
  rejection = "";
  actor_email = ident.email;
  actor_name = ident.name;
  auto_deploy = false;
}

module _ {K : Type 0} (env : Env K) where
  abbrev pub config_key : ℤ → Key
  config_key pr = record { org = env.cfg.org; repo = env.cfg.repo; number = pr }

  -- updatePendingGauge
  unfoldable pub update_pending_gauge : World K → World K
  update_pending_gauge w = elim (get_all env w) [
    | err _ ↦ w
    | ok all ↦ send (set_pending_gauge (length all)) w
  ]

  -- The seven goroutines of a merged approval.
  pub approved_tasks : PendingDeploy → ℤ → Identity → String → World K → List Task
  approved_tasks d pr ident sha w =
      sends (comment "approved" pr ident.github_login)
      ∷ sends (remove_label pr (pending_label env.cfg))
      ∷ releases_lock d.environment d.app
      ∷ deletes (row_key d pr)
      ∷ posts_threaded "approved" d.environment pr
      ∷ sends (audit_log (audit_of "approved" "slash_command" d pr ident))
      ∷ pushes (record (history_from_pending w.now d "approved") { gitops_commit_sha = sha })
      ∷ []

  pub approve_finish : PendingDeploy → ℤ → Identity → String → World K → World K
  approve_finish d pr ident sha w = send (start_health_check d.app pr) (
      update_pending_gauge
        (run_all env (approved_tasks d pr ident sha w) (send (record_deploy d.app "approved") w)))

  pub no_op_tasks : PendingDeploy → ℤ → List Task
  no_op_tasks d pr =
      sends (comment "no-op" pr d.app)
      ∷ sends (close_pr pr)
      ∷ sends (remove_label pr (pending_label env.cfg))
      ∷ releases_lock d.environment d.app
      ∷ deletes (row_key d pr)
      ∷ []

  -- closeNoOpPR
  pub close_no_op_pr : PendingDeploy → ℤ → World K → World K
  close_no_op_pr d pr w = send (post_slack "no-op" "" pr) (run_all env (no_op_tasks d pr) w)

  pub reset_to_pending : PendingDeploy → ℤ → World K → World K
  reset_to_pending d pr w = (update_state env (row_key d pr) state_pending w).1

  -- The notice of each error that leaves the pull request open.
  failure_notice : GithubError → String
  failure_notice merge_conflict = "merge conflict"
  failure_notice ci_not_passed = "merge blocked by CI"
  failure_notice draft_pr = "merge blocked: draft"
  failure_notice rate_limited = "rate limited"
  failure_notice e = "merge failed"

  pub merge_refused : PendingDeploy → ℤ → GithubError → World K → World K
  merge_refused d pr e w = send (post_slack (failure_notice e) "" pr) (reset_to_pending d pr w)

  -- The direct retry after `ErrHeadModified`. An empty SHA ends the handler.
  pub head_retried : PendingDeploy → ℤ → Identity → Outcome String × World K → World K
  head_retried d pr ident (failed e, w) =
      send (post_slack "concurrent branch update" "" pr) (reset_to_pending d pr w)
  head_retried d pr ident (done sha, w) = if sha == "" then w else approve_finish d pr ident sha w

  -- A context that ends during the wait ends the handler.
  pub head_waited : PendingDeploy → ℤ → Identity → World K → Option (World K) → World K
  head_waited d pr ident w none = w
  head_waited d pr ident w (some w1) = head_retried d pr ident (merge_pr env pr w1)

  pub retry_head : PendingDeploy → ℤ → Identity → World K → World K
  retry_head d pr ident w = head_waited d pr ident w (sleep env 2_000 w)

  pub approve_outcome : PendingDeploy → ℤ → Identity → Outcome MergeResult × World K → World K
  approve_outcome d pr ident (done r, w) =
      if r.no_op then close_no_op_pr d pr w else approve_finish d pr ident r.sha w
  approve_outcome d pr ident (failed head_modified, w) = retry_head d pr ident w
  approve_outcome d pr ident (failed e, w) = merge_refused d pr e w

  -- The app's configuration may be gone since the request.
  pub approve_configured : Option AppConfig → PendingDeploy → ℤ → Identity → World K → World K
  approve_configured none d pr ident w = merge_refused d pr merge_conflict w
  approve_configured (some a) d pr ident w =
      approve_outcome d pr ident (merge_with_retry env pr (merge_params d a) w)

  pub approve_found : PendingDeploy → ℤ → Identity → World K → World K
  approve_found d pr ident w =
      let w1 =
        (update_state env (row_key d pr) state_merging (send (replace_buttons "Approved") w)).1 in
      approve_configured (app_by_name env.cfg d.app) d pr ident w1

  -- What the store has under the pull request's number.
  pub approve_row : Result (Option PendingDeploy) → String → ℤ → Identity → World K → World K
  approve_row (err _) user pr ident w = send (reply_ephemeral user "not found") w
  approve_row (ok none) user pr ident w = send (reply_ephemeral user "not found") w
  approve_row (ok (some d)) user pr ident w = approve_found d pr ident w

  pub approve_verdict : Membership → String → ℤ → World K → World K
  approve_verdict member_error user pr w = send (reply_ephemeral user "permissions not validated") w
  approve_verdict (membership false ident) user pr w = send (reply_ephemeral user "not a member") w
  approve_verdict (membership true ident) user pr w =
      approve_row (get env (config_key pr) w) user pr ident w

  pub approve_parsed : Option ℤ → String → World K → World K
  approve_parsed none user w = w
  approve_parsed (some pr) user w =
      approve_verdict (env.is_member user) user pr (remember env user w)

  -- handleApprove
  pub handle_approve : String → String → World K → World K
  handle_approve user value w = approve_parsed (atoi value) user w
