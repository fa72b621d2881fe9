-- ===== src/Bot/Ecr.antt =====
pub mod Frame
pub mod Guards
pub mod Prod
pub mod Outcomes
-- internal/bot/ecr.go: a push to the image registry, deployed at once or after an approval.
use deploy_bot.Prelude.{
  ℕ, ◌+◌, ℤ, pos, String, Bool, true, false, Option, none, some, List, [], ◌∷◌, ◌==◌, if◌then◌else◌,
}
use Prim.Native.String.{◌++◌ as append}
use deploy_bot.Config.{AppConfig, app_by_name, effective_auto_deploy, deploy_label, pending_label}
use deploy_bot.Store.Types.{PendingDeploy, HistoryEntry, state_pending}
use deploy_bot.Store.Pending.{Result, ok, err, set}
use deploy_bot.Store.Locks.{acquire_lock, is_locked, release_lock}
use deploy_bot.World.{
  Env, World, Outcome, done, failed, AuditEvent, CreatePrParams, GithubError, no_change, send,
  post_slack, audit_log, record_deploy, comment, close_pr, remove_label, add_labels,
  start_health_check,
}
use deploy_bot.Bot.Tasks.{Task, sends, releases_lock, pushes, posts_threaded, run_all}
use deploy_bot.Bot.Merge.{MergeResult, merge_with_retry}
use deploy_bot.Bot.Submit.{submit_handle}
use deploy_bot.Bot.Approve.{update_pending_gauge}

-- queue.ECRPushEvent
pub record EcrPushEvent : Type 0 where
  pub app : String
  pub tag : String
  pub repository : String

abbrev ecr_requester_id : String
ecr_requester_id = ""

abbrev ecr_requester_name : String
ecr_requester_name = "ECR"

ecr_reason : EcrPushEvent → String
ecr_reason evt = append "ECR push: " (append evt.repository (append ":" evt.tag))

ecr_params : EcrPushEvent → AppConfig → String → CreatePrParams
ecr_params evt a base = record {
  app = evt.app;
  environment = a.environment;
  tag = evt.tag;
  kustomize_path = a.kustomize_path;
  base_branch = base;
  requester = ecr_requester_name;
  reason = ecr_reason evt;
  requester_slack_id = "";
}

-- The parameters of the merge carry no base branch and no requester.
pub ecr_merge_params : EcrPushEvent → AppConfig → CreatePrParams
ecr_merge_params evt a = record {
  app = evt.app;
  environment = a.environment;
  tag = evt.tag;
  kustomize_path = a.kustomize_path;
  base_branch = "";
  requester = "";
  reason = "";
  requester_slack_id = "";
}

ecr_audit : String → EcrPushEvent → AppConfig → ℤ → String → String → Bool → AuditEvent
ecr_audit event_type evt a pr url reason auto_deploy = record {
  event_type = event_type;
  trigger = "ecr_push";
  app = evt.app;
  environment = a.environment;
  tag = evt.tag;
  pr_number = pr;
  pr_url = url;
  reason = reason;
  rejection = "";
  actor_email = "";
  actor_name = "";
  auto_deploy = auto_deploy;
}

pub ecr_entry : EcrPushEvent → AppConfig → ℤ → String → String → ℕ → HistoryEntry
ecr_entry evt a pr url sha now = record {
  github_org = "";
  github_repo = "";
  event_type = "approved";
  app = evt.app;
  environment = a.environment;
  tag = evt.tag;
  pr_number = pr;
  pr_url = url;
  approver_id = "";
  requester_id = ecr_requester_id;
  completed_at = now;
  gitops_commit_sha = sha;
  slack_channel = "";
  slack_message_ts = "";
}

module _ {K : Type 0} (env : Env K) (evt : EcrPushEvent) where
  module _ (a : AppConfig) where
    abbrev pub unlocked : World K → World K
    unlocked w = release_lock env a.environment evt.app w

    module _ (pr : ℤ) (url : String) where
      -- The five goroutines of notifyECRAutoDeployFailed.
      pub failed_tasks : List Task
      failed_tasks =
          sends (comment "auto-deploy failed" pr "")
          ∷ sends (close_pr pr)
          ∷ releases_lock a.environment evt.app
          ∷ posts_threaded "auto-deploy failed" a.environment pr
          ∷ sends (
              audit_log (
                ecr_audit "conflict_failed" evt a pr url "merge conflict could not be auto-resolved"
                  false))
          ∷ []

      -- The six goroutines of an auto-deploy that was merged.
      pub deployed_tasks : String → ℕ → List Task
      deployed_tasks sha now =
          sends (comment "approved" pr ecr_requester_name)
          ∷ sends (remove_label pr (pending_label env.cfg))
          ∷ releases_lock a.environment evt.app
          ∷ posts_threaded "auto-deployed" a.environment pr
          ∷ sends (audit_log (ecr_audit "approved" evt a pr url "" true))
          ∷ pushes (ecr_entry evt a pr url sha now)
          ∷ []

      pub deployed : String → World K → World K
      deployed sha w = send (start_health_check evt.app pr) (
          update_pending_gauge env
            (run_all env (deployed_tasks sha w.now) (send (record_deploy evt.app "approved") w)))

      pub auto_outcome : Outcome MergeResult × World K → World K
      auto_outcome (failed e, w) = run_all env failed_tasks w
      auto_outcome (done r, w) =
          if r.no_op
          then unlocked (send (close_pr pr) (send (comment "no-op" pr evt.app) w))
          else deployed r.sha w

      -- handleECRAutoDeploy
      pub handle_ecr_auto_deploy : World K → World K
      handle_ecr_auto_deploy w = auto_outcome (merge_with_retry env pr (ecr_merge_params evt a) w)

      ecr_deploy : ℕ → PendingDeploy
      ecr_deploy now = record {
        github_org = env.cfg.org;
        github_repo = env.cfg.repo;
        app = evt.app;
        environment = a.environment;
        tag = evt.tag;
        pr_number = pr;
        pr_url = url;
        requester = ecr_requester_name;
        requester_id = ecr_requester_id;
        approver_id = "";
        reason = ecr_reason evt;
        requested_at = now;
        expires_at = now + env.cfg.stale_duration;
        state = state_pending;
        slack_channel = "";
        slack_message_ts = "";
      }

      -- The four goroutines of handleECRApprovalRequest.
      pub request_tasks : List Task
      request_tasks =
          sends (add_labels pr (deploy_label env.cfg ∷ pending_label env.cfg ∷ []))
          ∷ sends (comment "requested" pr ecr_requester_name)
          ∷ posts_threaded "approval request" a.environment pr
          ∷ sends (audit_log (ecr_audit "requested" evt a pr url (ecr_reason evt) false))
          ∷ []

      -- handleECRApprovalRequest; the handle of the post is written back as in handleDeploySubmit.
      pub handle_ecr_approval_request : World K → World K
      handle_ecr_approval_request w =
          let w1 = (set env (ecr_deploy w.now) env.cfg.stale_duration w).1 in
          let w2 = run_all env request_tasks (send (record_deploy evt.app "requested") w1) in
          update_pending_gauge env (submit_handle env (env.posted pr) pr w2)

      pub ecr_created : Bool → World K → World K
      ecr_created true w = handle_ecr_auto_deploy w
      ecr_created false w = handle_ecr_approval_request w

    pub ecr_failure : GithubError → World K → World K
    ecr_failure no_change w =
        send (audit_log (ecr_audit "noop" evt a (pos 0) "" "" false))
          (send (post_slack "no-op" "" (pos 0)) w)
    ecr_failure e w = send (post_slack "no pull request" "" (pos 0)) w

    pub ecr_pr : Outcome (ℤ × String) → World K → World K
    ecr_pr (failed e) w = ecr_failure e (unlocked w)
    ecr_pr (done (pr, url)) w =
        ecr_created pr url (effective_auto_deploy a env.cfg.allow_prod_auto_deploy) w

    pub ecr_branch : Outcome String → World K → World K
    ecr_branch (failed e) w = unlocked w
    ecr_branch (done base) w = ecr_pr (env.create_pr (ecr_params evt a base)) w

    pub ecr_acquired : Result Bool → World K → World K
    ecr_acquired (err _) w = w
    ecr_acquired (ok false) w = w
    ecr_acquired (ok true) w = ecr_branch env.default_branch w

    pub ecr_checked : Result Bool → World K → World K
    ecr_checked (err _) w = w
    ecr_checked (ok true) w = w
    ecr_checked (ok false) w =
        let r = acquire_lock env a.environment evt.app ecr_requester_name env.cfg.lock_ttl w in
        ecr_acquired r.0 r.1

  pub ecr_app : Option AppConfig → World K → World K
  ecr_app none w = w
  ecr_app (some a) w = ecr_checked a (is_locked env a.environment evt.app w) w

  -- handleECRPush
  pub handle_ecr_push : World K → World K
  handle_ecr_push w = ecr_app (app_by_name env.cfg evt.app) w
