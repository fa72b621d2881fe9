-- ===== src/Bot/Submit.antt =====
pub mod Frame
pub mod Steps
pub mod Guards
pub mod Outcomes
-- `handleDeploySubmit` of internal/bot/actions.go: the request for a deploy, from the modal.
use deploy_bot.Prelude.{
  ℕ, ◌+◌, ℤ, pos, String, Bool, true, false, Option, none, some, List, [], ◌∷◌, ◌==◌, if◌then◌else◌,
}
use Prim.Native.String.{◌++◌ as append}
use deploy_bot.Config.{AppConfig, app_by_name, deploy_label, pending_label}
use deploy_bot.Store.Types.{Key, PendingDeploy, key_of, state_pending}
use deploy_bot.Store.Pending.{Result, ok, err, set, set_slack_handle, get_by_env_app}
use deploy_bot.Store.Locks.{acquire_lock, release_lock}
use deploy_bot.World.{
  Env, World, Effect, Outcome, done, failed, AuditEvent, Identity, Membership, membership,
  member_error, CreatePrParams, GithubError, no_change, rate_limited, Resolution, resolved,
  unresolved, send, post_slack, audit_log, record_deploy, comment, add_labels,
}
use deploy_bot.Bot.Member.{remember}
use deploy_bot.Bot.Tasks.{Task, sends, posts_threaded, run_all}
use deploy_bot.Bot.Approve.{config_key, update_pending_gauge}
use deploy_bot.Bot.Cancel.{identity_of}

-- What the modal and the callback carry. `app_name` and `tag` are the selected options.
pub record Submission : Type 0 where
  pub app_name : String
  pub environment : String
  pub tag_value : String
  pub manual_tag : String
  pub reason : String
  pub approver_id : String
  pub requester_id : String
  pub requester_name : String

-- The full name of the app, rebuilt from the two selections.
unfoldable pub app_value : Submission → String
app_value s = append s.app_name (append "-" s.environment)

-- A tag typed in overrides the selected one.
pub tag_of : Submission → String
tag_of s = if s.manual_tag == "" then s.tag_value else s.manual_tag

abbrev or_else : String → String → String
or_else a b = if a == "" then b else a

-- The name in the pull request and its comments.
requester_name_of : Resolution → Submission → String
requester_name_of (unresolved i) s = or_else s.requester_name s.requester_id
requester_name_of (resolved i) s = or_else i.github_login (or_else s.requester_name s.requester_id)

pub submit_params : Submission → AppConfig → Resolution → String → CreatePrParams
submit_params s a r base = record {
  app = app_value s;
  environment = s.environment;
  tag = tag_of s;
  kustomize_path = a.kustomize_path;
  base_branch = base;
  requester = requester_name_of r s;
  reason = s.reason;
  requester_slack_id = s.requester_id;
}

submit_audit : String → Submission → Resolution → ℤ → String → String → AuditEvent
submit_audit event_type s r pr url reason = record {
  event_type = event_type;
  trigger = "slash_command";
  app = app_value s;
  environment = s.environment;
  tag = tag_of s;
  pr_number = pr;
  pr_url = url;
  reason = reason;
  rejection = "";
  actor_email = (identity_of r).email;
  actor_name = (identity_of r).name;
  auto_deploy = false;
}

module _ {K : Type 0} (env : Env K) where
  -- A failed post leaves the handle empty.
  unfoldable pub submit_handle : Option (String × String) → ℤ → World K → World K
  submit_handle none pr w = w
  submit_handle (some (channel, ts)) pr w =
      if ts == "" then w else (set_slack_handle env (config_key env pr) channel ts w).1

module _ {K : Type 0} (env : Env K) (s : Submission) where
  pub submitted_deploy : ℤ → String → ℕ → PendingDeploy
  submitted_deploy pr url now = record {
    github_org = env.cfg.org;
    github_repo = env.cfg.repo;
    app = app_value s;
    environment = s.environment;
    tag = tag_of s;
    pr_number = pr;
    pr_url = url;
    requester = requester_name_of (env.resolve_identity s.requester_id) s;
    requester_id = s.requester_id;
    approver_id = s.approver_id;
    reason = s.reason;
    requested_at = now;
    expires_at = now + env.cfg.stale_duration;
    state = state_pending;
    slack_channel = "";
    slack_message_ts = "";
  }

  -- The four goroutines; what posting the approval request returns is `env.posted`.
  pub submit_tasks : ℤ → String → List Task
  submit_tasks pr url =
      let r = env.resolve_identity s.requester_id in
      sends (add_labels pr (deploy_label env.cfg ∷ pending_label env.cfg ∷ []))
      ∷ sends (comment "requested" pr (requester_name_of r s))
      ∷ posts_threaded "approval request" s.environment pr
      ∷ sends (audit_log (submit_audit "requested" s r pr url s.reason))
      ∷ []

  pub submit_created : ℤ → String → World K → World K
  submit_created pr url w =
      let w1 = (set env (submitted_deploy pr url w.now) env.cfg.stale_duration w).1 in
      let w2 =
        run_all env (submit_tasks pr url) (send (record_deploy (app_value s) "requested") w1) in
      update_pending_gauge env (submit_handle env (env.posted pr) pr w2)

  -- The notices after a pull request that could not be created.
  pub submit_failure : GithubError → World K → World K
  submit_failure no_change w =
      send (audit_log (submit_audit "noop" s (env.resolve_identity s.requester_id) (pos 0) "" ""))
        (send (post_slack "no-op" "" (pos 0)) w)
  submit_failure rate_limited w = send (post_slack "rate limited" "" (pos 0)) w
  submit_failure e w = send (post_slack "no pull request" "" (pos 0)) w

  abbrev pub unlocked : World K → World K
  unlocked w = release_lock env s.environment (app_value s) w

  pub submit_pr : Outcome (ℤ × String) → World K → World K
  submit_pr (failed e) w = submit_failure e (unlocked w)
  submit_pr (done (pr, url)) w = submit_created pr url w

  pub submit_branch : Outcome String → AppConfig → World K → World K
  submit_branch (failed e) a w = unlocked w
  submit_branch (done base) a w =
      submit_pr (env.create_pr (submit_params s a (env.resolve_identity s.requester_id) base)) w

  -- The notice names the pull request that is in progress, where the store has it.
  busy_notice : Result (Option PendingDeploy) → Effect
  busy_notice (ok (some d)) = post_slack "already in progress" "" d.pr_number
  busy_notice (ok none) = post_slack "already in progress" "" (pos 0)
  busy_notice (err _) = post_slack "already in progress" "" (pos 0)

  pub submit_locked : Result Bool → AppConfig → World K → World K
  submit_locked (err _) a w = send (post_slack "lock not checked" "" (pos 0)) w
  submit_locked (ok false) a w =
      send (busy_notice (get_by_env_app env s.environment (app_value s) w)) w
  submit_locked (ok true) a w = submit_branch env.default_branch a (remember env s.requester_id w)

  pub submit_app : Option AppConfig → World K → World K
  submit_app none w = w
  submit_app (some a) w =
      let r = acquire_lock env s.environment (app_value s) s.requester_id env.cfg.lock_ttl w in
      submit_locked r.0 a r.1

  pub submit_tag : Option Bool → World K → World K
  submit_tag none w = send (post_slack "tag not found" "" (pos 0)) w
  submit_tag (some false) w = send (post_slack "tag not found" "" (pos 0)) w
  submit_tag (some true) w = submit_app (app_by_name env.cfg (app_value s)) w

  pub submit_approver : Membership → World K → World K
  submit_approver member_error w = send (post_slack "approver not validated" "" (pos 0)) w
  submit_approver (membership false i) w = send (post_slack "approver not a member" "" (pos 0)) w
  submit_approver (membership true i) w = submit_tag (env.validate_tag (app_value s) (tag_of s)) w

  -- handleDeploySubmit
  pub handle_deploy_submit : World K → World K
  handle_deploy_submit w =
      submit_approver (env.is_member s.approver_id) (remember env s.approver_id w)
