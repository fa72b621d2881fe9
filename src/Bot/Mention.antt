-- ===== src/Bot/Mention.antt =====
pub mod Frame
pub mod Laws
-- internal/bot/mention.go: what a mention of the bot in a channel does. A reply is an effect with
-- the number of the pull request that its text names, or 0.
use Prim.Native.String.{◌++◌ as append}
use deploy_bot.Prelude.{
  ℕ, ◌+◌, ℤ, pos, String, Bool, true, false, Option, none, some, List, [], ◌∷◌, ◌==◌, atoi,
  if◌then◌else◌,
}
use deploy_bot.Config.{AppConfig, app_by_name, deploy_label, pending_label}
use deploy_bot.Store.Types.{PendingDeploy, HistoryEntry, state_pending}
use deploy_bot.Store.Pending.{Result, ok, err, get, get_all, set, get_by_env_app}
use deploy_bot.Store.History.{get_history}
use deploy_bot.Store.Locks.{acquire_lock, release_lock}
use deploy_bot.World.{
  Env, World, Effect, Outcome, done, failed, AuditEvent, Membership, membership, member_error,
  CreatePrParams, GithubError, no_change, Resolution, resolved, unresolved, send, reply_mention,
  post_slack, audit_log, record_deploy, comment, add_labels,
}
use deploy_bot.Bot.Approve.{config_key, update_pending_gauge}
use deploy_bot.Bot.Cancel.{CancelParams, do_cancel_deploy, identity_of}
use deploy_bot.Bot.Member.{remember}
use deploy_bot.Bot.Submit.{submit_handle}
use deploy_bot.Bot.Command.{
  HistoryArgs, fields, MentionCommand, help, unknown, list_apps, list_conflicts, missing_argument,
  status, history, tags, deploy, cancel, nudge, rollback, parse_mention, status_rows,
  find_rollback_entries,
}

-- queue.AppMentionEvent
pub record AppMentionEvent : Type 0 where
  pub user_id : String
  pub channel : String
  pub text : String
  pub thread_ts : String

pub record MentionDeploy : Type 0 where
  pub app_name : String
  pub tag : String
  pub approver_id : String
  pub reason : String

-- The login, or the Slack user where there is none.
mention_requester : Resolution → String → String
mention_requester (unresolved i) user = append "slack:" user
mention_requester (resolved i) user =
    if i.github_login == "" then append "slack:" user else i.github_login

module _ {K : Type 0} (env : Env K) where
  abbrev reply : String → World K → World K
  reply text w = send (reply_mention text (pos 0)) w

  module _ (user : String) (d : MentionDeploy) where
    abbrev requester : String
    requester = mention_requester (env.resolve_identity user) user

    mention_params : AppConfig → String → CreatePrParams
    unfolding mention_requester
    mention_params a base = record {
      app = d.app_name;
      environment = a.environment;
      tag = d.tag;
      kustomize_path = a.kustomize_path;
      base_branch = base;
      requester = requester;
      reason = d.reason;
      requester_slack_id = user;
    }

    pub mention_row : AppConfig → ℤ → String → ℕ → PendingDeploy
    unfolding mention_requester
    mention_row a pr url now = record {
      github_org = env.cfg.org;
      github_repo = env.cfg.repo;
      app = d.app_name;
      environment = a.environment;
      tag = d.tag;
      pr_number = pr;
      pr_url = url;
      requester = requester;
      requester_id = user;
      approver_id = d.approver_id;
      reason = d.reason;
      requested_at = now;
      expires_at = now + env.cfg.stale_duration;
      state = state_pending;
      slack_channel = "";
      slack_message_ts = "";
    }

    mention_audit : AppConfig → ℤ → String → AuditEvent
    mention_audit a pr url = record {
      event_type = "requested";
      trigger = "mention";
      app = d.app_name;
      environment = a.environment;
      tag = d.tag;
      pr_number = pr;
      pr_url = url;
      reason = d.reason;
      rejection = "";
      actor_email = (identity_of (env.resolve_identity user)).email;
      actor_name = (identity_of (env.resolve_identity user)).name;
      auto_deploy = false;
    }

    -- The row, the labels and the comment, the approval request and its handle, the audit log.
    pub mention_created : AppConfig → ℤ → String → World K → World K
    mention_created a pr url w =
        let w1 = (set env (mention_row a pr url w.now) env.cfg.stale_duration w).1 in
        let w2 = send (add_labels pr (deploy_label env.cfg ∷ pending_label env.cfg ∷ [])) w1 in
        let w3 =
          send (post_slack "approval request" "" pr) (send (comment "requested" pr requester) w2) in
        let w4 =
          send (audit_log (mention_audit a pr url)) (submit_handle env (env.posted pr) pr w3) in
        send (reply_mention "requested" pr)
          (update_pending_gauge env (send (record_deploy d.app_name "requested") w4))

    pub mention_failure : GithubError → World K → World K
    mention_failure no_change w = reply "no changes" w
    mention_failure e w = reply "no pull request" w

    abbrev pub mention_unlocked : AppConfig → World K → World K
    mention_unlocked a w = release_lock env a.environment d.app_name w

    pub mention_pr : Outcome (ℤ × String) → AppConfig → World K → World K
    mention_pr (failed e) a w = mention_failure e (mention_unlocked a w)
    mention_pr (done (pr, url)) a w = mention_created a pr url w

    pub mention_branch : Outcome String → AppConfig → World K → World K
    mention_branch (failed e) a w = reply "no default branch" (mention_unlocked a w)
    mention_branch (done base) a w =
        mention_pr (env.create_pr (mention_params a base)) a (remember env user w)

    busy_reply : Result (Option PendingDeploy) → Effect
    busy_reply (ok (some e)) = reply_mention "already in progress" e.pr_number
    busy_reply (ok none) = reply_mention "already in progress" (pos 0)
    busy_reply (err _) = reply_mention "already in progress" (pos 0)

    pub mention_locked : Result Bool → AppConfig → World K → World K
    mention_locked (err _) a w = reply "lock not checked" w
    mention_locked (ok false) a w =
        send (busy_reply (get_by_env_app env a.environment d.app_name w)) w
    mention_locked (ok true) a w = mention_branch env.default_branch a w

    pub mention_tag : Option Bool → AppConfig → World K → World K
    mention_tag none a w = reply "tag not found" w
    mention_tag (some false) a w = reply "tag not found" w
    mention_tag (some true) a w =
        let r = acquire_lock env a.environment d.app_name user env.cfg.lock_ttl w in
        mention_locked r.0 a r.1

    pub mention_approver : Membership → AppConfig → World K → World K
    mention_approver member_error a w = reply "approver not validated" w
    mention_approver (membership false i) a w = reply "approver not a member" w
    mention_approver (membership true i) a w = mention_tag (env.validate_tag d.app_name d.tag) a w

    -- An approver is checked where one is named.
    pub mention_app : Option AppConfig → World K → World K
    mention_app none w = reply "unknown app" w
    mention_app (some a) w =
        if d.approver_id == ""
        then mention_tag (env.validate_tag d.app_name d.tag) a w
        else mention_approver (env.is_member d.approver_id) a (remember env d.approver_id w)

    pub mention_verdict : Membership → World K → World K
    mention_verdict member_error w = reply "permissions not validated" w
    mention_verdict (membership false i) w = reply "not a member" w
    mention_verdict (membership true i) w = mention_app (app_by_name env.cfg d.app_name) w

    -- handleMentionDeploy
    pub handle_mention_deploy : World K → World K
    handle_mention_deploy w = mention_verdict (env.is_member user) (remember env user w)

  -- The entry before the newest approved one is deployed again.
  pub rollback_found : Option (HistoryEntry × HistoryEntry) → String → String → World K → World K
  rollback_found none user app w = reply "not enough history" w
  rollback_found (some (current, previous)) user app w =
      handle_mention_deploy user
        (record {
          app_name = app;
          tag = previous.tag;
          approver_id = "";
          reason = append "rollback to " previous.tag;
        })
        w

  pub rollback_entries : Result (List HistoryEntry) → String → String → World K → World K
  unfolding find_rollback_entries
  rollback_entries (err _) user app w = reply "history not fetched" w
  rollback_entries (ok es) user app w = rollback_found (find_rollback_entries es app) user app w

  pub rollback_verdict : Membership → String → String → World K → World K
  rollback_verdict member_error user app w = reply "permissions not validated" w
  rollback_verdict (membership false i) user app w = reply "not a member" w
  rollback_verdict (membership true i) user app w =
      rollback_entries (get_history env app (pos 100) w) user app w

  -- handleMentionRollback
  pub handle_mention_rollback : String → String → World K → World K
  handle_mention_rollback user app w =
      rollback_verdict (env.is_member user) user app (remember env user w)

  -- handleMentionCancel: no fallback name, and only one's own deploys.
  pub mention_cancel_params : String → CancelParams
  mention_cancel_params user = record {
    user_id = user;
    user_name = "";
    trigger = "mention";
    reply_error = λ text. reply_mention text (pos 0);
    reply_success = λ text. reply_mention text (pos 0);
    allow_ecr = false;
  }

  nudge_row : Result (Option PendingDeploy) → World K → World K
  nudge_row (err _) w = reply "not found" w
  nudge_row (ok none) w = reply "not found" w
  nudge_row (ok (some e)) w = send (reply_mention "reminder" e.pr_number) w

  nudge_parsed : Option ℤ → World K → World K
  nudge_parsed none w = reply "invalid number" w
  nudge_parsed (some pr) w = nudge_row (get env (config_key env pr) w) w

  -- handleMentionNudge
  pub handle_mention_nudge : String → World K → World K
  handle_mention_nudge pr_arg w = nudge_parsed (atoi pr_arg) w

  status_reply : List PendingDeploy → String
  status_reply [] = "no pending deployments"
  status_reply (d ∷ ds) = "pending deployments"

  -- handleMentionStatus
  pub handle_mention_status : String → String → Result (List PendingDeploy) → World K → World K
  unfolding status_rows
  handle_mention_status e app (err _) w = reply "deployments not fetched" w
  handle_mention_status e app (ok ds) w = reply (status_reply (status_rows e app ds)) w

  history_reply : Result (List HistoryEntry) → World K → World K
  history_reply (err _) w = reply "history not fetched" w
  history_reply (ok es) w = reply "history" w

  tags_reply : Option AppConfig → World K → World K
  tags_reply none w = reply "unknown app" w
  tags_reply (some a) w = reply "tags" w

  pub run_mention : MentionCommand → String → World K → World K
  run_mention help user w = reply "help" w
  run_mention unknown user w = reply "unknown command" w
  run_mention list_apps user w = reply "apps" w
  run_mention list_conflicts user w = reply "conflicts" w
  run_mention missing_argument user w = reply "missing argument" w
  run_mention (status e app) user w = handle_mention_status e app (get_all env w) w
  run_mention (history args) user w =
      history_reply (get_history env args.app_filter (pos args.limit) w) w
  run_mention (tags app) user w = tags_reply (app_by_name env.cfg app) w
  run_mention (deploy app tag approver reason) user w =
      handle_mention_deploy user
        (record { app_name = app; tag = tag; approver_id = approver; reason = reason }) w
  run_mention (cancel pr_arg) user w = do_cancel_deploy env pr_arg (mention_cancel_params user) w
  run_mention (nudge pr_arg) user w = handle_mention_nudge pr_arg w
  run_mention (rollback app) user w = handle_mention_rollback user app w

  -- handleMention
  pub handle_mention : AppMentionEvent → World K → World K
  unfolding parse_mention fields
  handle_mention evt w = run_mention (parse_mention (fields evt.text)) evt.user_id w
