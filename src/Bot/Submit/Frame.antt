-- ===== src/Bot/Submit/Frame.antt =====
-- Every branch of `handleDeploySubmit` keeps the table well formed and only adds to the history.
use deploy_bot.Prelude.{
  ℤ, String, refl, Option, none, some, Bool, true, false, inl, ◌==◌, if◌then◌else◌,
}
use deploy_bot.Config.{AppConfig, app_by_name}
use deploy_bot.Store.Pending.{Result, ok, err, set_slack_handle}
use deploy_bot.Bot.Member.{remember}
use deploy_bot.World.{
  Env, World, Outcome, done, failed, Membership, membership, member_error, GithubError, no_change,
  rate_limited,
}
use deploy_bot.Bot.Approve.{config_key}
use deploy_bot.Bot.Submit.{
  Submission, app_value, submitted_deploy, submit_tasks, submit_handle, submit_created,
  submit_failure, submit_pr, submit_branch, submit_locked, submit_app, submit_tag, submit_approver,
  handle_deploy_submit, tag_of, unlocked,
}
use deploy_bot.Bot.Frame.{
  Advances-remember, Advances, Advances-refl, Advances-trans, Advances-set, Advances-send,
  Advances-set_slack_handle, Advances-release, Advances-gauge, Advances-run_all, Advances-acquire,
}

module _ {K : Type 0} (env : Env K) where
  abbrev Moves : World K → World K → Type 0
  Moves = Advances env.cfg.org env.cfg.repo

  pub Advances-submit_handle :
      (o : Option (String × String)) (pr : ℤ) (w : World K) → Moves (submit_handle env o pr w) w
  unfolding submit_handle
  Advances-submit_handle none pr w = Advances-refl w
  Advances-submit_handle (some (channel, ts)) pr w = posted (ts == "")
    where
      posted :
          (b : Bool)
          → Moves (if b then w else (set_slack_handle env (config_key env pr) channel ts w).1) w
      posted true = Advances-refl w
      posted false = Advances-set_slack_handle env (config_key env pr) channel ts w

module _ {K : Type 0} (env : Env K) (s : Submission) where
  Advances-created :
      (pr : ℤ) (url : String) (w : World K) → Moves env (submit_created env s pr url w) w
  unfolding submit_created submitted_deploy
  Advances-created pr url w = Advances-trans (Advances-gauge env _) (
      Advances-trans (Advances-submit_handle env (env.posted pr) pr _) (
        Advances-trans (Advances-run_all env (submit_tasks env s pr url) _) (
          Advances-trans (Advances-send env _ _) (
            Advances-set env (submitted_deploy env s pr url w.now) env.cfg.stale_duration w
              (record { own_org = refl; own_repo = refl; known_state = inl refl })))))

  Advances-failure : (e : GithubError) (w : World K) → Moves env (submit_failure env s e w) w
  unfolding submit_failure
  Advances-failure no_change w = Advances-trans (Advances-send env _ _) (Advances-send env _ w)
  Advances-failure rate_limited w = Advances-send env _ w
  Advances-failure e w = Advances-send env _ w

  Advances-unlocked : (w : World K) → Moves env (unlocked env s w) w
  Advances-unlocked w = Advances-release env s.environment (app_value s) w

  Advances-pr : (r : Outcome (ℤ × String)) (w : World K) → Moves env (submit_pr env s r w) w
  unfolding submit_pr
  Advances-pr (failed e) w = Advances-trans (Advances-failure e _) (Advances-unlocked w)
  Advances-pr (done (pr, url)) w = Advances-created pr url w

  Advances-branch :
      (r : Outcome String) (a : AppConfig) (w : World K) → Moves env (submit_branch env s r a w) w
  unfolding submit_branch
  Advances-branch (failed e) a w = Advances-unlocked w
  Advances-branch (done base) a w = Advances-pr (env.create_pr _) w

  Advances-locked :
      (r : Result Bool) (a : AppConfig) (w : World K) → Moves env (submit_locked env s r a w) w
  unfolding submit_locked
  Advances-locked (err e) a w = Advances-send env _ w
  Advances-locked (ok false) a w = Advances-send env _ w
  Advances-locked (ok true) a w =
      Advances-remember env s.requester_id
        (Advances-branch env.default_branch a (remember env s.requester_id w))

  Advances-app : (o : Option AppConfig) (w : World K) → Moves env (submit_app env s o w) w
  unfolding submit_app
  Advances-app none w = Advances-refl w
  Advances-app (some a) w =
      Advances-trans (Advances-locked _ a _)
        (Advances-acquire env s.environment (app_value s) s.requester_id env.cfg.lock_ttl w)

  Advances-tag : (o : Option Bool) (w : World K) → Moves env (submit_tag env s o w) w
  unfolding submit_tag
  Advances-tag none w = Advances-send env _ w
  Advances-tag (some false) w = Advances-send env _ w
  Advances-tag (some true) w = Advances-app (app_by_name env.cfg (app_value s)) w

  Advances-approver : (m : Membership) (w : World K) → Moves env (submit_approver env s m w) w
  unfolding submit_approver
  Advances-approver member_error w = Advances-send env _ w
  Advances-approver (membership false i) w = Advances-send env _ w
  Advances-approver (membership true i) w =
      Advances-tag (env.validate_tag (app_value s) (tag_of s)) w

  pub Advances-handle_deploy_submit : (w : World K) → Moves env (handle_deploy_submit env s w) w
  unfolding handle_deploy_submit
  Advances-handle_deploy_submit w =
      Advances-remember env s.approver_id
        (Advances-approver (env.is_member s.approver_id) (remember env s.approver_id w))
