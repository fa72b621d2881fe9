-- ===== src/Bot/Mention/Frame.antt =====
-- Every branch of `handleMention` keeps the table well formed and only adds to the history.
use deploy_bot.Prelude.{
  ℤ, String, refl, Option, none, some, Bool, true, false, List, inl, atoi, ◌==◌, if◌then◌else◌,
}
use deploy_bot.Config.{AppConfig, app_by_name}
use deploy_bot.Store.Types.{PendingDeploy, HistoryEntry}
use deploy_bot.Store.Pending.{Result, ok, err, get, get_all}
use deploy_bot.Store.History.{get_history}
use deploy_bot.Bot.Member.{remember}
use deploy_bot.World.{
  Env, World, Outcome, done, failed, Membership, membership, member_error, GithubError, no_change,
}
use deploy_bot.Bot.Approve.{config_key}
use deploy_bot.Bot.Cancel.Frame.{Advances-do_cancel_deploy}
use deploy_bot.Bot.Submit.Frame.{Advances-submit_handle}
use deploy_bot.Bot.Command.{
  fields, MentionCommand, help, unknown, list_apps, list_conflicts, missing_argument, status,
  history, tags, deploy, cancel, nudge, rollback, parse_mention, find_rollback_entries,
}
use deploy_bot.Bot.Mention.{
  mention_params, AppMentionEvent, MentionDeploy, mention_row, mention_created, mention_failure,
  mention_unlocked, mention_pr, mention_branch, mention_locked, mention_tag, mention_approver,
  mention_app, mention_verdict, handle_mention_deploy, rollback_found, rollback_entries,
  rollback_verdict, handle_mention_rollback, mention_cancel_params, nudge_row, nudge_parsed,
  handle_mention_nudge, handle_mention_status, history_reply, tags_reply, run_mention,
  handle_mention,
}
use deploy_bot.Bot.Frame.{
  Advances-remember, Advances, Advances-trans, Advances-set, Advances-send, Advances-release,
  Advances-gauge, Advances-acquire,
}

module _ {K : Type 0} (env : Env K) where
  abbrev Moves : World K → World K → Type 0
  Moves = Advances env.cfg.org env.cfg.repo

  module _ (user : String) (d : MentionDeploy) where
    Advances-created :
        (a : AppConfig) (pr : ℤ) (url : String) (w : World K)
        → Moves (mention_created env user d a pr url w) w
    unfolding mention_created mention_row
    Advances-created a pr url w = Advances-trans (Advances-send env _ _) (
        Advances-trans (Advances-gauge env _) (
          Advances-trans (Advances-send env _ _) (
            Advances-trans (Advances-send env _ _) (
              Advances-trans (Advances-submit_handle env (env.posted pr) pr _) (
                Advances-trans (Advances-send env _ _) (
                  Advances-trans (Advances-send env _ _) (
                    Advances-trans (Advances-send env _ _) (
                      Advances-set env (mention_row env user d a pr url w.now)
                        env.cfg.stale_duration w
                        (record { own_org = refl; own_repo = refl; known_state = inl refl })))))))))

    Advances-unlocked : (a : AppConfig) (w : World K) → Moves (mention_unlocked env user d a w) w
    Advances-unlocked a w = Advances-release env a.environment d.app_name w

    Advances-failure : (e : GithubError) (w : World K) → Moves (mention_failure env user d e w) w
    unfolding mention_failure
    Advances-failure no_change w = Advances-send env _ w
    Advances-failure e w = Advances-send env _ w

    Advances-pr :
        (r : Outcome (ℤ × String)) (a : AppConfig) (w : World K)
        → Moves (mention_pr env user d r a w) w
    unfolding mention_pr
    Advances-pr (failed e) a w = Advances-trans (Advances-failure e _) (Advances-unlocked a w)
    Advances-pr (done (pr, url)) a w = Advances-created a pr url w

    Advances-branch :
        (r : Outcome String) (a : AppConfig) (w : World K)
        → Moves (mention_branch env user d r a w) w
    unfolding mention_branch
    Advances-branch (failed e) a w = Advances-trans (Advances-send env _ _) (Advances-unlocked a w)
    Advances-branch (done base) a w =
        Advances-remember env user
          (Advances-pr (env.create_pr (mention_params env user d a base)) a (remember env user w))

    Advances-locked :
        (r : Result Bool) (a : AppConfig) (w : World K) → Moves (mention_locked env user d r a w) w
    unfolding mention_locked
    Advances-locked (err e) a w = Advances-send env _ w
    Advances-locked (ok false) a w = Advances-send env _ w
    Advances-locked (ok true) a w = Advances-branch env.default_branch a w

    Advances-tag :
        (o : Option Bool) (a : AppConfig) (w : World K) → Moves (mention_tag env user d o a w) w
    unfolding mention_tag
    Advances-tag none a w = Advances-send env _ w
    Advances-tag (some false) a w = Advances-send env _ w
    Advances-tag (some true) a w =
        Advances-trans (Advances-locked _ a _)
          (Advances-acquire env a.environment d.app_name user env.cfg.lock_ttl w)

    Advances-approver :
        (m : Membership) (a : AppConfig) (w : World K) → Moves (mention_approver env user d m a w) w
    unfolding mention_approver
    Advances-approver member_error a w = Advances-send env _ w
    Advances-approver (membership false i) a w = Advances-send env _ w
    Advances-approver (membership true i) a w = Advances-tag (env.validate_tag d.app_name d.tag) a w

    Advances-app : (o : Option AppConfig) (w : World K) → Moves (mention_app env user d o w) w
    unfolding mention_app
    Advances-app none w = Advances-send env _ w
    Advances-app (some a) w = named (d.approver_id == "")
      where
        named :
            (b : Bool)
            → Moves
                (if b
                  then mention_tag env user d (env.validate_tag d.app_name d.tag) a w
                  else mention_approver env user d
                      (env.is_member d.approver_id)
                      a
                      (remember env d.approver_id w))
                w
        named true = Advances-tag (env.validate_tag d.app_name d.tag) a w
        named false =
            Advances-remember env d.approver_id
              (Advances-approver (env.is_member d.approver_id) a (remember env d.approver_id w))

    Advances-deploy : (w : World K) → Moves (handle_mention_deploy env user d w) w
    unfolding handle_mention_deploy
    Advances-deploy w =
        Advances-remember env user (verdict (env.is_member user) (remember env user w))
      where
        verdict : (m : Membership) (v : World K) → Moves (mention_verdict env user d m v) v
        verdict member_error v = unfold mention_verdict in Advances-send env _ v
        verdict (membership false i) v = unfold mention_verdict in Advances-send env _ v
        verdict (membership true i) v =
            unfold mention_verdict in Advances-app (app_by_name env.cfg d.app_name) v

  Advances-found :
      (o : Option (HistoryEntry × HistoryEntry)) (user app : String) (w : World K)
      → Moves (rollback_found env o user app w) w
  unfolding rollback_found
  Advances-found none user app w = Advances-send env _ w
  Advances-found (some (current, previous)) user app w = Advances-deploy user _ w

  Advances-entries :
      (r : Result (List HistoryEntry)) (user app : String) (w : World K)
      → Moves (rollback_entries env r user app w) w
  unfolding rollback_entries
  Advances-entries (err e) user app w = Advances-send env _ w
  Advances-entries (ok es) user app w = Advances-found (find_rollback_entries es app) user app w

  Advances-rollback :
      (user app : String) (w : World K) → Moves (handle_mention_rollback env user app w) w
  unfolding handle_mention_rollback
  Advances-rollback user app w =
      Advances-remember env user (verdict (env.is_member user) (remember env user w))
    where
      verdict : (m : Membership) (v : World K) → Moves (rollback_verdict env m user app v) v
      verdict member_error v = unfold rollback_verdict in Advances-send env _ v
      verdict (membership false i) v = unfold rollback_verdict in Advances-send env _ v
      verdict (membership true i) v =
          unfold rollback_verdict in Advances-entries (get_history env app _ v) user app v

  -- What only replies moves nothing.
  Advances-nudge : (pr_arg : String) (w : World K) → Moves (handle_mention_nudge env pr_arg w) w
  unfolding handle_mention_nudge
  Advances-nudge pr_arg w = parsed (atoi pr_arg)
    where
      row : (r : Result (Option PendingDeploy)) → Moves (nudge_row env r w) w
      row (err e) = unfold nudge_row in Advances-send env _ w
      row (ok none) = unfold nudge_row in Advances-send env _ w
      row (ok (some e)) = unfold nudge_row in Advances-send env _ w

      parsed : (o : Option ℤ) → Moves (nudge_parsed env o w) w
      parsed none = unfold nudge_parsed in Advances-send env _ w
      parsed (some pr) = unfold nudge_parsed in row (get env (config_key env pr) w)

  Advances-status :
      (e app : String) (r : Result (List PendingDeploy)) (w : World K)
      → Moves (handle_mention_status env e app r w) w
  unfolding handle_mention_status
  Advances-status e app (err x) w = Advances-send env _ w
  Advances-status e app (ok ds) w = Advances-send env _ w

  Advances-history :
      (r : Result (List HistoryEntry)) (w : World K) → Moves (history_reply env r w) w
  unfolding history_reply
  Advances-history (err e) w = Advances-send env _ w
  Advances-history (ok es) w = Advances-send env _ w

  Advances-tags : (o : Option AppConfig) (w : World K) → Moves (tags_reply env o w) w
  unfolding tags_reply
  Advances-tags none w = Advances-send env _ w
  Advances-tags (some a) w = Advances-send env _ w

  Advances-run :
      (c : MentionCommand) (user : String) (w : World K) → Moves (run_mention env c user w) w
  unfolding run_mention
  Advances-run help user w = Advances-send env _ w
  Advances-run unknown user w = Advances-send env _ w
  Advances-run list_apps user w = Advances-send env _ w
  Advances-run list_conflicts user w = Advances-send env _ w
  Advances-run missing_argument user w = Advances-send env _ w
  Advances-run (status e app) user w = Advances-status e app (get_all env w) w
  Advances-run (history args) user w = Advances-history (get_history env args.app_filter _ w) w
  Advances-run (tags app) user w = Advances-tags (app_by_name env.cfg app) w
  Advances-run (deploy app tag approver reason) user w = Advances-deploy user _ w
  Advances-run (cancel pr_arg) user w =
      Advances-do_cancel_deploy env (mention_cancel_params env user) pr_arg w
  Advances-run (nudge pr_arg) user w = Advances-nudge pr_arg w
  Advances-run (rollback app) user w = Advances-rollback user app w

  pub Advances-handle_mention :
      (evt : AppMentionEvent) (w : World K) → Moves (handle_mention env evt w) w
  unfolding handle_mention
  Advances-handle_mention evt w = Advances-run (parse_mention (fields evt.text)) evt.user_id w
