-- ===== src/Bot/Mention/Laws.antt =====
-- Who may do what by a mention.
use deploy_bot.Prelude.{ℤ, String, ◌≢◌, refl, Option, none, some, true, false, List, arith, atoi}
use deploy_bot.Config.{AppConfig, app_by_name}
use deploy_bot.Store.Types.{PendingDeploy, HistoryEntry}
use deploy_bot.Store.Pending.{Result, ok, err, get, get_all}
use deploy_bot.Store.History.{get_history}
use deploy_bot.Bot.Member.{remember}
use deploy_bot.World.{Env, World, Effect, Identity, Membership, membership, member_error, send}
use deploy_bot.Bot.Approve.{config_key}
use deploy_bot.Bot.Approve.Effects.{Untouched, Untouched-remember}
use deploy_bot.Bot.Command.{
  fields, MentionCommand, help, unknown, list_apps, list_conflicts, missing_argument, status,
  history, tags, deploy, cancel, nudge, rollback, parse_mention,
}
use deploy_bot.Bot.Mention.{
  AppMentionEvent, MentionDeploy, mention_verdict, handle_mention_deploy, rollback_verdict,
  handle_mention_rollback, nudge_row, nudge_parsed, handle_mention_nudge, handle_mention_status,
  history_reply, tags_reply, run_mention, handle_mention,
}

module _ {K : Type 0} (env : Env K) where
  Untouched-send : (e : Effect) (w : World K) → Untouched (send e w) w
  unfolding send
  Untouched-send e w = ground arith

  deploy-Untouched :
      (m : Membership) (user : String) (d : MentionDeploy) (w : World K)
      → ((i : Identity) → m ≢ membership true i)
      → Untouched (mention_verdict env user d m w) w
  unfolding mention_verdict
  deploy-Untouched member_error user d w h = Untouched-send _ w
  deploy-Untouched (membership false i) user d w h = Untouched-send _ w
  deploy-Untouched (membership true i) user d w h = absurd (h i refl)

  rollback-Untouched :
      (m : Membership) (user app : String) (w : World K)
      → ((i : Identity) → m ≢ membership true i)
      → Untouched (rollback_verdict env m user app w) w
  unfolding rollback_verdict
  rollback-Untouched member_error user app w h = Untouched-send _ w
  rollback-Untouched (membership false i) user app w h = Untouched-send _ w
  rollback-Untouched (membership true i) user app w h = absurd (h i refl)

  nudge-Untouched :
      (pr_arg : String) (w : World K) → Untouched (handle_mention_nudge env pr_arg w) w
  unfolding handle_mention_nudge
  nudge-Untouched pr_arg w = parsed (atoi pr_arg)
    where
      row : (r : Result (Option PendingDeploy)) → Untouched (nudge_row env r w) w
      row (err e) = unfold nudge_row in Untouched-send _ w
      row (ok none) = unfold nudge_row in Untouched-send _ w
      row (ok (some e)) = unfold nudge_row in Untouched-send _ w

      parsed : (o : Option ℤ) → Untouched (nudge_parsed env o w) w
      parsed none = unfold nudge_parsed in Untouched-send _ w
      parsed (some pr) = unfold nudge_parsed in row (get env (config_key env pr) w)

  status-Untouched :
      (e app : String) (r : Result (List PendingDeploy)) (w : World K)
      → Untouched (handle_mention_status env e app r w) w
  unfolding handle_mention_status
  status-Untouched e app (err x) w = Untouched-send _ w
  status-Untouched e app (ok ds) w = Untouched-send _ w

  history-Untouched :
      (r : Result (List HistoryEntry)) (w : World K) → Untouched (history_reply env r w) w
  unfolding history_reply
  history-Untouched (err e) w = Untouched-send _ w
  history-Untouched (ok es) w = Untouched-send _ w

  tags-Untouched : (o : Option AppConfig) (w : World K) → Untouched (tags_reply env o w) w
  unfolding tags_reply
  tags-Untouched none w = Untouched-send _ w
  tags-Untouched (some a) w = Untouched-send _ w

  run-Untouched :
      (c : MentionCommand) (user : String) (w : World K)
      → ((i : Identity) → env.is_member user ≢ membership true i)
      → ((pr_arg : String) → c ≢ cancel pr_arg)
      → Untouched (run_mention env c user w) w
  unfolding run_mention handle_mention_deploy handle_mention_rollback
  run-Untouched help user w h n = Untouched-send _ w
  run-Untouched unknown user w h n = Untouched-send _ w
  run-Untouched list_apps user w h n = Untouched-send _ w
  run-Untouched list_conflicts user w h n = Untouched-send _ w
  run-Untouched missing_argument user w h n = Untouched-send _ w
  run-Untouched (status e app) user w h n = status-Untouched e app (get_all env w) w
  run-Untouched (history args) user w h n =
      history-Untouched (get_history env args.app_filter _ w) w
  run-Untouched (tags app) user w h n = tags-Untouched (app_by_name env.cfg app) w
  run-Untouched (deploy app tag approver reason) user w h n =
      Untouched-remember env user
        (deploy-Untouched (env.is_member user) user _ (remember env user w) h)
  run-Untouched (cancel pr_arg) user w h n = absurd (n pr_arg refl)
  run-Untouched (nudge pr_arg) user w h n = nudge-Untouched pr_arg w
  run-Untouched (rollback app) user w h n =
      Untouched-remember env user
        (rollback-Untouched (env.is_member user) user app (remember env user w) h)

  -- A mention by somebody whom the validator does not confirm changes no row, no entry of the
  -- history, no key of Redis but the cache of identities, and not the clock, whatever its text,
  -- unless its text asks for a cancellation.
  pub handle_mention-unauthorized :
      (evt : AppMentionEvent) (w : World K)
      → ((i : Identity) → env.is_member evt.user_id ≢ membership true i)
      → ((pr_arg : String) → parse_mention (fields evt.text) ≢ cancel pr_arg)
      → Untouched (handle_mention env evt w) w
  unfolding handle_mention
  handle_mention-unauthorized evt w h n =
      run-Untouched (parse_mention (fields evt.text)) evt.user_id w h n
