-- ===== src/Examples/Closings.antt =====
-- Cancelling and rejecting.
use deploy_bot.Prelude.{pos, String, refl, false, atoi}
use deploy_bot.Store.Types.{history_from_pending, key_eq}
use deploy_bot.Store.Table.{find_row}
use deploy_bot.Store.History.{stored_entry}
use deploy_bot.World.{Env, done, post_slack}
use deploy_bot.Bot.Approve.Effects.{Untouched}
use deploy_bot.Bot.Approve.Outcomes.{IsCompleted}
use deploy_bot.Bot.Cancel.{CancelParams, do_cancel_deploy, may_cancel}
use deploy_bot.Bot.Cancel.Laws.{do_cancel_deploy-IsCompleted, do_cancel_deploy-foreign}
use deploy_bot.Bot.Reject.{handle_reject_submit}
use deploy_bot.Bot.Reject.Laws.{handle_reject_submit-IsCompleted}
use deploy_bot.Examples.Samples.{Keys, ada, env_with, start, request}

abbrev quiet_env : Env Keys
quiet_env = env_with (λ n. done "abc") (λ t. false)

abbrev by : String → CancelParams
by user = record {
  user_id = user;
  user_name = "bob";
  trigger = "mention";
  reply_error = λ text. post_slack text "" (pos 0);
  reply_success = λ text. post_slack text "" (pos 0);
  allow_ecr = false;
}

do_cancel_deploy-IsCompleted_example :
    IsCompleted quiet_env request
      (pos 7)
      (stored_entry (history_from_pending 1_000 request "cancelled"))
      (do_cancel_deploy quiet_env "7" (by "U2") start)
      start
unfolding atoi find_row key_eq may_cancel
do_cancel_deploy-IsCompleted_example =
    do_cancel_deploy-IsCompleted quiet_env (by "U2") "7" (pos 7) request start refl refl refl refl
      refl refl refl

do_cancel_deploy-foreign_example : Untouched (do_cancel_deploy quiet_env "7" (by "U9") start) start
unfolding atoi find_row key_eq
do_cancel_deploy-foreign_example =
    do_cancel_deploy-foreign quiet_env (by "U9") "7" (pos 7) request start refl refl refl refl

handle_reject_submit-IsCompleted_example :
    IsCompleted quiet_env request
      (pos 7)
      (stored_entry (history_from_pending 1_000 request "rejected"))
      (handle_reject_submit quiet_env "U1" "7" "not yet" start)
      start
unfolding atoi find_row key_eq
handle_reject_submit-IsCompleted_example =
    handle_reject_submit-IsCompleted quiet_env "U1" "7" "not yet" (pos 7) ada request start refl
      refl refl refl refl refl refl
