-- ===== src/Examples/NoOps.antt =====
-- An approval whose deploy has already happened.
use deploy_bot.Prelude.{ℕ, pos, ◌≡◌, refl, false, none, [], atoi, ◌≤◌}
use deploy_bot.Config.{app_by_name}
use deploy_bot.Store.Types.{Key, key_eq}
use deploy_bot.Store.Table.{find_row}
use deploy_bot.World.{Env, failed, no_change, response}
use deploy_bot.Github.Merge.{merge_pr, classify}
use deploy_bot.Github.Retry.{retry_on_rate_limit}
use deploy_bot.Bot.Merge.{merge_with_retry, merge_attempted, rebase_onto, rebased}
use deploy_bot.Bot.Member.{remember}
use deploy_bot.Bot.Approve.{handle_approve, row_key}
use deploy_bot.Bot.Approve.Effects.{lock_at}
use deploy_bot.Bot.Approve.Outcomes.{attempt}
use deploy_bot.Bot.Approve.NoOp.{handle_approve-close_no_op_pr}
use deploy_bot.Examples.Samples.{Keys, ada, env_with, start, request, shop}

-- GitHub reports a conflict, and the rebase finds nothing to change.
abbrev current_env : Env Keys
current_env = record (env_with (λ n. failed (response 405 [])) (λ t. false)) {
  rebase = λ params. failed no_change;
}

handle_approve-close_no_op_pr_example :
    let v = handle_approve current_env "U1" "7" start in
    (find_row (row_key request (pos 7)) v.pending ≡ none)
    × ((k : Key)
        → key_eq k (row_key request (pos 7)) ≡ false
        → find_row k v.pending ≡ find_row k start.pending)
    × (v.history ≡ start.history)
    × ((t : ℕ)
        → (attempt current_env request (pos 7) shop (remember current_env "U1" start)).1.now ≤ t
        → lock_at current_env v t "dev" "shop-dev" ≡ none)
unfolding atoi find_row app_by_name key_eq merge_with_retry merge_attempted merge_pr
    retry_on_rate_limit classify rebase_onto rebased
handle_approve-close_no_op_pr_example =
    handle_approve-close_no_op_pr current_env "U1" "7" (pos 7) ada request shop start
      (record { number = refl; member = refl; readable = refl; row = refl; configured = refl }) refl
      refl refl
