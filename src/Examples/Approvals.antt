-- ===== src/Examples/Approvals.antt =====
-- Clicks on Approve.
use deploy_bot.Prelude.{
  ℕ, pos, String, ◌≡◌, refl, Bool, false, some, List, [], ◌∷◌, arith, atoi, ◌≤◌, leb,
}
use mathlib.Core.List.{Permᴰ}
use deploy_bot.Config.{app_by_name}
use deploy_bot.Store.Types.{Key, key_eq}
use deploy_bot.Store.Table.{find_row}
use deploy_bot.Store.Pending.{update_state, ok}
use deploy_bot.Store.Locks.{acquire_lock, deploy_lock_key}
use deploy_bot.Store.Locks.Laws.{acquire-acquire}
use deploy_bot.World.{Env, Outcome, done, failed, ci_not_passed, response, send, close_pr}
use deploy_bot.Github.Merge.{merge_pr, classify}
use deploy_bot.Github.Retry.{retry_on_rate_limit}
use deploy_bot.Bot.Merge.{merge_with_retry, merge_attempted}
use deploy_bot.Bot.Tasks.{Task, run_all, sends, deletes}
use deploy_bot.Bot.Tasks.Order.{run_all-order}
use deploy_bot.Bot.Member.{remember}
use deploy_bot.Bot.Approve.{handle_approve, row_key}
use deploy_bot.Bot.Approve.Access.{handle_approve-unauthorized}
use deploy_bot.Bot.Approve.Effects.{Untouched}
use deploy_bot.Bot.Approve.Outcomes.{attempt, IsCompleted, IsReopened, approved_entry}
use deploy_bot.Bot.Approve.Handler.{
  IsApprovable, handle_approve-merged, handle_approve-IsReopened, handle_approve-left_merging,
}
use deploy_bot.Examples.Samples.{Keys, ada, env_with, start, request, shop}

abbrev merging_env : Env Keys
merging_env = env_with (λ n. done "abc") (λ t. false)

abbrev blocked_env : Env Keys
blocked_env =
    env_with
      (λ n. failed (response 405 (b'r' ∷ b'e' ∷ b'q' ∷ b'u' ∷ b'i' ∷ b'r' ∷ b'e' ∷ b'd' ∷ [])))
      (λ t. false)

abbrev stopped_env : Env Keys
stopped_env = env_with (λ n. failed (response 409 [])) (λ t. leb 3_000 t)

approvable :
    (merges : ℕ → Outcome String) (stops : ℕ → Bool)
    → IsApprovable (env_with merges stops) "U1" "7" (pos 7) ada request shop start
unfolding atoi find_row app_by_name key_eq
approvable merges stops = record {
  number = refl;
  member = refl;
  readable = refl;
  row = refl;
  configured = refl;
}

handle_approve-merged_example :
    IsCompleted merging_env request
      (pos 7)
      (approved_entry merging_env request
        (pos 7)
        (attempt merging_env request (pos 7) shop (remember merging_env "U1" start)).1.now
        "abc")
      (handle_approve merging_env "U1" "7" start)
      start
unfolding merge_with_retry merge_attempted merge_pr retry_on_rate_limit classify
handle_approve-merged_example =
    handle_approve-merged merging_env "U1" "7" (pos 7) ada request shop start (approvable _ _) "abc"
      refl refl refl refl

handle_approve-IsReopened_example :
    IsReopened blocked_env request (pos 7) (handle_approve blocked_env "U1" "7" start) start
unfolding merge_with_retry merge_attempted merge_pr retry_on_rate_limit classify
handle_approve-IsReopened_example =
    handle_approve-IsReopened blocked_env "U1" "7" (pos 7) ada request shop start (approvable _ _)
      ci_not_passed refl (λ e. cc) refl refl

handle_approve-left_merging_example :
    (find_row (row_key request (pos 7)) (handle_approve stopped_env "U1" "7" start).pending
      ≡ some (record request { state = "merging" }))
    × ((handle_approve stopped_env "U1" "7" start).history ≡ [])
    × ((handle_approve stopped_env "U1" "7" start).keys ≡ start.keys)
unfolding merge_with_retry merge_attempted merge_pr retry_on_rate_limit classify update_state send
handle_approve-left_merging_example =
    handle_approve-left_merging stopped_env "U1" "7" (pos 7) ada request shop start (approvable _ _)
      refl refl refl

handle_approve-unauthorized_example : Untouched (handle_approve merging_env "U9" "7" start) start
handle_approve-unauthorized_example =
    handle_approve-unauthorized merging_env "U9" "7" start (λ ident e. cc)

acquire-acquire_example :
    (acquire_lock merging_env "dev" "other" "U3" 5
      (record (acquire_lock merging_env "dev" "other" "U2" 100 start).1 { now = 1_050 })).0
    ≡ ok false
unfolding acquire_lock
acquire-acquire_example =
    acquire-acquire merging_env "dev" "other" "U2" "U3" 100 5 1_050 start refl (omega arith) refl

abbrev closing : List Task
closing = sends (close_pr (pos 7)) ∷ deletes (row_key request (pos 7)) ∷ []

abbrev closing_swapped : List Task
closing_swapped = deletes (row_key request (pos 7)) ∷ sends (close_pr (pos 7)) ∷ []

run_all-order_example :
    ((k : Key)
      → find_row k (run_all merging_env closing start).pending
        ≡ find_row k (run_all merging_env closing_swapped start).pending)
    × Permᴰ
        (run_all merging_env closing start).history
        (run_all merging_env closing_swapped start).history
    × ((t : ℕ) (e app : String)
        → 1_000 ≤ t
        → merging_env.redis.get (run_all merging_env closing start).keys t (deploy_lock_key e app)
          ≡ merging_env.redis.get
              (run_all merging_env closing_swapped start).keys
              t
              (deploy_lock_key e app))
run_all-order_example =
    run_all-order merging_env closing closing_swapped start (Permᴰ.swap refl refl)
