-- ===== src/Examples/Systems.antt =====
-- A run of several handlers, and a sequence of calls of the store.
use deploy_bot.Prelude.{◌+◌, ◌≡◌, refl, false, List, [], ◌∷◌, none, select, arith}
use deploy_bot.Store.Types.{key_of}
use deploy_bot.Store.Pending.Refine.{
  Call, gets, deletes, updates_state, run_calls, promised_all, abstract_rows,
  run_calls-promised_all,
}
use deploy_bot.World.{Env, World, done}
use deploy_bot.Bot.Approve.{handle_approve}
use deploy_bot.Bot.Submit.{Submission, handle_deploy_submit}
use deploy_bot.System.{
  IsOf, Keeps, retention_of, purges, submits, approves, waits, Reach, stays, then_step,
  Reach-IsWellFormed,
}
use deploy_bot.Config.Postgres.Laws.{left_rows}
use deploy_bot.Retention.{purge_once}
use deploy_bot.Examples.Purges.{table, shop_postgres}
use deploy_bot.Examples.Samples.{Keys, env_with, start, request}

abbrev day_env : Env Keys
day_env = env_with (λ n. done "abc") (λ t. false)

abbrev wish : Submission
wish = record {
  app_name = "shop";
  environment = "dev";
  tag_value = "v3";
  manual_tag = "";
  reason = "release";
  approver_id = "U1";
  requester_id = "U2";
  requester_name = "bob";
}

-- A purge of the empty history.
abbrev swept : World Keys
swept = record start {
  history = left_rows (
      purge_once table (λ i. false) start.now (retention_of (λ s. none) shop_postgres) false 1
        start.history);
}

abbrev approved : World Keys
approved = handle_approve day_env "U1" "7" swept

abbrev later : World Keys
later = record approved { now = approved.now + 60_000 }

abbrev of_day : IsOf "acme" "gitops" day_env
of_day = record { same_org = refl; same_repo = refl }

-- The history is purged, the sample request is approved, a minute passes, and the next one is made.
abbrev day : Reach "acme" "gitops" 2_000 start (handle_deploy_submit day_env wish later)
day =
    then_step
      (then_step
        (then_step
          (then_step stays (
            purges {w = start} (λ s. none) shop_postgres table (λ i. false) false 1 (omega arith)
              (unfold select in omega arith)))
          (approves day_env of_day "U1" "7"))
        (waits 60_000))
      (submits day_env of_day wish)

Reach-IsWellFormed_example :
    Keeps "acme" "gitops" 2_000 (handle_deploy_submit day_env wish later) start
Reach-IsWellFormed_example = Reach-IsWellFormed day

abbrev calls : List Call
calls =
    updates_state (key_of request) "merging"
    ∷ gets (key_of request)
    ∷ deletes (key_of request)
    ∷ gets (key_of request)
    ∷ []

run_calls-promised_all_example :
    ((run_calls day_env calls start).0 ≡ (promised_all day_env 1_000 calls (abstract_rows start)).0)
    × (abstract_rows (run_calls day_env calls start).1
        ≡ (promised_all day_env 1_000 calls (abstract_rows start)).1)
run_calls-promised_all_example = run_calls-promised_all day_env calls start
