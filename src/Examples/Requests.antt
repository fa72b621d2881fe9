-- ===== src/Examples/Requests.antt =====
-- Requests for a deploy.
use deploy_bot.Prelude.{ℕ, pos, ◌≡◌, refl, false, none, []}
use deploy_bot.Config.{app_by_name}
use deploy_bot.Store.Locks.{deploy_lock_key}
use deploy_bot.World.{Env, World, done, failed, no_change}
use deploy_bot.Bot.Approve.Effects.{Untouched, lock_at}
use deploy_bot.Bot.Submit.{Submission, handle_deploy_submit, app_value}
use deploy_bot.Bot.Submit.Guards.{handle_deploy_submit-busy}
use deploy_bot.Bot.Submit.Outcomes.{
  IsRequested, handle_deploy_submit-IsRequested, handle_deploy_submit-no_pr,
}
use deploy_bot.Examples.Samples.{Keys, ada, env_with, start, shop}

abbrev open_env : Env Keys
open_env = env_with (λ n. done "abc") (λ t. false)

-- The tag is already current.
abbrev current_env : Env Keys
current_env = record open_env { create_pr = λ params. failed no_change }

abbrev asked : Submission
asked = record {
  app_name = "shop";
  environment = "dev";
  tag_value = "v2";
  manual_tag = "";
  reason = "release";
  approver_id = "U1";
  requester_id = "U2";
  requester_name = "bob";
}

abbrev by_stranger : Submission
by_stranger = record asked { approver_id = "U9" }

-- Nothing is pending and no lock is held.
abbrev empty : World Keys
empty = record start { pending = []; keys = λ k. none }

handle_deploy_submit-IsRequested_example :
    IsRequested open_env asked
      (pos 8)
      "https://github.test/8"
      (handle_deploy_submit open_env asked empty)
      empty
unfolding app_by_name app_value
handle_deploy_submit-IsRequested_example =
    handle_deploy_submit-IsRequested open_env asked ada shop empty
      (record { approver = refl; tag = refl; configured = refl; free = refl; lockable = refl })
      "main" (pos 8) "https://github.test/8" refl refl refl refl

handle_deploy_submit-no_pr_example :
    ((handle_deploy_submit current_env asked empty).pending ≡ [])
    × ((handle_deploy_submit current_env asked empty).history ≡ [])
    × ((t : ℕ)
        → lock_at current_env
            (handle_deploy_submit current_env asked empty)
            t
            "dev"
            (app_value asked)
          ≡ none)
unfolding app_by_name app_value
handle_deploy_submit-no_pr_example =
    handle_deploy_submit-no_pr current_env asked ada shop empty
      (record { approver = refl; tag = refl; configured = refl; free = refl; lockable = refl })
      "main" no_change refl refl refl

handle_deploy_submit-busy_example : Untouched (handle_deploy_submit open_env asked start) start
unfolding app_value deploy_lock_key
handle_deploy_submit-busy_example = handle_deploy_submit-busy open_env asked "U2" start refl
