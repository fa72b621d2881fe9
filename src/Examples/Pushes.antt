-- ===== src/Examples/Pushes.antt =====
-- Pushes to the registry, thread slots, and the merging of discovered apps.
use deploy_bot.Prelude.{pos, String, some_of, ◌≡◌, refl, false, true, none, [], ◌∷◌}
use deploy_bot.Config.{AppConfig, Config, app_by_name, is_prod, merge_apps}
use deploy_bot.Config.Merged.{first_of, UniqueNames, merge_apps-UniqueNames}
use deploy_bot.World.{Env, World, done}
use deploy_bot.Github.Merge.{merge_pr, classify}
use deploy_bot.Github.Retry.{retry_on_rate_limit}
use deploy_bot.Store.History.{stored_entry}
use deploy_bot.Bot.Merge.{merge_with_retry, merge_attempted}
use deploy_bot.Bot.Ecr.{EcrPushEvent, ecr_entry, handle_ecr_push, handle_ecr_auto_deploy}
use deploy_bot.Bot.Ecr.Prod.{handle_ecr_push-is_prod}
use deploy_bot.Bot.Ecr.Outcomes.{
  IsUnlocked, handle_ecr_auto_deploy-IsUnlocked, handle_ecr_auto_deploy-merged,
}
use deploy_bot.Examples.Samples.{Keys, config, env_with, start, shop, write}

abbrev registry_env : Env Keys
registry_env = env_with (λ n. done "abc") (λ t. false)

abbrev pushed : EcrPushEvent
pushed = record { app = "shop-dev"; tag = "v3"; repository = "registry/shop" }

abbrev till : AppConfig
till = record shop { environment = "Production"; auto_deploy = true }

abbrev prod_env : Env Keys
prod_env = record registry_env { cfg = record config { apps = till ∷ [] } }

abbrev prod_push : EcrPushEvent
prod_push = record pushed { app = "shop-Production" }

-- Another worker is posting the parent message.
abbrev posting : World Keys
posting = record start { keys = write (λ k. none) 900 "thread:dev" "pending" 600_000 }

handle_ecr_push-is_prod_example : (handle_ecr_push prod_env prod_push start).merge_calls ≡ 0
unfolding app_by_name is_prod
handle_ecr_push-is_prod_example =
    handle_ecr_push-is_prod prod_env prod_push till start refl refl refl

handle_ecr_auto_deploy-IsUnlocked_example :
    IsUnlocked registry_env pushed shop
      (pos 8)
      "https://github.test/8"
      (handle_ecr_auto_deploy registry_env pushed shop (pos 8) "https://github.test/8" start)
      start
handle_ecr_auto_deploy-IsUnlocked_example =
    handle_ecr_auto_deploy-IsUnlocked registry_env pushed shop (pos 8) "https://github.test/8" refl
      start

handle_ecr_auto_deploy-merged_example :
    (handle_ecr_auto_deploy registry_env pushed shop (pos 8) "https://github.test/8" start).history
    ≡ stored_entry (ecr_entry pushed shop (pos 8) "https://github.test/8" "abc" 1_000) ∷ []
unfolding merge_with_retry merge_attempted merge_pr retry_on_rate_limit classify
handle_ecr_auto_deploy-merged_example =
    handle_ecr_auto_deploy-merged registry_env pushed shop (pos 8) "https://github.test/8" "abc"
      start refl refl

merge_apps-UniqueNames_example :
    UniqueNames (merge_apps (shop ∷ []) (till ∷ shop ∷ till ∷ []))
    × ((c : Config) (name : String)
        → app_by_name (record c { apps = merge_apps (shop ∷ []) (till ∷ shop ∷ till ∷ []) }) name
          ≡ first_of
              (app_by_name (record c { apps = shop ∷ [] }) name)
              (app_by_name (record c { apps = till ∷ shop ∷ till ∷ [] }) name))
unfolding some_of
merge_apps-UniqueNames_example =
    merge_apps-UniqueNames (shop ∷ []) (till ∷ shop ∷ till ∷ []) (refl, tt)
