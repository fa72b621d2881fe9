-- ===== src/Bot/Ecr/Guards.antt =====
-- Pushes that are discarded.
use deploy_bot.Prelude.{String, ◌≡◌, some, arith}
use deploy_bot.Config.{AppConfig, app_by_name}
use deploy_bot.Store.Locks.{is_locked, deploy_lock_key}
use deploy_bot.World.{Env, World}
use deploy_bot.Bot.Ecr.{EcrPushEvent, ecr_checked, ecr_app, handle_ecr_push}

module _ {K : Type 0} (env : Env K) (evt : EcrPushEvent) (w : World K) where
  -- A push for an app whose deploy lock is held is discarded: the world is the one before.
  handle_ecr_push-locked :
      (a : AppConfig) (holder : String)
      → app_by_name env.cfg evt.app ≡ some a
      → env.redis.get w.keys w.now (deploy_lock_key a.environment evt.app) ≡ some holder
      → handle_ecr_push env evt w ≡ w
  unfolding handle_ecr_push ecr_app is_locked ecr_checked
  handle_ecr_push-locked a holder known held = ground arith
