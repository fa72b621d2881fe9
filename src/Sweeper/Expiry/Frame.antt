-- ===== src/Sweeper/Expiry/Frame.antt =====
-- Expiring keeps the table well formed and only adds to the history.
use deploy_bot.Prelude.{List, [], ◌∷◌, String}
use deploy_bot.Store.Types.{PendingDeploy}
use deploy_bot.World.{Env, World}
use deploy_bot.Sweeper.Expiry.{expire_tasks, expire, expire_all}
use deploy_bot.Bot.Frame.{Advances, Advances-refl, Advances-trans, Advances-send, Advances-run_all}

module _ {K : Type 0} {org repo : String} (env : Env K) where
  Advances-expire : (d : PendingDeploy) (w : World K) → Advances org repo (expire env d w) w
  unfolding expire
  Advances-expire d w =
      Advances-trans (Advances-run_all env (expire_tasks env d w) _) (Advances-send env _ w)

  pub Advances-expire_all :
      (ds : List PendingDeploy) (w : World K) → Advances org repo (expire_all env ds w) w
  unfolding expire_all
  Advances-expire_all [] w = Advances-refl w
  Advances-expire_all (d ∷ ds) w =
      Advances-trans (Advances-expire_all ds (expire env d w)) (Advances-expire d w)
