-- ===== src/Sweeper/Recovery/Frame.antt =====
-- Recovery keeps the table well formed and only adds to the history.
use deploy_bot.Prelude.{List, [], ◌∷◌, String, Bool, true, false, ◌==◌}
use deploy_bot.Store.Types.{PendingDeploy, key_of, state_merging}
use deploy_bot.Store.Pending.{Result, ok, err, get_all}
use deploy_bot.World.{Env, World, Outcome, done, failed}
use deploy_bot.Github.Merge.Laws.{OnlyAsked-merge_pr}
use deploy_bot.Sweeper.Recovery.{
  recovered, recover_if, recover, recover_all, recover_from, recover_stuck,
}
use deploy_bot.Bot.Frame.{
  Advances, Advances-refl, Advances-trans, Advances-same, Advances-send, Advances-release,
  Advances-delete,
}

module _ {K : Type 0} {org repo : String} (env : Env K) where
  Advances-recovered :
      (d : PendingDeploy) (r : Outcome String × World K) → Advances org repo (recovered env d r) r.1
  unfolding recovered
  Advances-recovered d (failed e, w) = Advances-refl w
  Advances-recovered d (done sha, w) =
      Advances-trans (Advances-delete env (key_of d) _)
        (Advances-trans (Advances-release env d.environment d.app _) (Advances-send env _ w))

  Advances-recover_if :
      (b : Bool) (d : PendingDeploy) (w : World K) → Advances org repo (recover_if env b d w) w
  unfolding recover_if
  Advances-recover_if false d w = Advances-refl w
  Advances-recover_if true d w =
      let asked = OnlyAsked-merge_pr env d.pr_number w in
      Advances-trans (Advances-recovered d _) (Advances-same asked.pending asked.history)

  Advances-recover_all :
      (ds : List PendingDeploy) (w : World K) → Advances org repo (recover_all env ds w) w
  unfolding recover_all recover
  Advances-recover_all [] w = Advances-refl w
  Advances-recover_all (d ∷ ds) w =
      Advances-trans (Advances-recover_all ds (recover env d w))
        (Advances-recover_if (d.state == state_merging) d w)

  pub Advances-recover_stuck : (w : World K) → Advances org repo (recover_stuck env w) w
  unfolding recover_stuck
  Advances-recover_stuck w = from (get_all env w)
    where
      from : (r : Result (List PendingDeploy)) → Advances org repo (recover_from env r w) w
      from (err e) = unfold recover_from in Advances-refl w
      from (ok ds) = unfold recover_from in Advances-recover_all ds w
