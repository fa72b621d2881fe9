-- ===== src/Sweeper/Pass.antt =====
-- `RunOnce` of internal/sweeper/sweeper.go: one pass of the sweeper.
use deploy_bot.Prelude.{String, ◌≡◌, refl, ◌∙◌, ap, false, some, Option, List}
use deploy_bot.Store.Types.{Key, PendingDeploy}
use deploy_bot.Store.Table.{find_row, UniqueKeys}
use deploy_bot.Store.Pending.{Result, ok, err, get_expired, is_expired}
use deploy_bot.World.{Env, World}
use deploy_bot.Bot.Approve.{update_pending_gauge}
use deploy_bot.Bot.Approve.Effects.{Untouched-gauge}
use deploy_bot.Bot.Frame.{Advances, Advances-refl, Advances-trans, Advances-gauge}
use deploy_bot.Sweeper.Expiry.Frame.{Advances-expire_all}
use deploy_bot.Sweeper.Reconcile.Frame.{Advances-reconcile_from_github}
use deploy_bot.Sweeper.Expiry.{expire_all}
use deploy_bot.Sweeper.Expiry.Laws.{AllSucceed, expire_all-get_expired}
use deploy_bot.Sweeper.Reconcile.{Issue, PrMeta, reconcile_from_github}
use deploy_bot.Sweeper.Reconcile.Laws.{reconcile_all-keeps}

module _ {K : Type 0} (env : Env K) (parse_meta : String → Option PrMeta)
    (issues : String → Option (List Issue)) where
  -- A pass that cannot read the expired rows ends there.
  swept : Result (List PendingDeploy) → World K → World K
  swept (err _) w = w
  swept (ok ds) w =
      update_pending_gauge env (reconcile_from_github env parse_meta issues (expire_all env ds w))

  pub run_once : World K → World K
  run_once w = swept (get_expired env w) w

  -- A request that is not past its time survives a pass as it is, when no two rows have one key
  -- and no store operation fails, whatever GitHub lists.
  pub run_once-keeps :
      (k : Key) (d : PendingDeploy) (w : World K)
      → AllSucceed env
      → UniqueKeys w.pending
      → find_row k w.pending ≡ some d
      → is_expired w.now d ≡ false
      → find_row k (run_once w).pending ≡ some d
  unfolding run_once
  run_once-keeps k d w ok_all u h fresh = pass (get_expired env w) refl
    where
      pass :
          (r : Result (List PendingDeploy))
          → get_expired env w ≡ r
          → find_row k (swept r w).pending ≡ some d
      pass (err e) q = unfold swept in h
      pass (ok ds) q =
          unfold swept reconcile_from_github in
          ap (find_row k) (Untouched-gauge env _).pending
          ∙ reconcile_all-keeps env parse_meta _ k (expire_all env ds w) {d = d}
              ((expire_all-get_expired env ok_all ds w u q).0 k ∙ rw (h, fresh) refl)

  swept-Advances :
      (r : Result (List PendingDeploy)) (w : World K)
      → Advances env.cfg.org env.cfg.repo (swept r w) w
  unfolding swept
  swept-Advances (err e) w = Advances-refl w
  swept-Advances (ok ds) w = Advances-trans (Advances-gauge env _) (
      Advances-trans (Advances-reconcile_from_github env parse_meta issues _)
        (Advances-expire_all env ds w))

  pub Advances-run_once : (w : World K) → Advances env.cfg.org env.cfg.repo (run_once w) w
  unfolding run_once
  Advances-run_once w = swept-Advances (get_expired env w) w
