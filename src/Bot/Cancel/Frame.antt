-- ===== src/Bot/Cancel/Frame.antt =====
-- Every branch of `doCancelDeploy` keeps the table well formed and only adds to the history.
use deploy_bot.Prelude.{ℤ, String, Option, none, some, Bool, true, false, atoi, if◌then◌else◌}
use deploy_bot.Store.Types.{PendingDeploy}
use deploy_bot.Store.Pending.{Result, ok, err, get}
use deploy_bot.Bot.Member.{remember}
use deploy_bot.World.{Env, World, send, record_deploy}
use deploy_bot.Bot.Tasks.{run_all}
use deploy_bot.Bot.Approve.{config_key, update_pending_gauge}
use deploy_bot.Bot.Cancel.{
  CancelParams, may_cancel, cancel_tasks, cancel_found, cancel_row, cancel_parsed, do_cancel_deploy,
}
use deploy_bot.Bot.Frame.{
  Advances-remember, Advances, Advances-trans, Advances-send, Advances-gauge, Advances-run_all,
}

module _ {K : Type 0} (env : Env K) (p : CancelParams) where
  abbrev Moves : World K → World K → Type 0
  Moves = Advances env.cfg.org env.cfg.repo

  Advances-found : (d : PendingDeploy) (pr : ℤ) (w : World K) → Moves (cancel_found env p d pr w) w
  unfolding cancel_found
  Advances-found d pr w = allowed (may_cancel p d)
    where
      allowed :
          (b : Bool)
          → Moves
              (if b
                then update_pending_gauge env (
                    run_all env
                      (cancel_tasks env p d pr w)
                      (send (record_deploy d.app "cancelled") (remember env p.user_id w)))
                else send (p.reply_error "not your own") w)
              w
      allowed true = Advances-remember env p.user_id (
          Advances-trans (Advances-gauge env _) (
            Advances-trans (Advances-run_all env (cancel_tasks env p d pr w) _)
              (Advances-send env _ (remember env p.user_id w))))
      allowed false = Advances-send env _ w

  Advances-row :
      (r : Result (Option PendingDeploy)) (pr : ℤ) (w : World K) → Moves (cancel_row env r p pr w) w
  unfolding cancel_row
  Advances-row (err e) pr w = Advances-send env _ w
  Advances-row (ok none) pr w = Advances-send env _ w
  Advances-row (ok (some d)) pr w = Advances-found d pr w

  pub Advances-do_cancel_deploy :
      (pr_arg : String) (w : World K) → Moves (do_cancel_deploy env pr_arg p w) w
  unfolding do_cancel_deploy
  Advances-do_cancel_deploy pr_arg w = parsed (atoi pr_arg)
    where
      parsed : (o : Option ℤ) → Moves (cancel_parsed env o p w) w
      parsed none = unfold cancel_parsed in Advances-send env _ w
      parsed (some pr) = unfold cancel_parsed in Advances-row (get env (config_key env pr) w) pr w
