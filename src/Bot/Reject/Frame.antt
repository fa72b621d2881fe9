-- ===== src/Bot/Reject/Frame.antt =====
-- Every branch of `handleRejectSubmit` keeps the table well formed and only adds to the history.
use deploy_bot.Prelude.{ℤ, String, Option, none, some, true, false, atoi}
use deploy_bot.Store.Types.{PendingDeploy}
use deploy_bot.Store.Pending.{Result, ok, err, get}
use deploy_bot.Bot.Member.{remember}
use deploy_bot.World.{Env, World, Membership, membership, member_error}
use deploy_bot.Bot.Approve.{config_key}
use deploy_bot.Bot.Reject.{
  reject_tasks, reject_verdict, reject_row, reject_parsed, handle_reject_submit,
}
use deploy_bot.Bot.Frame.{
  Advances-remember, Advances, Advances-refl, Advances-trans, Advances-send, Advances-gauge,
  Advances-run_all,
}

module _ {K : Type 0} (env : Env K) where
  abbrev Moves : World K → World K → Type 0
  Moves = Advances env.cfg.org env.cfg.repo

  Advances-verdict :
      (m : Membership) (reason : String) (d : PendingDeploy) (pr : ℤ) (w : World K)
      → Moves (reject_verdict env m reason d pr w) w
  unfolding reject_verdict
  Advances-verdict member_error reason d pr w = Advances-send env _ w
  Advances-verdict (membership false ident) reason d pr w = Advances-send env _ w
  Advances-verdict (membership true ident) reason d pr w = Advances-trans (Advances-gauge env _) (
      Advances-trans (Advances-run_all env (reject_tasks env reason d pr ident w) _)
        (Advances-send env _ w))

  Advances-row :
      (r : Result (Option PendingDeploy)) (user reason : String) (pr : ℤ) (w : World K)
      → Moves (reject_row env r user reason pr w) w
  unfolding reject_row
  Advances-row (err e) user reason pr w = Advances-refl w
  Advances-row (ok none) user reason pr w = Advances-refl w
  Advances-row (ok (some d)) user reason pr w =
      Advances-remember env user
        (Advances-verdict (env.is_member user) reason d pr (remember env user w))

  pub Advances-handle_reject_submit :
      (user metadata reason : String) (w : World K)
      → Moves (handle_reject_submit env user metadata reason w) w
  unfolding handle_reject_submit
  Advances-handle_reject_submit user metadata reason w = parsed (atoi metadata)
    where
      parsed : (o : Option ℤ) → Moves (reject_parsed env o user reason w) w
      parsed none = unfold reject_parsed in Advances-refl w
      parsed (some pr) =
          unfold reject_parsed in Advances-row (get env (config_key env pr) w) user reason pr w
