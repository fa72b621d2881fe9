-- ===== src/Bot/Ecr/Frame.antt =====
-- Every branch of `handleECRPush` keeps the table well formed and only adds to the history.
use deploy_bot.Prelude.{ℤ, String, refl, Option, none, some, Bool, true, false, inl, if◌then◌else◌}
use deploy_bot.Config.{AppConfig, app_by_name, effective_auto_deploy}
use deploy_bot.Store.Pending.{Result, ok, err}
use deploy_bot.Store.Locks.{is_locked}
use deploy_bot.World.{
  Env, World, Outcome, done, failed, GithubError, no_change, send, comment, close_pr,
}
use deploy_bot.Bot.Merge.{MergeResult}
use deploy_bot.Bot.Merge.Laws.{OnlyAsked-merge_with_retry}
use deploy_bot.Bot.Submit.Frame.{Advances-submit_handle}
use deploy_bot.Bot.Ecr.{
  EcrPushEvent, ecr_deploy, failed_tasks, deployed_tasks, deployed, auto_outcome,
  handle_ecr_auto_deploy, request_tasks, handle_ecr_approval_request, ecr_created, ecr_failure,
  ecr_pr, ecr_branch, ecr_acquired, ecr_checked, ecr_app, handle_ecr_push, ecr_merge_params,
  unlocked, ecr_requester_name,
}
use deploy_bot.Bot.Frame.{
  Advances, Advances-refl, Advances-trans, Advances-same, Advances-set, Advances-send,
  Advances-release, Advances-gauge, Advances-run_all, Advances-acquire,
}

module _ {K : Type 0} (env : Env K) (evt : EcrPushEvent) where
  abbrev Moves : World K → World K → Type 0
  Moves = Advances env.cfg.org env.cfg.repo

  module _ (a : AppConfig) where
    Advances-unlocked : (w : World K) → Moves (unlocked env evt a w) w
    Advances-unlocked w = Advances-release env a.environment evt.app w

    module _ (pr : ℤ) (url : String) where
      Advances-deployed : (sha : String) (w : World K) → Moves (deployed env evt a pr url sha w) w
      unfolding deployed
      Advances-deployed sha w = Advances-trans (Advances-send env _ _) (
          Advances-trans (Advances-gauge env _) (
            Advances-trans (Advances-run_all env (deployed_tasks env evt a pr url sha w.now) _)
              (Advances-send env _ w)))

      Advances-outcome :
          (r : Outcome MergeResult × World K) → Moves (auto_outcome env evt a pr url r) r.1
      unfolding auto_outcome
      Advances-outcome (failed e, w) = Advances-run_all env (failed_tasks env evt a pr url) w
      Advances-outcome (done r, w) = closed r.no_op
        where
          closed :
              (b : Bool)
              → Moves
                  (if b
                    then unlocked env evt a
                        (send (close_pr pr) (send (comment "no-op" pr evt.app) w))
                    else deployed env evt a pr url r.sha w)
                  w
          closed true =
              Advances-trans (Advances-unlocked _)
                (Advances-trans (Advances-send env _ _) (Advances-send env _ w))
          closed false = Advances-deployed r.sha w

      Advances-auto : (w : World K) → Moves (handle_ecr_auto_deploy env evt a pr url w) w
      unfolding handle_ecr_auto_deploy
      Advances-auto w =
          let asked = OnlyAsked-merge_with_retry env pr (ecr_merge_params evt a) w in
          Advances-trans (Advances-outcome _) (Advances-same asked.pending asked.history)

      Advances-request : (w : World K) → Moves (handle_ecr_approval_request env evt a pr url w) w
      unfolding handle_ecr_approval_request ecr_deploy
      Advances-request w = Advances-trans (Advances-gauge env _) (
          Advances-trans (Advances-submit_handle env (env.posted pr) pr _) (
            Advances-trans (Advances-run_all env (request_tasks env evt a pr url) _) (
              Advances-trans (Advances-send env _ _) (
                Advances-set env (ecr_deploy env evt a pr url w.now) env.cfg.stale_duration w
                  (record { own_org = refl; own_repo = refl; known_state = inl refl })))))

      Advances-created : (b : Bool) (w : World K) → Moves (ecr_created env evt a pr url b w) w
      unfolding ecr_created
      Advances-created true w = Advances-auto w
      Advances-created false w = Advances-request w

    Advances-failure : (e : GithubError) (w : World K) → Moves (ecr_failure env evt a e w) w
    unfolding ecr_failure
    Advances-failure no_change w = Advances-trans (Advances-send env _ _) (Advances-send env _ w)
    Advances-failure e w = Advances-send env _ w

    Advances-pr : (r : Outcome (ℤ × String)) (w : World K) → Moves (ecr_pr env evt a r w) w
    unfolding ecr_pr
    Advances-pr (failed e) w = Advances-trans (Advances-failure e _) (Advances-unlocked w)
    Advances-pr (done (pr, url)) w =
        Advances-created pr url (effective_auto_deploy a env.cfg.allow_prod_auto_deploy) w

    Advances-branch : (r : Outcome String) (w : World K) → Moves (ecr_branch env evt a r w) w
    unfolding ecr_branch
    Advances-branch (failed e) w = Advances-unlocked w
    Advances-branch (done base) w = Advances-pr (env.create_pr _) w

    Advances-acquired : (r : Result Bool) (w : World K) → Moves (ecr_acquired env evt a r w) w
    unfolding ecr_acquired
    Advances-acquired (err e) w = Advances-refl w
    Advances-acquired (ok false) w = Advances-refl w
    Advances-acquired (ok true) w = Advances-branch env.default_branch w

    Advances-checked : (r : Result Bool) (w : World K) → Moves (ecr_checked env evt a r w) w
    unfolding ecr_checked
    Advances-checked (err e) w = Advances-refl w
    Advances-checked (ok true) w = Advances-refl w
    Advances-checked (ok false) w =
        Advances-trans (Advances-acquired _ _)
          (Advances-acquire env a.environment evt.app ecr_requester_name env.cfg.lock_ttl w)

  pub Advances-handle_ecr_push : (w : World K) → Moves (handle_ecr_push env evt w) w
  unfolding handle_ecr_push
  Advances-handle_ecr_push w = known (app_by_name env.cfg evt.app)
    where
      known : (o : Option AppConfig) → Moves (ecr_app env evt o w) w
      known none = unfold ecr_app in Advances-refl w
      known (some a) =
          unfold ecr_app in Advances-checked a (is_locked env a.environment evt.app w) w
