-- ===== src/Bot/Ecr/Prod.antt =====
-- A push for a production app is merged only where the configuration allows it.
use deploy_bot.Prelude.{ℤ, String, ◌≡◌, refl, ◌∙◌, ap, true, false, none, some, Option, Bool, arith}
use deploy_bot.Config.{AppConfig, app_by_name, effective_auto_deploy, is_prod}
use deploy_bot.Store.Pending.{Result, ok, err, set, set_slack_handle, get_all}
use deploy_bot.Store.Locks.{acquire_lock, claim, is_locked, release_lock, release}
use deploy_bot.World.{Env, World, Outcome, done, failed, GithubError, no_change, send}
use deploy_bot.Bot.Tasks.Effects.{calls-run_all}
use deploy_bot.Bot.Approve.{update_pending_gauge}
use deploy_bot.Bot.Submit.{submit_handle}
use deploy_bot.Bot.Ecr.{
  EcrPushEvent, request_tasks, handle_ecr_approval_request, ecr_created, ecr_failure, ecr_pr,
  ecr_branch, ecr_acquired, ecr_checked, ecr_app, handle_ecr_push,
}

module _ {K : Type 0} (env : Env K) where
  calls-gauge : (w : World K) → (update_pending_gauge env w).merge_calls ≡ w.merge_calls
  unfolding update_pending_gauge get_all send
  calls-gauge w = ground arith

  calls-handle :
      (o : Option (String × String)) (pr : ℤ) (w : World K)
      → (submit_handle env o pr w).merge_calls ≡ w.merge_calls
  unfolding submit_handle set_slack_handle
  calls-handle none pr w = refl
  calls-handle (some (channel, ts)) pr w = ground arith

  module _ (evt : EcrPushEvent) (a : AppConfig) where
    calls-request :
        (pr : ℤ) (url : String) (w : World K)
        → (handle_ecr_approval_request env evt a pr url w).merge_calls ≡ w.merge_calls
    unfolding handle_ecr_approval_request set send
    calls-request pr url w =
        calls-gauge _
        ∙ calls-handle (env.posted pr) pr _
        ∙ calls-run_all env (request_tasks env evt a pr url) _
        ∙ ground arith

    calls-unlocked :
        (w : World K) → (release_lock env a.environment evt.app w).merge_calls ≡ w.merge_calls
    unfolding release_lock release
    calls-unlocked w = ground arith

    calls-failure :
        (e : GithubError) (w : World K) → (ecr_failure env evt a e w).merge_calls ≡ w.merge_calls
    unfolding ecr_failure send
    calls-failure no_change w = refl
    calls-failure e w = refl

    calls-pr :
        effective_auto_deploy a env.cfg.allow_prod_auto_deploy ≡ false
        → (o : Outcome (ℤ × String)) (w : World K)
        → (ecr_pr env evt a o w).merge_calls ≡ w.merge_calls
    unfolding ecr_pr ecr_created
    calls-pr h (failed e) w = calls-failure e _ ∙ calls-unlocked w
    calls-pr h (done (pr, url)) w =
        ap (λ auto. (ecr_created env evt a pr url auto w).merge_calls) h ∙ calls-request pr url w

    calls-branch :
        effective_auto_deploy a env.cfg.allow_prod_auto_deploy ≡ false
        → (o : Outcome String) (w : World K)
        → (ecr_branch env evt a o w).merge_calls ≡ w.merge_calls
    unfolding ecr_branch
    calls-branch h (failed e) w = calls-unlocked w
    calls-branch h (done base) w = calls-pr h _ w

    calls-acquired :
        effective_auto_deploy a env.cfg.allow_prod_auto_deploy ≡ false
        → (r : Result Bool) (w : World K) → (ecr_acquired env evt a r w).merge_calls ≡ w.merge_calls
    unfolding ecr_acquired
    calls-acquired h (err x) w = refl
    calls-acquired h (ok false) w = refl
    calls-acquired h (ok true) w = calls-branch h env.default_branch w

    calls-checked :
        effective_auto_deploy a env.cfg.allow_prod_auto_deploy ≡ false
        → (r : Result Bool) (w : World K) → (ecr_checked env evt a r w).merge_calls ≡ w.merge_calls
    unfolding ecr_checked acquire_lock claim
    calls-checked h (err x) w = refl
    calls-checked h (ok true) w = refl
    calls-checked h (ok false) w = calls-acquired h _ _ ∙ ground arith

    -- A push for a production app never asks GitHub for a merge, unless the configuration allows
    -- automatic deploys to production, whatever the app asks for itself.
    pub handle_ecr_push-is_prod :
        (w : World K)
        → app_by_name env.cfg evt.app ≡ some a
        → is_prod a ≡ true
        → env.cfg.allow_prod_auto_deploy ≡ false
        → (handle_ecr_push env evt w).merge_calls ≡ w.merge_calls
    unfolding handle_ecr_push ecr_app effective_auto_deploy
    handle_ecr_push-is_prod w known prod forbidden =
        ap (λ o. (ecr_app env evt o w).merge_calls) known
        ∙ calls-checked (ground (arith, prod, forbidden)) (is_locked env a.environment evt.app w) w
