-- ===== src/Bot/Merge/Laws.antt =====
-- `mergeWithRetry`: what it leaves alone, how often it asks, and what a no-op means.
use deploy_bot.Prelude.{ℕ, ◌+◌, ◌*◌, ◌≤◌, ℤ, String, ◌∙◌, arith}
use deploy_bot.World.{
  Env, World, Outcome, done, failed, CreatePrParams, GithubError, merge_conflict, no_change, sleep,
}
use deploy_bot.Github.Merge.{merge_pr}
use deploy_bot.Github.Merge.Laws.{OnlyAsked, OnlyAsked-merge_pr, calls-merge_pr}
use deploy_bot.Bot.Merge.{retry_merge, rebased, rebase_onto, merge_attempted, merge_with_retry}

module _ {K : Type 0} (env : Env K) where
  OnlyAsked-trans : {u v w : World K} → OnlyAsked u v → OnlyAsked v w → OnlyAsked u w
  OnlyAsked-trans a b = record {
    pending = a.pending ∙ b.pending;
    history = a.history ∙ b.history;
    keys = a.keys ∙ b.keys;
    outbox = a.outbox ∙ b.outbox;
    later = omega arith;
  }

  OnlyAsked-refl : (w : World K) → OnlyAsked w w
  OnlyAsked-refl w = ground arith

  OnlyAsked-retry_merge :
      (pr : ℤ) (w : World K) (d : ℕ) → OnlyAsked (retry_merge env pr w (sleep env d w)).1 w
  unfolding retry_merge sleep
  OnlyAsked-retry_merge pr w d =
      ground (arith, OnlyAsked-merge_pr env pr (record w { now = w.now + d }))

  OnlyAsked-rebased :
      (r : Outcome (Unit {0})) (pr : ℤ) (e : GithubError) (w : World K)
      → OnlyAsked (rebased env r pr e w).1 w
  unfolding rebased
  OnlyAsked-rebased (done u) pr e w = OnlyAsked-retry_merge pr w 3_000
  OnlyAsked-rebased (failed no_change) pr e w = OnlyAsked-refl w
  OnlyAsked-rebased (failed x) pr e w = OnlyAsked-refl w

  OnlyAsked-rebase_onto :
      (b : Outcome String) (pr : ℤ) (params : CreatePrParams) (e : GithubError) (w : World K)
      → OnlyAsked (rebase_onto env b pr params e w).1 w
  unfolding rebase_onto
  OnlyAsked-rebase_onto (failed x) pr params e w = OnlyAsked-refl w
  OnlyAsked-rebase_onto (done base) pr params e w =
      OnlyAsked-rebased (env.rebase (record params { base_branch = base })) pr e w

  OnlyAsked-attempted :
      (pr : ℤ) (params : CreatePrParams) (r : Outcome String × World K)
      → OnlyAsked (merge_attempted env pr params r).1 r.1
  unfolding merge_attempted
  OnlyAsked-attempted pr params (done sha, w) = OnlyAsked-refl w
  OnlyAsked-attempted pr params (failed merge_conflict, w) =
      OnlyAsked-rebase_onto env.default_branch pr params merge_conflict w
  OnlyAsked-attempted pr params (failed e, w) = OnlyAsked-refl w

  -- Merging, rebasing and waiting change nothing that the bot stores.
  pub OnlyAsked-merge_with_retry :
      (pr : ℤ) (params : CreatePrParams) (w : World K)
      → OnlyAsked (merge_with_retry env pr params w).1 w
  unfolding merge_with_retry
  OnlyAsked-merge_with_retry pr params w =
      OnlyAsked-trans (OnlyAsked-attempted pr params (merge_pr env pr w))
        (OnlyAsked-merge_pr env pr w)

  calls-retry_merge :
      (pr : ℤ) (w : World K) (d : ℕ)
      → (retry_merge env pr w (sleep env d w)).1.merge_calls ≤ w.merge_calls + env.max_retries + 1
  unfolding retry_merge sleep
  calls-retry_merge pr w d = ground (arith, calls-merge_pr env pr (record w { now = w.now + d }))

  calls-rebased :
      (r : Outcome (Unit {0})) (pr : ℤ) (e : GithubError) (w : World K)
      → (rebased env r pr e w).1.merge_calls ≤ w.merge_calls + env.max_retries + 1
  unfolding rebased
  calls-rebased (done u) pr e w = calls-retry_merge pr w 3_000
  calls-rebased (failed no_change) pr e w = omega arith
  calls-rebased (failed x) pr e w = omega arith

  calls-attempted :
      (pr : ℤ) (params : CreatePrParams) (r : Outcome String × World K)
      → (merge_attempted env pr params r).1.merge_calls ≤ r.1.merge_calls + env.max_retries + 1
  unfolding merge_attempted rebase_onto
  calls-attempted pr params (done sha, w) = omega arith
  calls-attempted pr params (failed merge_conflict, w) = onto env.default_branch
    where
      onto :
          (b : Outcome String)
          → (rebase_onto env b pr params merge_conflict w).1.merge_calls
            ≤ w.merge_calls + env.max_retries + 1
      onto (failed x) = omega arith
      onto (done base) =
          calls-rebased (env.rebase (record params { base_branch = base })) pr merge_conflict w
  calls-attempted pr params (failed e, w) = omega arith

  -- `mergeWithRetry` makes at most two attempts, each with its retries.
  pub calls-merge_with_retry :
      (pr : ℤ) (params : CreatePrParams) (w : World K)
      → (merge_with_retry env pr params w).1.merge_calls ≤ w.merge_calls + 2 * (env.max_retries + 1)
  unfolding merge_with_retry
  calls-merge_with_retry pr params w =
      omega (arith, calls-attempted pr params (merge_pr env pr w), calls-merge_pr env pr w)
