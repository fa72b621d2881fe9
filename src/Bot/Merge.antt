-- ===== src/Bot/Merge.antt =====
pub mod Laws
-- internal/bot/merge.go.
use deploy_bot.Prelude.{ℤ, String, Bool, true, false, Option, none, some}
use deploy_bot.World.{
  Env, World, Outcome, done, failed, CreatePrParams, GithubError, merge_conflict, no_change,
  context_done, sleep,
}
use deploy_bot.Github.Merge.{merge_pr}

pub record MergeResult : Type 0 where
  pub sha : String
  pub no_op : Bool

abbrev pub merged : Outcome String → Outcome MergeResult
merged (done sha) = done (record { sha = sha; no_op = false })
merged (failed e) = failed e

module _ {K : Type 0} (env : Env K) where
  -- The second attempt, after the 3 s that follow the rebase.
  pub retry_merge : ℤ → World K → Option (World K) → Outcome MergeResult × World K
  retry_merge pr w none = (failed context_done, w)
  retry_merge pr w (some w1) = let r = merge_pr env pr w1 in (merged r.0, r.1)

  -- What the rebase gave; without one the first attempt's error `e` stands.
  unfoldable pub rebased :
      Outcome (Unit {0}) → ℤ → GithubError → World K → Outcome MergeResult × World K
  rebased (failed no_change) pr e w = (done (record { sha = ""; no_op = true }), w)
  rebased (failed _) pr e w = (failed e, w)
  rebased (done _) pr e w = retry_merge pr w (sleep env 3_000 w)

  unfoldable pub rebase_onto :
      Outcome String → ℤ → CreatePrParams → GithubError → World K → Outcome MergeResult × World K
  rebase_onto (failed _) pr params e w = (failed e, w)
  rebase_onto (done base) pr params e w =
      rebased (env.rebase (record params { base_branch = base })) pr e w

  unfoldable pub merge_attempted :
      ℤ → CreatePrParams → Outcome String × World K → Outcome MergeResult × World K
  merge_attempted pr params (done sha, w) = (done (record { sha = sha; no_op = false }), w)
  merge_attempted pr params (failed merge_conflict, w) =
      rebase_onto env.default_branch pr params merge_conflict w
  merge_attempted pr params (failed e, w) = (failed e, w)

  -- mergeWithRetry
  unfoldable pub merge_with_retry : ℤ → CreatePrParams → World K → Outcome MergeResult × World K
  merge_with_retry pr params w = merge_attempted pr params (merge_pr env pr w)
