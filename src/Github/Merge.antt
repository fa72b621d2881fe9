-- ===== src/Github/Merge.antt =====
pub mod Laws
-- `MergePR` of internal/github/pr.go.
use deploy_bot.Prelude.{ℕ, ◌+◌, ℤ, String, List, ◌||◌, eqb, if◌then◌else◌}
use deploy_bot.Prelude.Text.{codes, contains, to_lower}
use deploy_bot.World.{
  Env, World, Outcome, done, failed, GithubError, response, ci_not_passed, draft_pr, merge_conflict,
  head_modified,
}
use deploy_bot.Github.Retry.{retry_on_rate_limit}

-- The `case 405`, on the message in lower case.
not_mergeable : List ℕ → GithubError
unfolding contains
not_mergeable msg =
    if contains msg (codes "status check") || contains msg (codes "required")
    then ci_not_passed
    else if contains msg (codes "draft")
    then draft_pr
    else merge_conflict

unfoldable pub classify : Outcome String → Outcome String
unfolding not_mergeable to_lower
classify (done sha) = done sha
classify (failed (response status msg)) =
    if eqb status 405
    then failed (not_mergeable (to_lower msg))
    else if eqb status 409
    then failed head_modified
    else failed (response status msg)
classify (failed e) = failed e

module _ {K : Type 0} (env : Env K) where
  unfoldable pub merge_request : ℤ → World K → Outcome String × World K
  merge_request pr w =
      (classify (env.merge_api pr w.merge_calls), record w { merge_calls = w.merge_calls + 1 })

  unfoldable pub merge_pr : ℤ → World K → Outcome String × World K
  unfolding merge_request
  merge_pr pr = retry_on_rate_limit env (merge_request pr)
