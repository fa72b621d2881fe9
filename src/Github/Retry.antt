-- ===== src/Github/Retry.antt =====
pub mod Laws
-- internal/github/retry.go: retries on GitHub's secondary rate limit.
use deploy_bot.Prelude.{ℕ, zero, suc, Option, none, some, ltb, ◌&&◌, if◌then◌else◌}
use deploy_bot.World.{
  Env, World, Outcome, done, failed, GithubError, primary_limit, rate_limited, secondary_limit,
  context_done, sleep,
}

-- What the caller gets for an error that is not retried.
pub settled : GithubError → GithubError
settled primary_limit = rate_limited
settled e = e

module _ {K : Type 0} (env : Env K) where
  -- GitHub's Retry-After, where it is positive and shorter than the configured wait.
  unfoldable pub retry_delay : Option ℕ → ℕ
  retry_delay none = env.retry_wait
  retry_delay (some after) =
      if ltb 0 after && ltb after env.retry_wait then after else env.retry_wait

  module _ {A : Type 0} where
    unfoldable pub last_attempt : Outcome A × World K → Outcome A × World K
    unfolding settled
    last_attempt (done a, w) = (done a, w)
    last_attempt (failed e, w) = (failed (settled e), w)

    -- After the wait, or instead of it if the context was done.
    unfoldable pub waited :
        (World K → Outcome A × World K) → World K → Option (World K) → Outcome A × World K
    waited again w none = (failed context_done, w)
    waited again w (some w') = again w'

    unfoldable pub after_attempt :
        (World K → Outcome A × World K) → Outcome A × World K → Outcome A × World K
    unfolding settled retry_delay sleep waited
    after_attempt again (done a, w) = (done a, w)
    after_attempt again (failed (secondary_limit after), w) =
        waited again w (sleep env (retry_delay after) w)
    after_attempt again (failed e, w) = (failed (settled e), w)

    -- The loop of `retryOnRateLimit` with so many retries left.
    unfoldable pub retry_from : (World K → Outcome A × World K) → ℕ → World K → Outcome A × World K
    unfolding last_attempt after_attempt
    retry_from fn zero w = last_attempt (fn w)
    retry_from fn (suc left) w = after_attempt (λ w'. retry_from fn left w') (fn w)

    unfoldable pub retry_on_rate_limit :
        (World K → Outcome A × World K) → World K → Outcome A × World K
    unfolding retry_from
    retry_on_rate_limit fn = retry_from fn env.max_retries
