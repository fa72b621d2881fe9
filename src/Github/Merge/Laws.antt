-- ===== src/Github/Merge/Laws.antt =====
-- `MergePR`: how often it asks GitHub, what it leaves alone, and which answer it returns.
use deploy_bot.Prelude.{ℕ, zero, suc, ◌+◌, ◌≤◌, ◌<◌, ℤ, String, ◌≡◌, refl, ap, false, Option, arith}
use deploy_bot.World.{Env, World, Outcome, done, failed, secondary_limit, sleep}
use deploy_bot.Github.Retry.{
  retry_from, retry_on_rate_limit, settled, last_attempt, after_attempt, waited, retry_delay,
}
use deploy_bot.Github.Retry.Laws.{retry_from-keeps}
use deploy_bot.Github.Merge.{classify, merge_request, merge_pr}

-- Only the clock and the count of requests moved.
pub record OnlyAsked {K : Type 0} (v w : World K) : Type 0 where
  pub pending : v.pending ≡ w.pending
  pub history : v.history ≡ w.history
  pub keys : v.keys ≡ w.keys
  pub outbox : v.outbox ≡ w.outbox
  pub later : w.now ≤ v.now

module _ {K : Type 0} (env : Env K) where
  -- Asking GitHub to merge changes nothing that the bot stores.
  pub OnlyAsked-merge_pr : (pr : ℤ) (w : World K) → OnlyAsked (merge_pr env pr w).1 w
  unfolding merge_pr retry_on_rate_limit
  OnlyAsked-merge_pr pr w =
      retry_from-keeps env (merge_request env pr) (λ v. OnlyAsked v w)
        (λ v h. unfold merge_request in ground arith) (λ v d le h. ground arith) env.max_retries w
        (ground arith)

  abbrev Within : ℕ → ℕ → World K → Type 0
  Within low high v = (low ≤ v.merge_calls) × (v.merge_calls ≤ high)

  waited-Within :
      (again : World K → Outcome String × World K) (n : ℕ)
      → ((w : World K) → Within (suc w.merge_calls) (w.merge_calls + n) (again w).1)
      → (w : World K) (d : ℕ)
      → Within w.merge_calls (w.merge_calls + n) (waited env again w (sleep env d w)).1
  unfolding waited sleep
  waited-Within again n h w d = ground (arith, h (record w { now = w.now + d }))

  after-Within :
      (again : World K → Outcome String × World K) (n : ℕ)
      → ((w : World K) → Within (suc w.merge_calls) (w.merge_calls + n) (again w).1)
      → (r : Outcome String × World K)
      → Within r.1.merge_calls (r.1.merge_calls + n) (after_attempt env again r).1
  unfolding after_attempt
  after-Within again n h (done a, w) = omega arith
  after-Within again n h (failed (secondary_limit o), w) =
      waited-Within again n h w (retry_delay env o)
  after-Within again n h (failed e, w) = omega arith

  ask-Within :
      (pr : ℤ) (left : ℕ) (w : World K)
      → Within
          (suc w.merge_calls)
          (w.merge_calls + suc left)
          (retry_from env (merge_request env pr) left w).1
  unfolding retry_from merge_request last_attempt
  ask-Within pr zero w = ground arith
  ask-Within pr (suc left) w = omega (
    arith,
    after-Within (retry_from env (merge_request env pr) left) (suc left) (ask-Within pr left)
        (merge_request env pr w),
  )

  -- `MergePR` asks GitHub at least once, and at most once more than there are retries.
  pub calls-merge_pr :
      (pr : ℤ) (w : World K)
      → (w.merge_calls < (merge_pr env pr w).1.merge_calls)
        × ((merge_pr env pr w).1.merge_calls ≤ w.merge_calls + env.max_retries + 1)
  unfolding merge_pr retry_on_rate_limit
  calls-merge_pr pr w = omega (arith, ask-Within pr env.max_retries w)

  -- An answer that is not the secondary rate limit.
  abbrev IsDefinite : Outcome String → Type 0
  IsDefinite (failed (secondary_limit o)) = ⊥
  IsDefinite _ = Unit

  abbrev settle : Outcome String → Outcome String
  settle (done sha) = done sha
  settle (failed e) = failed (settled e)

  last_attempt-settle : (r : Outcome String) (w : World K) → last_attempt env (r, w) ≡ (settle r, w)
  unfolding last_attempt
  last_attempt-settle (done sha) w = refl
  last_attempt-settle (failed e) w = refl

  after_attempt-settle :
      (again : World K → Outcome String × World K) (r : Outcome String) (w : World K)
      → IsDefinite r
      → after_attempt env again (r, w) ≡ (settle r, w)
  unfolding after_attempt
  after_attempt-settle again (done sha) w h = refl
  after_attempt-settle again (failed (secondary_limit o)) w h = absurd h
  after_attempt-settle again (failed e) w h = refl

  abbrev IsLimitedFor : ℤ → ℕ → ℕ → Type 0
  IsLimitedFor pr from k =
      (i : ℕ)
      → i < k
      → (o : Option ℕ) × (classify (env.merge_api pr (from + i)) ≡ failed (secondary_limit o))

  settle-answer :
      (pr : ℤ) (left : ℕ) (w : World K)
      → IsDefinite (classify (env.merge_api pr w.merge_calls))
      → retry_from env (merge_request env pr) left w
        ≡ (settle (classify (env.merge_api pr w.merge_calls)), (merge_request env pr w).1)
  unfolding retry_from merge_request
  settle-answer pr zero w h = last_attempt-settle (classify (env.merge_api pr w.merge_calls)) _
  settle-answer pr (suc left) w h =
      after_attempt-settle (retry_from env (merge_request env pr) left)
        (classify (env.merge_api pr w.merge_calls)) _ h

  abbrev asked_again : World K → Option ℕ → World K
  asked_again w o = record w { merge_calls = w.merge_calls + 1; now = w.now + retry_delay env o }

  after_attempt-limited :
      (again : World K → Outcome String × World K) (r : Outcome String) (o : Option ℕ) (w : World K)
      → ((t : ℕ) → env.ctx_done t ≡ false)
      → r ≡ failed (secondary_limit o)
      → after_attempt env again (r, w) ≡ again (record w { now = w.now + retry_delay env o })
  unfolding after_attempt waited sleep
  after_attempt-limited again r o w go e = rw e (rw (go (w.now + retry_delay env o)))

  retry-limited :
      (pr : ℤ) (left : ℕ) (w : World K) (o : Option ℕ)
      → ((t : ℕ) → env.ctx_done t ≡ false)
      → classify (env.merge_api pr w.merge_calls) ≡ failed (secondary_limit o)
      → retry_from env (merge_request env pr) (suc left) w
        ≡ retry_from env (merge_request env pr) left (asked_again w o)
  unfolding retry_from merge_request
  retry-limited pr left w o go e =
      after_attempt-limited (retry_from env (merge_request env pr) left) _ o
        (record w { merge_calls = w.merge_calls + 1 }) go e

  first_answer :
      (pr : ℤ) (k left : ℕ) (w : World K) (r : Outcome String)
      → k ≤ left
      → ((t : ℕ) → env.ctx_done t ≡ false)
      → IsLimitedFor pr w.merge_calls k
      → classify (env.merge_api pr (w.merge_calls + k)) ≡ r
      → IsDefinite r
      → ((retry_from env (merge_request env pr) left w).0 ≡ settle r)
        × ((retry_from env (merge_request env pr) left w).1.merge_calls ≡ w.merge_calls + k + 1)
  first_answer pr zero left w r le go limited answer definite =
      let here : w.merge_calls + 0 ≡ w.merge_calls = omega arith in
      let found : classify (env.merge_api pr w.merge_calls) ≡ r = rw here at answer in
      rw (settle-answer pr left w (rw found definite))
        (ap settle found, unfold merge_request in omega arith)
  first_answer pr (suc k) zero w r le go limited answer definite = absurd (omega arith)
  first_answer pr (suc k) (suc left) w r le go limited answer definite =
      let here : w.merge_calls + 0 ≡ w.merge_calls = omega arith in
      let (o, e) = limited 0 (omega arith) in
      let next : w.merge_calls + 1 + k ≡ w.merge_calls + suc k = omega arith in
      let (same, count) =
        first_answer pr k left (asked_again w o) r (omega arith) go
          (λ i h.
            let shift : w.merge_calls + 1 + i ≡ w.merge_calls + suc i = omega arith in
            rw shift (limited (suc i) (omega arith)))
          (rw next answer) definite in
      rw (retry-limited pr left w o go (rw here at e)) (same, omega (arith, count))

  -- While GitHub's secondary limit holds for the first `k` requests, no more than there are
  -- retries, and the context is not done, `MergePR` returns the answer after them, and has asked
  -- exactly `k + 1` times.
  pub merge_pr-first_answer :
      (pr : ℤ) (k : ℕ) (w : World K) (r : Outcome String)
      → k ≤ env.max_retries
      → ((t : ℕ) → env.ctx_done t ≡ false)
      → IsLimitedFor pr w.merge_calls k
      → classify (env.merge_api pr (w.merge_calls + k)) ≡ r
      → IsDefinite r
      → ((merge_pr env pr w).0 ≡ settle r)
        × ((merge_pr env pr w).1.merge_calls ≡ w.merge_calls + k + 1)
  unfolding merge_pr retry_on_rate_limit
  merge_pr-first_answer pr k w r = first_answer pr k env.max_retries w r
