-- ===== src/Github/Retry/Laws.antt =====
-- What the retry loop keeps, how often it asks, and when it gives an answer back.
use deploy_bot.Prelude.{
  ℕ, zero, suc, ◌+◌, ◌≤◌, ◌≡◌, ◌≢◌, Bool, true, false, Option, none, some, arith, if◌then◌else◌,
}
use deploy_bot.World.{Env, World, Outcome, done, failed, primary_limit, secondary_limit, sleep}
use deploy_bot.Github.Retry.{waited, settled, retry_delay, last_attempt, after_attempt, retry_from}

module _ {K A : Type 0} (env : Env K) (fn : World K → Outcome A × World K) where
  module _ {ℓ} (P : World K → Type ℓ) (asks : (w : World K) → P w → P (fn w).1)
      (waits : (w : World K) (d : ℕ)
        → d ≤ env.retry_wait
        → P w
        → P (record w { now = w.now + d })) where
    retry_delay-le : (o : Option ℕ) → retry_delay env o ≤ env.retry_wait
    unfolding retry_delay
    retry_delay-le none = omega arith
    retry_delay-le (some a) = ground arith

    last_attempt-keeps : (r : Outcome A × World K) → P r.1 → P (last_attempt env r).1
    unfolding last_attempt
    last_attempt-keeps (done a, w) h = h
    last_attempt-keeps (failed e, w) h = h

    waited-keeps :
        (again : World K → Outcome A × World K)
        → ((w : World K) → P w → P (again w).1)
        → (w w' : World K) (stop : Bool) → P w
        → P w'
        → P (waited env again w (if stop then none else some w')).1
    unfolding waited
    waited-keeps again keeps w w' true h h' = h
    waited-keeps again keeps w w' false h h' = keeps w' h'

    after_attempt-keeps :
        (again : World K → Outcome A × World K)
        → ((w : World K) → P w → P (again w).1)
        → (r : Outcome A × World K) → P r.1
        → P (after_attempt env again r).1
    unfolding after_attempt
    after_attempt-keeps again keeps (done a, w) h = h
    after_attempt-keeps again keeps (failed (secondary_limit o), w) h =
        unfold sleep in
        waited-keeps again keeps w _ (env.ctx_done (w.now + retry_delay env o)) h
          (waits w _ (retry_delay-le o) h)
    after_attempt-keeps again keeps (failed e, w) h = h

    -- A property that a request and a wait of at most `retry_wait` keep is kept by the loop.
    pub retry_from-keeps : (left : ℕ) (w : World K) → P w → P (retry_from env fn left w).1
    unfolding retry_from
    retry_from-keeps zero w h = last_attempt-keeps (fn w) (asks w h)
    retry_from-keeps (suc left) w h =
        after_attempt-keeps (retry_from env fn left) (retry_from-keeps left) (fn w) (asks w h)

module _ {K A : Type 0} (env : Env K) where
  abbrev IsSettled : Outcome A → Type 0
  IsSettled (done a) = Unit
  IsSettled (failed e) = e ≢ primary_limit

  last_attempt-IsSettled : (r : Outcome A × World K) → IsSettled (last_attempt env r).0
  unfolding last_attempt settled
  last_attempt-IsSettled (done a, w) = tt
  last_attempt-IsSettled (failed primary_limit, w) = λ h. cc
  last_attempt-IsSettled (failed e, w) = λ h. cc

  waited-IsSettled :
      (again : World K → Outcome A × World K)
      → ((w : World K) → IsSettled (again w).0)
      → (w : World K) (o : Option (World K)) → IsSettled (waited env again w o).0
  unfolding waited
  waited-IsSettled again h w none = λ e. cc
  waited-IsSettled again h w (some w') = h w'

  after_attempt-IsSettled :
      (again : World K → Outcome A × World K)
      → ((w : World K) → IsSettled (again w).0)
      → (r : Outcome A × World K) → IsSettled (after_attempt env again r).0
  unfolding after_attempt settled
  after_attempt-IsSettled again h (done a, w) = tt
  after_attempt-IsSettled again h (failed (secondary_limit o), w) =
      waited-IsSettled again h w (sleep env (retry_delay env o) w)
  after_attempt-IsSettled again h (failed primary_limit, w) = λ e. cc
  after_attempt-IsSettled again h (failed x, w) = λ e. cc

  -- The raw primary rate limit never reaches a caller.
  retry_from-IsSettled :
      (fn : World K → Outcome A × World K) (left : ℕ) (w : World K)
      → IsSettled (retry_from env fn left w).0
  unfolding retry_from
  retry_from-IsSettled fn zero w = last_attempt-IsSettled (fn w)
  retry_from-IsSettled fn (suc left) w =
      after_attempt-IsSettled (retry_from env fn left) (retry_from-IsSettled fn left) (fn w)

  last_attempt-done :
      (r : Outcome A × World K) (a : A) → r.0 ≡ done a → (last_attempt env r).0 ≡ done a
  unfolding last_attempt
  last_attempt-done (done x, w) a h = h
  last_attempt-done (failed e, w) a h = cc

  after_attempt-done :
      (again : World K → Outcome A × World K) (r : Outcome A × World K) (a : A)
      → r.0 ≡ done a
      → (after_attempt env again r).0 ≡ done a
  unfolding after_attempt
  after_attempt-done again (done x, w) a h = h
  after_attempt-done again (failed e, w) a h = cc

  -- A first answer that is no error is the answer.
  pub retry_from-done :
      (fn : World K → Outcome A × World K) (left : ℕ) (w : World K) (a : A)
      → (fn w).0 ≡ done a
      → (retry_from env fn left w).0 ≡ done a
  unfolding retry_from
  retry_from-done fn zero w a h = last_attempt-done (fn w) a h
  retry_from-done fn (suc left) w a h = after_attempt-done (retry_from env fn left) (fn w) a h
