-- ===== src/Examples/Merging.antt =====
-- Merging a pull request.
use deploy_bot.Prelude.{
  ℕ, zero, suc, ◌+◌, ◌≤◌, ◌<◌, pos, String, ◌≡◌, refl, false, Option, some, [], ◌∷◌, arith,
}
use deploy_bot.World.{Outcome, done, failed, secondary_limit, response, ci_not_passed}
use deploy_bot.Github.Merge.{classify, merge_pr}
use deploy_bot.Github.Merge.Laws.{merge_pr-first_answer}
use deploy_bot.Bot.Merge.{merge_with_retry}
use deploy_bot.Bot.Merge.Laws.{calls-merge_with_retry}
use deploy_bot.Bot.Approve.{merge_params}
use deploy_bot.Examples.Samples.{env_with, start, request, shop}

-- Limited once, then merged.
abbrev once_limited : ℕ → Outcome String
once_limited zero = failed (secondary_limit (some 5_000))
once_limited (suc n) = done "abc"

merge_pr-first_answer_example :
    ((merge_pr (env_with once_limited (λ t. false)) (pos 7) start).0 ≡ done "abc")
    × ((merge_pr (env_with once_limited (λ t. false)) (pos 7) start).1.merge_calls ≡ 2)
unfolding classify
merge_pr-first_answer_example =
    merge_pr-first_answer (env_with once_limited (λ t. false)) (pos 7) 1 start (done "abc")
      (omega arith) (λ t. refl) limited refl tt
  where
    limited :
        (i : ℕ)
        → i < 1
        → (o : Option ℕ) × (classify (once_limited (0 + i)) ≡ failed (secondary_limit o))
    limited zero h = (some 5_000, refl)
    limited (suc i) h = absurd (omega arith)

calls-merge_with_retry_example :
    (merge_with_retry
      (env_with once_limited (λ t. false))
      (pos 7)
      (merge_params request shop)
      start).1.merge_calls
    ≤ 8
calls-merge_with_retry_example =
    calls-merge_with_retry (env_with once_limited (λ t. false)) (pos 7) (merge_params request shop)
      start

-- "Required status check …" blocks the merge; the text is compared in lower case.
blocked_by_ci :
    classify (failed (response 405 (b'R' ∷ b'E' ∷ b'Q' ∷ b'U' ∷ b'I' ∷ b'R' ∷ b'E' ∷ b'D' ∷ [])))
    ≡ failed ci_not_passed
unfolding classify
blocked_by_ci = refl
