-- ===== src/Bot/Ecr/Outcomes.antt =====
-- What an automatic deploy leaves behind.
use deploy_bot.Prelude.{
  ℕ, ◌≤◌, ℤ, String, ◌≡◌, refl, ◌∙◌, ap, true, false, none, [], ◌∷◌, ◌++◌, arith, eq_refl, Bool,
  some_of, if◌then◌else◌,
}
use deploy_bot.Config.{AppConfig}
use deploy_bot.Store.Types.{Key}
use deploy_bot.Store.Table.{find_row}
use deploy_bot.Store.Locks.{release_lock, release, deploy_lock_key}
use deploy_bot.Store.Locks.Laws.{release_lock-get}
use deploy_bot.Store.History.{stored_entry}
use deploy_bot.World.{
  Env, World, Outcome, done, failed, send, pg_push_history, redis_del, record_deploy,
}
use deploy_bot.Bot.Tasks.{run_all}
use deploy_bot.Bot.Tasks.Effects.{find-run_all, history-run_all, lock-run_all, now-run_all}
use deploy_bot.Bot.Merge.{MergeResult, merge_with_retry}
use deploy_bot.Bot.Merge.Laws.{OnlyAsked-merge_with_retry}
use deploy_bot.Bot.Approve.Effects.{Untouched-gauge, lock_at}
use deploy_bot.Bot.Ecr.{
  EcrPushEvent, ecr_merge_params, ecr_entry, failed_tasks, deployed_tasks, deployed, auto_outcome,
  handle_ecr_auto_deploy, unlocked,
}

module _ {K : Type 0} (env : Env K) (evt : EcrPushEvent) (a : AppConfig) (pr : ℤ)
    (url : String) where
  -- No row differs, and the deploy lock is free from then on.
  pub record IsUnlocked (v w : World K) : Type 0 where
    pub rows : (k : Key) → find_row k v.pending ≡ find_row k w.pending
    pub unlocked : (t : ℕ) → v.now ≤ t → lock_at env v t a.environment evt.app ≡ none

  module _ (unlock : env.fails (redis_del (deploy_lock_key a.environment evt.app)) ≡ false) where
    failed-IsUnlocked : (w : World K) → IsUnlocked (run_all env (failed_tasks env evt a pr url) w) w
    unfolding failed_tasks some_of
    failed-IsUnlocked w = record {
      rows = λ k. find-run_all env k (failed_tasks env evt a pr url) w;
      unlocked = λ t h.
          lock-run_all env a.environment evt.app t (failed_tasks env evt a pr url) w
            (rw now-run_all at h)
          ∙ rw (eq_refl (deploy_lock_key a.environment evt.app), unlock) refl;
    }

    deployed-IsUnlocked :
        (sha : String) (w : World K) → IsUnlocked (deployed env evt a pr url sha w) w
    unfolding deployed deployed_tasks some_of send
    deployed-IsUnlocked sha w =
        let tasks = deployed_tasks env evt a pr url sha w.now in
        let same =
          Untouched-gauge env (run_all env tasks (send (record_deploy evt.app "approved") w)) in
        record {
          rows = λ k. ap (find_row k) same.pending ∙ find-run_all env k tasks _;
          unlocked = λ t h.
              ap (λ keys. env.redis.get keys t (deploy_lock_key a.environment evt.app)) same.keys
              ∙ lock-run_all env a.environment evt.app t tasks _
                  (rw now-run_all at (rw same.now at h))
              ∙ rw (eq_refl (deploy_lock_key a.environment evt.app), unlock) refl;
        }

    no_op-IsUnlocked : (v w : World K) → v.pending ≡ w.pending → IsUnlocked (unlocked env evt a v) w
    no_op-IsUnlocked v w same = record {
      rows = λ k. unfold release_lock release in ground (arith, same);
      unlocked = λ t h.
          release_lock-get env a.environment evt.app a.environment evt.app t v unlock
          ∙ rw (eq_refl (deploy_lock_key a.environment evt.app)) refl;
    }

    IsUnlocked-if :
        (b : Bool) {x y w : World K}
        → IsUnlocked x w
        → IsUnlocked y w
        → IsUnlocked (if b then x else y) w
    IsUnlocked-if true p q = p
    IsUnlocked-if false p q = q

    outcome-IsUnlocked :
        (r : Outcome MergeResult × World K) → IsUnlocked (auto_outcome env evt a pr url r) r.1
    unfolding auto_outcome send
    outcome-IsUnlocked (failed e, v) = failed-IsUnlocked v
    outcome-IsUnlocked (done r, v) =
        IsUnlocked-if r.no_op (no_op-IsUnlocked _ v refl) (deployed-IsUnlocked r.sha v)

    -- However the merge of an automatic deploy ends, the deploy lock is free afterwards and no row
    -- has changed, when Redis obeys.
    pub handle_ecr_auto_deploy-IsUnlocked :
        (w : World K) → IsUnlocked (handle_ecr_auto_deploy env evt a pr url w) w
    unfolding handle_ecr_auto_deploy
    handle_ecr_auto_deploy-IsUnlocked w =
        let params = ecr_merge_params evt a in
        let freed = outcome-IsUnlocked (merge_with_retry env pr params w) in
        record {
          rows = λ k.
              freed.rows k ∙ ap (find_row k) (OnlyAsked-merge_with_retry env pr params w).pending;
          unlocked = freed.unlocked;
        }

  outcome-deployed :
      (r : Outcome MergeResult × World K) (sha : String)
      → r.0 ≡ done (record { sha = sha; no_op = false })
      → auto_outcome env evt a pr url r ≡ deployed env evt a pr url sha r.1
  unfolding auto_outcome
  outcome-deployed (o, v) sha h = ap (λ o. auto_outcome env evt a pr url (o, v)) h

  -- An automatic deploy that is merged adds one entry to the history, with the merge commit and
  -- the time at which the merge ended, when the statement does not fail.
  pub handle_ecr_auto_deploy-merged :
      (sha : String) (w : World K)
      → (merge_with_retry env pr (ecr_merge_params evt a) w).0
        ≡ done (record { sha = sha; no_op = false })
      → env.fails (pg_push_history pr) ≡ false
      → (handle_ecr_auto_deploy env evt a pr url w).history
        ≡ w.history
          ++ stored_entry (
              ecr_entry evt a pr url sha (merge_with_retry env pr (ecr_merge_params evt a) w).1.now)
            ∷ []
  unfolding handle_ecr_auto_deploy deployed deployed_tasks ecr_entry send
  handle_ecr_auto_deploy-merged sha w h push =
      let params = ecr_merge_params evt a in
      let r = merge_with_retry env pr params w in
      ap (λ v. v.history) (outcome-deployed r sha h)
      ∙ (Untouched-gauge env _).history
      ∙ history-run_all env (deployed_tasks env evt a pr url sha r.1.now) _
      ∙ rw push (
          ap (λ past. past ++ stored_entry (ecr_entry evt a pr url sha r.1.now) ∷ [])
            (OnlyAsked-merge_with_retry env pr params w).history)
