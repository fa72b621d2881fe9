-- ===== src/Sweeper/Expiry/Laws.antt =====
-- What expiring does to the rows, the history and the deploy locks.
use deploy_bot.Prelude.{
  ℕ, ◌≤◌, String, ◌≡◌, refl, sym, ◌∙◌, false, none, some, Option, List, [], ◌∷◌, ◌++◌, ◌==◌, map,
  arith, some_of, if◌then◌else◌, select, some_of-sort_by, leb,
}
use mathlib.Core.List.{append-nil, append_assoc}
use deploy_bot.Store.Types.{Key, PendingDeploy, HistoryEntry, history_from_pending}
use deploy_bot.Store.Table.{find_row, has_key, UniqueKeys, holds_of, some_of-select}
use deploy_bot.Store.Pending.{get_expired, is_expired, ok}
use deploy_bot.Store.Locks.{deploy_lock_key}
use deploy_bot.Store.History.{stored_entry}
use deploy_bot.World.{Env, World, Op, send, pg_get_expired}
use deploy_bot.Bot.Tasks.Effects.{find-run_all, history-run_all, lock-run_all, now-run_all}
use deploy_bot.Bot.Approve.Effects.{lock_of, lock_at}
use deploy_bot.Sweeper.Expiry.{expire_tasks, expire, expire_all}

-- No statement to the database and no command to Redis fails.
abbrev pub AllSucceed : {K : Type 0} → Env K → Type 0
AllSucceed env = (op : Op) → env.fails op ≡ false

-- A row that is there and not expired.
abbrev pub unless_expired : ℕ → Option PendingDeploy → Option PendingDeploy
unless_expired now none = none
unless_expired now (some d) = if is_expired now d then none else some d

module _ {K : Type 0} (env : Env K) where
  -- The entry for a deploy that expires.
  abbrev pub expired_entry : ℕ → PendingDeploy → HistoryEntry
  expired_entry now d = stored_entry (history_from_pending now d "expired")

  now-expire : (d : PendingDeploy) (w : World K) → (expire env d w).now ≡ w.now
  unfolding expire send
  now-expire d w = now-run_all env (expire_tasks env d w) _

  now-expire_all : (ds : List PendingDeploy) (w : World K) → (expire_all env ds w).now ≡ w.now
  unfolding expire_all
  now-expire_all [] w = refl
  now-expire_all (d ∷ ds) w = now-expire_all ds (expire env d w) ∙ now-expire d w

  module _ (ok_all : AllSucceed env) where
    find-expire :
        (k : Key) (d : PendingDeploy) (w : World K)
        → find_row k (expire env d w).pending ≡ (if has_key k d then none else find_row k w.pending)
    unfolding expire send expire_tasks some_of
    find-expire k d w = find-run_all env k (expire_tasks env d w) _ ∙ rw ok_all (ground arith)

    history-expire :
        (d : PendingDeploy) (w : World K)
        → (expire env d w).history ≡ w.history ++ expired_entry w.now d ∷ []
    unfolding expire send expire_tasks
    history-expire d w = history-run_all env (expire_tasks env d w) _ ∙ rw ok_all refl

    lock-expire :
        (e app : String) (t : ℕ) (d : PendingDeploy) (w : World K)
        → w.now ≤ t
        → lock_at env (expire env d w) t e app
          ≡ (if lock_of env d == deploy_lock_key e app then none else lock_at env w t e app)
    unfolding expire send expire_tasks some_of
    lock-expire e app t d w h =
        lock-run_all env e app t (expire_tasks env d w) _ h ∙ rw ok_all (ground arith)

    find-expire_all :
        (k : Key) (ds : List PendingDeploy) (w : World K)
        → find_row k (expire_all env ds w).pending
          ≡ (if some_of (has_key k) ds then none else find_row k w.pending)
    unfolding expire_all some_of
    find-expire_all k [] w = refl
    find-expire_all k (d ∷ ds) w =
        ground (arith, find-expire_all k ds (expire env d w), find-expire k d w)

    history-expire_all :
        (ds : List PendingDeploy) (w : World K)
        → (expire_all env ds w).history ≡ w.history ++ map (expired_entry w.now) ds
    unfolding expire_all
    history-expire_all [] w = sym (append-nil w.history)
    history-expire_all (d ∷ ds) w =
        history-expire_all ds (expire env d w)
        ∙ rw (history-expire d w, now-expire d w)
            (append_assoc w.history (expired_entry w.now d ∷ []) _)

    lock-expire_all :
        (e app : String) (t : ℕ) (ds : List PendingDeploy) (w : World K)
        → w.now ≤ t
        → lock_at env (expire_all env ds w) t e app ≡ (
            if some_of (λ d. lock_of env d == deploy_lock_key e app) ds
            then none
            else lock_at env w t e app)
    unfolding expire_all some_of
    lock-expire_all e app t [] w h = refl
    lock-expire_all e app t (d ∷ ds) w h = ground (
      arith,
      lock-expire_all e app t ds (expire env d w) (rw (now-expire d w) h),
      lock-expire e app t d w h,
    )

    expired_key :
        (k : Key) (ds : List PendingDeploy) (w : World K)
        → UniqueKeys w.pending
        → get_expired env w ≡ ok ds
        → some_of (has_key k) ds ≡ holds_of (is_expired w.now) (find_row k w.pending)
    unfolding get_expired
    expired_key k ds w u e = ground (
      arith,
      ok_all pg_get_expired,
      some_of-sort_by (λ a b. leb a.expires_at b.expires_at) (has_key k)
          (select (is_expired w.now) w.pending),
      some_of-select k (is_expired w.now) w.pending u,
    )

    -- When no two rows have one key and no store operation fails, expiring what `GetExpired`
    -- returns removes exactly the rows that are pending past their time, adds one entry for each
    -- of them to the history, and frees exactly their locks.
    pub expire_all-get_expired :
        (ds : List PendingDeploy) (w : World K)
        → UniqueKeys w.pending
        → get_expired env w ≡ ok ds
        → ((k : Key)
            → find_row k (expire_all env ds w).pending
              ≡ unless_expired w.now (find_row k w.pending))
          × ((expire_all env ds w).history ≡ w.history ++ map (expired_entry w.now) ds)
          × ((e app : String) (t : ℕ)
              → w.now ≤ t
              → lock_at env (expire_all env ds w) t e app ≡ (
                  if some_of (λ d. lock_of env d == deploy_lock_key e app) ds
                  then none
                  else lock_at env w t e app))
    expire_all-get_expired ds w u e = (
      λ k. find-expire_all k ds w ∙ rw (expired_key k ds w u e) (removed (find_row k w.pending)),
      history-expire_all ds w,
      λ f app t h. lock-expire_all f app t ds w h,
    )
      where
        removed :
            (r : Option PendingDeploy)
            → (if holds_of (is_expired w.now) r then none else r) ≡ unless_expired w.now r
        removed none = refl
        removed (some d) = refl
