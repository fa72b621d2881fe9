-- ===== src/Bot/Tasks/Effects.antt =====
-- What a list of tasks does to the durable state, as a function of the list.
use deploy_bot.Prelude.{
  ℕ, ◌≤◌, String, ◌≡◌, refl, sym, ◌∙◌, Bool, false, not, ◌&&◌, none, List, [], ◌∷◌, ◌++◌, ◌==◌,
  arith, some_of, if◌then◌else◌,
}
use mathlib.Core.List.{append-nil, append_assoc}
use deploy_bot.Store.Types.{Key, HistoryEntry, key_eq}
use deploy_bot.Store.Table.{find_row, find-delete}
use deploy_bot.Store.Pending.{delete}
use deploy_bot.Store.History.{push_history, stored_entry}
use deploy_bot.Store.Locks.{release_lock, release, deploy_lock_key}
use deploy_bot.Store.Locks.Laws.{get-release}
use deploy_bot.World.{Env, World, pg_delete, pg_push_history, redis_del, send}
use deploy_bot.Bot.Thread.Frame.{SameDeploys-thread_ts}
use deploy_bot.Bot.Tasks.{
  Task, sends, releases_lock, deletes, pushes, posts_threaded, run_task, run_all,
}

module _ {K : Type 0} (env : Env K) where
  -- The task deletes the row with the key, and the database obeys.
  abbrev pub removes : Key → Task → Bool
  removes k (deletes j) = key_eq k j && not (env.fails (pg_delete j))
  removes k _ = false

  -- The task releases the lock with the key, and Redis obeys.
  abbrev pub frees : String → Task → Bool
  frees key (releases_lock e app) =
      deploy_lock_key e app == key && not (env.fails (redis_del (deploy_lock_key e app)))
  frees key _ = false

  -- The entries that the task adds to the history.
  abbrev pub pushed_by : Task → List HistoryEntry
  pushed_by (pushes h) = if env.fails (pg_push_history h.pr_number) then [] else stored_entry h ∷ []
  pushed_by _ = []

  abbrev pub pushed : List Task → List HistoryEntry
  pushed [] = []
  pushed (t ∷ ts) = pushed_by t ++ pushed ts

  now-run_task : (t : Task) (w : World K) → (run_task env t w).now ≡ w.now
  unfolding run_task release_lock delete push_history send
  now-run_task (sends x) w = refl
  now-run_task (releases_lock e app) w = ground arith
  now-run_task (deletes k) w = ground arith
  now-run_task (pushes h) w = ground arith
  now-run_task (posts_threaded kind e pr) w = (SameDeploys-thread_ts env e w).now

  calls-run_task : (t : Task) (w : World K) → (run_task env t w).merge_calls ≡ w.merge_calls
  unfolding run_task release_lock release delete push_history send
  calls-run_task (sends x) w = refl
  calls-run_task (releases_lock e app) w = ground arith
  calls-run_task (deletes k) w = ground arith
  calls-run_task (pushes h) w = ground arith
  calls-run_task (posts_threaded kind e pr) w = (SameDeploys-thread_ts env e w).merge_calls

  -- No task asks GitHub for a merge.
  pub calls-run_all :
      (ts : List Task) (w : World K) → (run_all env ts w).merge_calls ≡ w.merge_calls
  unfolding run_all
  calls-run_all [] w = refl
  calls-run_all (t ∷ ts) w = calls-run_all ts (run_task env t w) ∙ calls-run_task t w

  find-run_task :
      (k : Key) (t : Task) (w : World K)
      → find_row k (run_task env t w).pending ≡ (if removes k t then none else find_row k w.pending)
  unfolding run_task release_lock delete push_history send
  find-run_task k (sends x) w = refl
  find-run_task k (releases_lock e app) w = ground arith
  find-run_task k (deletes j) w = ground (arith, find-delete k j w.pending)
  find-run_task k (pushes h) w = ground arith
  find-run_task k (posts_threaded kind e pr) w = rw (SameDeploys-thread_ts env e w).pending

  history-run_task :
      (t : Task) (w : World K) → (run_task env t w).history ≡ w.history ++ pushed_by t
  unfolding run_task release_lock delete push_history send
  history-run_task (sends x) w = sym (append-nil w.history)
  history-run_task (releases_lock e app) w = ground (arith, append-nil w.history)
  history-run_task (deletes k) w = ground (arith, append-nil w.history)
  history-run_task (pushes h) w = ground (arith, append-nil w.history)
  history-run_task (posts_threaded kind e pr) w =
      (SameDeploys-thread_ts env e w).history ∙ sym (append-nil w.history)

  lock-run_task :
      (e app : String) (t : ℕ) (x : Task) (w : World K)
      → w.now ≤ t
      → env.redis.get (run_task env x w).keys t (deploy_lock_key e app) ≡ (
          if frees (deploy_lock_key e app) x
          then none
          else env.redis.get w.keys t (deploy_lock_key e app))
  unfolding run_task delete push_history send
  lock-run_task e app t (sends x) w h = refl
  lock-run_task e app t (releases_lock f other) w h =
      unfold release_lock in
      ground (arith, get-release env (deploy_lock_key f other) (deploy_lock_key e app) t w)
  lock-run_task e app t (deletes k) w h = ground arith
  lock-run_task e app t (pushes x) w h = ground arith
  lock-run_task e app t (posts_threaded kind f pr) w h =
      (SameDeploys-thread_ts env f w).locks t e app h

  pub now-run_all : (ts : List Task) (w : World K) → (run_all env ts w).now ≡ w.now
  unfolding run_all
  now-run_all [] w = refl
  now-run_all (t ∷ ts) w = now-run_all ts (run_task env t w) ∙ now-run_task t w

  -- A row is gone after the tasks exactly when one of them removed it; no other row changes.
  pub find-run_all :
      (k : Key) (ts : List Task) (w : World K)
      → find_row k (run_all env ts w).pending
        ≡ (if some_of (removes k) ts then none else find_row k w.pending)
  unfolding run_all some_of
  find-run_all k [] w = refl
  find-run_all k (t ∷ ts) w =
      ground (arith, find-run_all k ts (run_task env t w), find-run_task k t w)

  -- The history grows by what the tasks push, at its end.
  pub history-run_all :
      (ts : List Task) (w : World K) → (run_all env ts w).history ≡ w.history ++ pushed ts
  unfolding run_all
  history-run_all [] w = sym (append-nil w.history)
  history-run_all (t ∷ ts) w =
      history-run_all ts (run_task env t w)
      ∙ rw history-run_task (append_assoc w.history (pushed_by t) (pushed ts))

  -- A deploy lock is free after the tasks exactly when one of them freed it or it was free.
  pub lock-run_all :
      (e app : String) (t : ℕ) (ts : List Task) (w : World K)
      → w.now ≤ t
      → env.redis.get (run_all env ts w).keys t (deploy_lock_key e app) ≡ (
          if some_of (frees (deploy_lock_key e app)) ts
          then none
          else env.redis.get w.keys t (deploy_lock_key e app))
  unfolding run_all some_of
  lock-run_all e app t [] w h = refl
  lock-run_all e app t (x ∷ ts) w h = ground (
    arith,
    lock-run_all e app t ts (run_task env x w) (rw now-run_task h),
    lock-run_task e app t x w h,
  )
