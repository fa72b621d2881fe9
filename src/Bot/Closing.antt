-- ===== src/Bot/Closing.antt =====
-- How cancelling, rejecting and expiring end a request: goroutines that run side by side, and the
-- refresh of the gauge after them. What they have in common is proved here once, from the list of
-- the tasks.
use deploy_bot.Prelude.{ℤ, ◌≡◌, refl, ◌∙◌, ap, true, false, List, [], ◌∷◌, ◌++◌, some_of}
use deploy_bot.Store.Types.{Key, PendingDeploy, HistoryEntry, key_eq}
use deploy_bot.Store.Table.{find_row}
use deploy_bot.World.{Env, World}
use deploy_bot.Bot.Tasks.{Task, run_all}
use deploy_bot.Bot.Tasks.Effects.{
  removes, frees, pushed, find-run_all, history-run_all, lock-run_all, now-run_all,
}
use deploy_bot.Bot.Approve.{row_key, update_pending_gauge}
use deploy_bot.Bot.Approve.Effects.{Untouched-gauge, lock_of}
use deploy_bot.Bot.Approve.Outcomes.{IsCompleted}

module _ {K : Type 0} (env : Env K) (d : PendingDeploy) (pr : ℤ) where
  -- The tasks delete the row, no other, push the one entry and free the lock.
  pub record ClosesRow (entry : HistoryEntry) (ts : List Task) : Type 0 where
    pub row : some_of (removes env (row_key d pr)) ts ≡ true
    pub no_other : (k : Key) → key_eq k (row_key d pr) ≡ false → some_of (removes env k) ts ≡ false
    pub entry_pushed : pushed env ts ≡ entry ∷ []
    pub lock_freed : some_of (frees env (lock_of env d)) ts ≡ true

  pub run_all-IsCompleted :
      (entry : HistoryEntry) (ts : List Task) (w : World K)
      → ClosesRow entry ts
      → IsCompleted env d pr entry (run_all env ts w) w
  run_all-IsCompleted entry ts w c = record {
    removed = find-run_all env (row_key d pr) ts w ∙ rw c.row refl;
    others = λ k h. find-run_all env k ts w ∙ rw (c.no_other k h) refl;
    recorded = history-run_all env ts w ∙ ap (λ h. w.history ++ h) c.entry_pushed;
    unlocked = λ t h.
        lock-run_all env d.environment d.app t ts w (rw now-run_all at h) ∙ rw c.lock_freed refl;
  }

  -- Refreshing the gauge changes nothing of it.
  pub gauge-IsCompleted :
      (entry : HistoryEntry) (v w : World K)
      → IsCompleted env d pr entry v w
      → IsCompleted env d pr entry (update_pending_gauge env v) w
  gauge-IsCompleted entry v w c =
      let same = Untouched-gauge env v in
      record {
        removed = ap (find_row (row_key d pr)) same.pending ∙ c.removed;
        others = λ k h. ap (find_row k) same.pending ∙ c.others k h;
        recorded = same.history ∙ c.recorded;
        unlocked = λ t h.
            ap (λ keys. env.redis.get keys t (lock_of env d)) same.keys
            ∙ c.unlocked t (rw same.now at h);
      }
