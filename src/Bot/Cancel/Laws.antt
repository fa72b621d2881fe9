-- ===== src/Bot/Cancel/Laws.antt =====
-- Who may cancel, and what a cancellation leaves behind.
use deploy_bot.Prelude.{
  ℤ, String, ◌≡◌, refl, true, false, some, arith, atoi, eq_refl, ◌==◌, some_of,
}
use deploy_bot.Store.Types.{PendingDeploy, history_from_pending}
use deploy_bot.Store.Table.{find_row, key_eq_refl}
use deploy_bot.Store.Pending.{get}
use deploy_bot.Bot.Member.{remember}
use deploy_bot.Store.History.{stored_entry}
use deploy_bot.World.{
  Env, World, send, pg_get, pg_delete, pg_push_history, redis_del, record_deploy,
}
use deploy_bot.Bot.Tasks.{run_all}
use deploy_bot.Bot.Approve.{row_key, config_key}
use deploy_bot.Bot.Approve.Effects.{Untouched, lock_of}
use deploy_bot.Bot.Approve.Outcomes.{IsCompleted}
use deploy_bot.Bot.Closing.{ClosesRow, run_all-IsCompleted, gauge-IsCompleted}
use deploy_bot.Bot.Cancel.{
  CancelParams, may_cancel, cancel_tasks, cancel_found, cancel_row, cancel_parsed, do_cancel_deploy,
}

module _ {K : Type 0} (env : Env K) (p : CancelParams) (pr_arg : String) (pr : ℤ)
    (d : PendingDeploy) (w : World K) where
  cancelled-ClosesRow :
      env.fails (pg_delete (row_key d pr)) ≡ false
      → env.fails (pg_push_history d.pr_number) ≡ false
      → env.fails (redis_del (lock_of env d)) ≡ false
      → ClosesRow env d pr
          (stored_entry (history_from_pending w.now d "cancelled"))
          (cancel_tasks env p d pr w)
  unfolding cancel_tasks some_of history_from_pending
  cancelled-ClosesRow del push unlock = record {
    row = rw (key_eq_refl (row_key d pr), del) refl;
    no_other = λ k h. rw h refl;
    entry_pushed = rw push refl;
    lock_freed = rw (eq_refl (lock_of env d), unlock) refl;
  }

  found :
      atoi pr_arg ≡ some pr
      → env.fails (pg_get (config_key env pr)) ≡ false
      → find_row (config_key env pr) w.pending ≡ some d
      → do_cancel_deploy env pr_arg p w ≡ cancel_found env p d pr w
  unfolding do_cancel_deploy cancel_parsed cancel_row get
  found e f h = ground arith

  -- When a user who may cancel the pending request does so, and no store operation fails, the
  -- deploy is completed: its row is gone and every other row unchanged, the history has one more
  -- entry, and the deploy lock is free.
  pub do_cancel_deploy-IsCompleted :
      atoi pr_arg ≡ some pr
      → env.fails (pg_get (config_key env pr)) ≡ false
      → find_row (config_key env pr) w.pending ≡ some d
      → may_cancel p d ≡ true
      → env.fails (pg_delete (row_key d pr)) ≡ false
      → env.fails (pg_push_history d.pr_number) ≡ false
      → env.fails (redis_del (lock_of env d)) ≡ false
      → IsCompleted env d pr
          (stored_entry (history_from_pending w.now d "cancelled"))
          (do_cancel_deploy env pr_arg p w)
          w
  unfolding cancel_found send
  do_cancel_deploy-IsCompleted e f h may del push unlock =
      let entry = stored_entry (history_from_pending w.now d "cancelled") in
      let after =
        run_all env (cancel_tasks env p d pr w)
          (send (record_deploy d.app "cancelled") (remember env p.user_id w)) in
      let done =
        run_all-IsCompleted env d pr entry (cancel_tasks env p d pr w)
          (send (record_deploy d.app "cancelled") (remember env p.user_id w))
          (cancelled-ClosesRow del push unlock) in
      rw (found e f h, may)
        (gauge-IsCompleted env d pr entry after w (record {
          removed = done.removed;
          others = done.others;
          recorded = done.recorded;
          unlocked = done.unlocked;
        }))

  -- A user who is not the requester cannot cancel a request that has one: rows, history, locks
  -- and the clock stay as they are.
  pub do_cancel_deploy-foreign :
      find_row (config_key env pr) w.pending ≡ some d
      → atoi pr_arg ≡ some pr
      → d.requester_id == p.user_id ≡ false
      → d.requester_id == "" ≡ false
      → Untouched (do_cancel_deploy env pr_arg p w) w
  unfolding do_cancel_deploy cancel_parsed cancel_row cancel_found get may_cancel send
  do_cancel_deploy-foreign h e other named = ground arith
