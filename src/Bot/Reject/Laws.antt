-- ===== src/Bot/Reject/Laws.antt =====
-- Who may reject, and what a rejection leaves behind.
use deploy_bot.Prelude.{
  ℤ, String, ◌≡◌, refl, ◌≢◌, true, false, none, some, Option, arith, atoi, eq_refl, some_of,
}
use deploy_bot.Store.Types.{PendingDeploy, history_from_pending}
use deploy_bot.Store.Table.{find_row, key_eq_refl}
use deploy_bot.Store.Pending.{Result, ok, err, get}
use deploy_bot.Bot.Member.{remember}
use deploy_bot.Store.History.{stored_entry}
use deploy_bot.World.{
  Env, World, Identity, Membership, member_error, membership, send, pg_get, pg_delete,
  pg_push_history, redis_del, record_deploy,
}
use deploy_bot.Bot.Tasks.{run_all}
use deploy_bot.Bot.Approve.{row_key, config_key}
use deploy_bot.Bot.Approve.Effects.{Untouched, Untouched-remember, lock_of}
use deploy_bot.Bot.Approve.Outcomes.{IsCompleted}
use deploy_bot.Bot.Closing.{ClosesRow, run_all-IsCompleted, gauge-IsCompleted}
use deploy_bot.Bot.Reject.{
  reject_tasks, reject_verdict, reject_row, reject_parsed, handle_reject_submit,
}

module _ {K : Type 0} (env : Env K) (user metadata reason : String) where
  unverified :
      (m : Membership) (d : PendingDeploy) (pr : ℤ) (w : World K)
      → ((ident : Identity) → m ≢ membership true ident)
      → Untouched (reject_verdict env m reason d pr w) w
  unfolding reject_verdict send
  unverified member_error d pr w h = ground arith
  unverified (membership false ident) d pr w h = ground arith
  unverified (membership true ident) d pr w h = absurd (h ident refl)

  -- A rejection by somebody whom the validator does not confirm changes no row, no history and no
  -- lock, whatever the modal carries.
  handle_reject_submit-unauthorized :
      (w : World K)
      → ((ident : Identity) → env.is_member user ≢ membership true ident)
      → Untouched (handle_reject_submit env user metadata reason w) w
  unfolding handle_reject_submit
  handle_reject_submit-unauthorized w h = parsed (atoi metadata)
    where
      at_row :
          (r : Result (Option PendingDeploy)) (pr : ℤ)
          → Untouched (reject_row env r user reason pr w) w
      at_row (err e) pr = unfold reject_row in ground arith
      at_row (ok none) pr = unfold reject_row in ground arith
      at_row (ok (some d)) pr =
          unfold reject_row in
          Untouched-remember env user (unverified (env.is_member user) d pr (remember env user w) h)

      parsed : (o : Option ℤ) → Untouched (reject_parsed env o user reason w) w
      parsed none = unfold reject_parsed in ground arith
      parsed (some pr) = unfold reject_parsed in at_row (get env (config_key env pr) w) pr

  module _ (pr : ℤ) (ident : Identity) (d : PendingDeploy) (w : World K) where
    rejected-ClosesRow :
        env.fails (pg_delete (row_key d pr)) ≡ false
        → env.fails (pg_push_history d.pr_number) ≡ false
        → env.fails (redis_del (lock_of env d)) ≡ false
        → ClosesRow env d pr
            (stored_entry (history_from_pending w.now d "rejected"))
            (reject_tasks env reason d pr ident (remember env user w))
    unfolding reject_tasks some_of history_from_pending
    rejected-ClosesRow del push unlock = record {
      row = rw (key_eq_refl (row_key d pr), del) refl;
      no_other = λ k h. rw h refl;
      entry_pushed = rw push refl;
      lock_freed = rw (eq_refl (lock_of env d), unlock) refl;
    }

    found :
        atoi metadata ≡ some pr
        → env.is_member user ≡ membership true ident
        → env.fails (pg_get (config_key env pr)) ≡ false
        → find_row (config_key env pr) w.pending ≡ some d
        → handle_reject_submit env user metadata reason w
          ≡ reject_verdict env (membership true ident) reason d pr (remember env user w)
    unfolding handle_reject_submit reject_parsed reject_row get
    found e m f h = ground arith

    -- When a member rejects a pending request and no store operation fails, the deploy is
    -- completed: its row is gone and every other row unchanged, the history has one more entry,
    -- and the deploy lock is free.
    pub handle_reject_submit-IsCompleted :
        atoi metadata ≡ some pr
        → env.is_member user ≡ membership true ident
        → env.fails (pg_get (config_key env pr)) ≡ false
        → find_row (config_key env pr) w.pending ≡ some d
        → env.fails (pg_delete (row_key d pr)) ≡ false
        → env.fails (pg_push_history d.pr_number) ≡ false
        → env.fails (redis_del (lock_of env d)) ≡ false
        → IsCompleted env d pr
            (stored_entry (history_from_pending w.now d "rejected"))
            (handle_reject_submit env user metadata reason w)
            w
    unfolding reject_verdict send
    handle_reject_submit-IsCompleted e m f h del push unlock =
        let entry = stored_entry (history_from_pending w.now d "rejected") in
        let asked = send (record_deploy d.app "rejected") (remember env user w) in
        let done =
          run_all-IsCompleted env d pr entry
            (reject_tasks env reason d pr ident (remember env user w)) asked
            (rejected-ClosesRow del push unlock) in
        rw (found e m f h) (
          gauge-IsCompleted env d pr entry
            (run_all env (reject_tasks env reason d pr ident (remember env user w)) asked) w
            (record {
              removed = done.removed;
              others = done.others;
              recorded = done.recorded;
              unlocked = done.unlocked;
            }))
