-- ===== src/Bot/Approve/Effects.antt =====
-- What each part of `handleApprove` does to the rows, the history and the deploy locks.
use deploy_bot.Prelude.{
  ℕ, ◌≤◌, ℤ, String, ◌≡◌, refl, ◌∙◌, ap, false, not, ◌&&◌, Option, none, [], ◌∷◌, ◌++◌, ◌==◌, arith,
  some_of, if◌then◌else◌,
}
use mathlib.Core.Option
use mathlib.Core.List.{append-nil}
use deploy_bot.Store.Types.{Key, PendingDeploy, history_from_pending, key_eq, state_pending}
use deploy_bot.Store.Table.{find_row, find-update}
use deploy_bot.Store.Pending.{get_all, update_state}
use deploy_bot.Store.Locks.{deploy_lock_key}
use deploy_bot.Bot.Member.{remember}
use deploy_bot.Store.History.{stored_entry}
use deploy_bot.World.{
  Env, World, Identity, GithubError, send, pg_delete, pg_push_history, pg_update_state, redis_del,
}
use deploy_bot.Bot.Tasks.Effects.{find-run_all, history-run_all, lock-run_all, now-run_all}
use deploy_bot.Bot.Approve.{
  row_key, update_pending_gauge, approved_tasks, approve_finish, no_op_tasks, close_no_op_pr,
  reset_to_pending, merge_refused,
}

-- Nothing that the bot stores differs, the cache of identities aside.
pub record Untouched {K : Type 0} (v w : World K) : Type 0 where
  pub pending : v.pending ≡ w.pending
  pub history : v.history ≡ w.history
  pub keys : v.keys ≡ w.keys
  pub now : v.now ≡ w.now

-- The cache of identities aside.
pub Untouched-remember :
    {K : Type 0} (env : Env K) (user : String) {v w : World K}
    → Untouched v (remember env user w)
    → Untouched v w
Untouched-remember env user u = record {
  pending = u.pending;
  history = u.history;
  keys = u.keys;
  now = u.now;
}

module _ {K : Type 0} (env : Env K) where
  pub Untouched-gauge : (w : World K) → Untouched (update_pending_gauge env w) w
  unfolding update_pending_gauge get_all send
  Untouched-gauge w = ground arith

  -- The lock key of the row's deploy.
  abbrev pub lock_of : PendingDeploy → String
  lock_of d = deploy_lock_key d.environment d.app

  abbrev pub lock_at : World K → ℕ → String → String → Option String
  lock_at w t e app = env.redis.get w.keys t (deploy_lock_key e app)

  module _ (d : PendingDeploy) (pr : ℤ) where
    pub find-approve_finish :
        (ident : Identity) (sha : String) (k : Key) (w : World K)
        → find_row k (approve_finish env d pr ident sha w).pending ≡ (
            if key_eq k (row_key d pr) && not (env.fails (pg_delete (row_key d pr)))
            then none
            else find_row k w.pending)
    unfolding approve_finish send approved_tasks some_of
    find-approve_finish ident sha k w =
        ap (find_row k) (Untouched-gauge _).pending
        ∙ find-run_all env k (approved_tasks env d pr ident sha w) _
        ∙ ground arith

    pub history-approve_finish :
        (ident : Identity) (sha : String) (w : World K)
        → env.fails (pg_push_history d.pr_number) ≡ false
        → (approve_finish env d pr ident sha w).history
          ≡ w.history
            ++ stored_entry
                (record (history_from_pending w.now d "approved") { gitops_commit_sha = sha })
              ∷ []
    unfolding approve_finish send approved_tasks history_from_pending
    history-approve_finish ident sha w ok_push =
        (Untouched-gauge _).history
        ∙ history-run_all env (approved_tasks env d pr ident sha w) _
        ∙ ground arith

    pub now-approve_finish :
        (ident : Identity) (sha : String) (w : World K)
        → (approve_finish env d pr ident sha w).now ≡ w.now
    unfolding approve_finish send
    now-approve_finish ident sha w =
        (Untouched-gauge _).now ∙ now-run_all env (approved_tasks env d pr ident sha w) _

    pub lock-approve_finish :
        (ident : Identity) (sha e app : String) (t : ℕ) (w : World K)
        → w.now ≤ t
        → lock_at (approve_finish env d pr ident sha w) t e app ≡ (
            if lock_of d == deploy_lock_key e app && not (env.fails (redis_del (lock_of d)))
            then none
            else lock_at w t e app)
    unfolding approve_finish send approved_tasks some_of
    lock-approve_finish ident sha e app t w h =
        ap (λ keys. env.redis.get keys t (deploy_lock_key e app)) (Untouched-gauge _).keys
        ∙ lock-run_all env e app t (approved_tasks env d pr ident sha w) _ h
        ∙ ground arith

    pub find-close_no_op_pr :
        (k : Key) (w : World K)
        → find_row k (close_no_op_pr env d pr w).pending ≡ (
            if key_eq k (row_key d pr) && not (env.fails (pg_delete (row_key d pr)))
            then none
            else find_row k w.pending)
    unfolding close_no_op_pr send no_op_tasks some_of
    find-close_no_op_pr k w = find-run_all env k (no_op_tasks env d pr) w ∙ ground arith

    pub history-close_no_op_pr : (w : World K) → (close_no_op_pr env d pr w).history ≡ w.history
    unfolding close_no_op_pr send no_op_tasks
    history-close_no_op_pr w = history-run_all env (no_op_tasks env d pr) w ∙ append-nil w.history

    pub lock-close_no_op_pr :
        (e app : String) (t : ℕ) (w : World K)
        → w.now ≤ t
        → lock_at (close_no_op_pr env d pr w) t e app ≡ (
            if lock_of d == deploy_lock_key e app && not (env.fails (redis_del (lock_of d)))
            then none
            else lock_at w t e app)
    unfolding close_no_op_pr send no_op_tasks some_of
    lock-close_no_op_pr e app t w h =
        lock-run_all env e app t (no_op_tasks env d pr) w h ∙ ground arith

  -- A change of state changes the state of one row.
  pub find-update_state :
      (j k : Key) (state : String) (w : World K)
      → env.fails (pg_update_state k state) ≡ false
      → find_row j (update_state env k state w).1.pending ≡ (
          if key_eq j k
          then Option.map {A = PendingDeploy}
              (λ r. record r { state = state })
              (find_row j w.pending)
          else find_row j w.pending)
  unfolding update_state
  find-update_state j k state w h =
      rw h (find-update j k (λ r. record r { state = state }) w.pending (λ r. refl))

  pub update_state-elsewhere :
      (k : Key) (state : String) (w : World K)
      → ((update_state env k state w).1.history ≡ w.history)
        × ((update_state env k state w).1.keys ≡ w.keys)
        × ((update_state env k state w).1.now ≡ w.now)
  unfolding update_state
  update_state-elsewhere k state w = ground arith

  pub merge_refused-is_reset :
      (d : PendingDeploy) (pr : ℤ) (e : GithubError) (w : World K)
      → Untouched (merge_refused env d pr e w) (update_state env (row_key d pr) state_pending w).1
  unfolding merge_refused reset_to_pending send
  merge_refused-is_reset d pr e w = ground arith
