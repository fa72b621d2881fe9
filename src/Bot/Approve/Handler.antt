-- ===== src/Bot/Approve/Handler.antt =====
-- `handleApprove` as a whole, for a member who clicks on a pending request.
use deploy_bot.Prelude.{◌+◌, ℤ, String, ◌≡◌, ◌≢◌, ◌∙◌, ap, true, false, some, arith, atoi}
use deploy_bot.Config.{AppConfig, app_by_name}
use deploy_bot.Store.Types.{PendingDeploy, state_pending, state_merging}
use deploy_bot.Store.Table.{find_row, find_row-key}
use deploy_bot.Store.Locks.{deploy_lock_key}
use deploy_bot.Bot.Member.{remember}
use deploy_bot.World.{
  Env, World, Identity, GithubError, done, failed, head_modified, membership, sleep, pg_get,
  pg_delete, pg_push_history, pg_update_state, redis_del,
}
use deploy_bot.Bot.Approve.{
  row_key, config_key, approve_found, approve_outcome, retry_head, head_waited, handle_approve,
}
use deploy_bot.Bot.Approve.Access.{handle_approve-found}
use deploy_bot.Bot.Approve.Outcomes.{
  IsCompleted-remember, IsReopened-remember, attempt, IsCompleted, approved_entry,
  approve_found-merged, IsReopened, approve_found-IsReopened, found-outcome, attempt-row,
  attempt-history, attempt-keys,
}

-- The pull request's number is on the button, the user is a member, and the request is pending
-- for an app that is still configured.
pub record IsApprovable {K : Type 0} (env : Env K) (user value : String) (pr : ℤ) (ident : Identity)
    (d : PendingDeploy) (a : AppConfig) (w : World K) : Type 0 where
  pub number : atoi value ≡ some pr
  pub member : env.is_member user ≡ membership true ident
  pub readable : env.fails (pg_get (config_key env pr)) ≡ false
  pub row : find_row (config_key env pr) w.pending ≡ some d
  pub configured : app_by_name env.cfg d.app ≡ some a

module _ {K : Type 0} (env : Env K) (user value : String) (pr : ℤ) (ident : Identity)
    (d : PendingDeploy) (a : AppConfig) (w : World K)
    (h : IsApprovable env user value pr ident d a w) where
  pub reached : handle_approve env user value w ≡ approve_found env d pr ident (remember env user w)
  reached = handle_approve-found env user value pr ident d w h.number h.member h.readable h.row

  own_key : row_key d pr ≡ config_key env pr
  own_key = ground (arith, find_row-key (config_key env pr) w.pending h.row)

  -- A member approves a pending request of a configured app. When the merge succeeds and no store
  -- operation on the way out fails, the deploy is completed: the row is gone and every other row
  -- unchanged, the history ends in one new entry with the merge commit, and the deploy lock is
  -- free.
  pub handle_approve-merged :
      (sha : String)
      → (attempt env d pr a (remember env user w)).0 ≡ done (record { sha = sha; no_op = false })
      → env.fails (pg_delete (row_key d pr)) ≡ false
      → env.fails (pg_push_history d.pr_number) ≡ false
      → env.fails (redis_del (deploy_lock_key d.environment d.app)) ≡ false
      → IsCompleted env d pr
          (approved_entry env d pr (attempt env d pr a (remember env user w)).1.now sha)
          (handle_approve env user value w)
          w
  handle_approve-merged sha f del push unlock = rw reached (
      IsCompleted-remember env d pr user (
        approve_found-merged env d pr a ident sha (remember env user w) h.configured f del push
          unlock))

  -- A member approves a pending request of a configured app. When the merge fails for any reason but
  -- a modified head, and neither change of state fails, the request is open again: its row is
  -- pending, every other row, the history and all keys of Redis but the cache of identities
  -- are unchanged.
  pub handle_approve-IsReopened :
      (e : GithubError)
      → (attempt env d pr a (remember env user w)).0 ≡ failed e
      → e ≢ head_modified
      → env.fails (pg_update_state (row_key d pr) state_merging) ≡ false
      → env.fails (pg_update_state (row_key d pr) state_pending) ≡ false
      → IsReopened env d pr (handle_approve env user value w) w
  handle_approve-IsReopened e f ne mark reset = rw reached (
      IsReopened-remember env d pr user (
        approve_found-IsReopened env d pr a ident e (remember env user w) (rw own_key h.row)
          h.configured f ne mark reset))

  -- A member approves a pending request of a configured app, whose row is marked as merging. When
  -- the head was modified and the context ends during the wait before the direct retry, the handler
  -- stops there: the row stays in the state `merging`, and the history and all keys
  -- of Redis but the cache of identities are unchanged.
  pub handle_approve-left_merging :
      (attempt env d pr a (remember env user w)).0 ≡ failed head_modified
      → env.ctx_done ((attempt env d pr a (remember env user w)).1.now + 2_000) ≡ true
      → env.fails (pg_update_state (row_key d pr) state_merging) ≡ false
      → (find_row (row_key d pr) (handle_approve env user value w).pending
          ≡ some (record d { state = state_merging }))
        × ((handle_approve env user value w).history ≡ w.history)
        × ((handle_approve env user value w).keys ≡ w.keys)
  handle_approve-left_merging f stop mark =
      let stopped : handle_approve env user value w ≡ (attempt env d pr a (remember env user w)).1 =
        reached
        ∙ found-outcome env d pr a ident (remember env user w) h.configured
        ∙ ap (λ o. approve_outcome env d pr ident (o, (attempt env d pr a (remember env user w)).1))
            f
        ∙ unfold approve_outcome retry_head head_waited sleep in rw stop in
      rw stopped (
        attempt-row env d pr a (remember env user w) (rw own_key h.row) mark,
        attempt-history env d pr a (remember env user w),
        attempt-keys env d pr a (remember env user w),
      )
