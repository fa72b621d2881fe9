-- ===== src/Bot/Approve/Keeps.antt =====
-- An approval removes a row or changes its state, and does nothing else to the table: what both
-- keep, every click on Approve keeps, whatever fails on the way.
use deploy_bot.Prelude.{
  ◌+◌, ℤ, String, ◌≡◌, refl, Bool, true, false, Option, none, some, List, [], ◌∷◌, ◌==◌, atoi,
  arith, if◌then◌else◌,
}
use deploy_bot.Config.{AppConfig, app_by_name}
use deploy_bot.Store.Types.{Key, PendingDeploy, HistoryEntry, state_pending, state_merging}
use deploy_bot.Store.Table.{
  delete_row, update_row, UniqueKeys, delete-UniqueKeys, update-UniqueKeys,
}
use deploy_bot.Store.Pending.{Result, ok, err, delete, update_state, get}
use deploy_bot.Store.History.{push_history}
use deploy_bot.Store.Locks.{release_lock}
use deploy_bot.Bot.Member.{remember}
use deploy_bot.World.{
  Env, World, Identity, Membership, member_error, membership, GithubError, Outcome, done, failed,
  head_modified, sleep, send, merge_conflict, pg_delete, pg_update_state,
}
use deploy_bot.Github.Merge.{merge_pr}
use deploy_bot.Github.Merge.Laws.{OnlyAsked-merge_pr}
use deploy_bot.Bot.Merge.{MergeResult, merge_with_retry}
use deploy_bot.Bot.Merge.Laws.{OnlyAsked-merge_with_retry}
use deploy_bot.Bot.Thread.Frame.{SameDeploys-thread_ts}
use deploy_bot.Bot.Tasks.{
  Task, sends, releases_lock, deletes, pushes, posts_threaded, run_task, run_all,
}
use deploy_bot.Bot.Approve.{
  row_key, config_key, approve_finish, close_no_op_pr, reset_to_pending, merge_refused,
  head_retried, head_waited, retry_head, approve_outcome, approve_configured, approve_found,
  approve_row, approve_verdict, approve_parsed, handle_approve, merge_params, approved_tasks,
  no_op_tasks,
}
use deploy_bot.Bot.Approve.Effects.{Untouched-gauge}

module _ {K : Type 0} (env : Env K) where
  pending-release_lock :
      (e app : String) (w : World K) → (release_lock env e app w).pending ≡ w.pending
  unfolding release_lock
  pending-release_lock e app w = ground arith

  pending-push_history :
      (h : HistoryEntry) (w : World K) → (push_history env h w).pending ≡ w.pending
  unfolding push_history
  pending-push_history h w = ground arith

  pending-delete :
      (k : Key) (w : World K)
      → (delete env k w).1.pending
        ≡ (if env.fails (pg_delete k) then w.pending else delete_row k w.pending)
  unfolding delete
  pending-delete k w = ground arith

  pending-update_state :
      (k : Key) (state : String) (w : World K)
      → (update_state env k state w).1.pending ≡ (
          if env.fails (pg_update_state k state)
          then w.pending
          else update_row k (λ d. record d { state = state }) w.pending)
  unfolding update_state
  pending-update_state k state w = ground arith

module _ {ℓ} (P : List PendingDeploy → Type ℓ)
    (deleted : (k : Key) (t : List PendingDeploy) → P t → P (delete_row k t))
    (changed : (k : Key) (state : String) (t : List PendingDeploy)
      → P t
      → P (update_row k (λ d. record d { state = state }) t))
    {K : Type 0} (env : Env K) where
  abbrev Kept : World K → Type ℓ
  Kept w = P w.pending

  either : (b : Bool) (t u : List PendingDeploy) → P t → P u → P (if b then t else u)
  either true t u p q = p
  either false t u p q = q

  run_task-keeps : (t : Task) (w : World K) → Kept w → Kept (run_task env t w)
  unfolding run_task
  run_task-keeps (sends e) w p = unfold send in p
  run_task-keeps (releases_lock e app) w p = rw (pending-release_lock env e app w) p
  run_task-keeps (deletes k) w p =
      rw (pending-delete env k w) (either (env.fails (pg_delete k)) _ _ p (deleted k w.pending p))
  run_task-keeps (pushes h) w p = rw (pending-push_history env h w) p
  run_task-keeps (posts_threaded kind e pr) w p =
      unfold send in rw (SameDeploys-thread_ts env e w).pending p

  run_all-keeps : (ts : List Task) (w : World K) → Kept w → Kept (run_all env ts w)
  unfolding run_all
  run_all-keeps [] w p = p
  run_all-keeps (t ∷ ts) w p = run_all-keeps ts (run_task env t w) (run_task-keeps t w p)

  update_state-keeps :
      (k : Key) (state : String) (w : World K) → Kept w → Kept (update_state env k state w).1
  update_state-keeps k state w p =
      rw (pending-update_state env k state w)
        (either (env.fails (pg_update_state k state)) _ _ p (changed k state w.pending p))

  module _ (d : PendingDeploy) (pr : ℤ) where
    refused-keeps : (e : GithubError) (w : World K) → Kept w → Kept (merge_refused env d pr e w)
    unfolding merge_refused reset_to_pending send
    refused-keeps e w p = update_state-keeps (row_key d pr) state_pending w p

    module _ (ident : Identity) where
      finish-keeps :
          (sha : String) (w : World K) → Kept w → Kept (approve_finish env d pr ident sha w)
      unfolding approve_finish send
      finish-keeps sha w p =
          rw (Untouched-gauge env _).pending
            (run_all-keeps (approved_tasks env d pr ident sha w) _ p)

      retried-keeps :
          (r : Outcome String) (w : World K) → Kept w → Kept (head_retried env d pr ident (r, w))
      unfolding head_retried reset_to_pending send
      retried-keeps (failed e) w p = update_state-keeps (row_key d pr) state_pending w p
      retried-keeps (done sha) w p =
          kept_if (sha == "") w (approve_finish env d pr ident sha w) p (finish-keeps sha w p)
        where
          kept_if : (b : Bool) (v u : World K) → Kept v → Kept u → Kept (if b then v else u)
          kept_if true v u p q = p
          kept_if false v u p q = q

      retry_head-keeps : (w : World K) → Kept w → Kept (retry_head env d pr ident w)
      unfolding retry_head head_waited sleep
      retry_head-keeps w p = waited (env.ctx_done (w.now + 2_000))
        where
          waited :
              (b : Bool)
              → Kept (
                  head_waited env d pr ident w
                    (if b then none else some (record w { now = w.now + 2_000 })))
          waited true = p
          waited false =
              retried-keeps (merge_pr env pr (record w { now = w.now + 2_000 })).0 _
                (rw (OnlyAsked-merge_pr env pr (record w { now = w.now + 2_000 })).pending p)

      outcome-keeps :
          (r : Outcome MergeResult) (w : World K)
          → Kept w
          → Kept (approve_outcome env d pr ident (r, w))
      unfolding approve_outcome
      outcome-keeps (done r) w p = closed_if r.no_op
        where
          closed_if :
              (b : Bool)
              → Kept
                  (if b then close_no_op_pr env d pr w else approve_finish env d pr ident r.sha w)
          closed_if true = unfold close_no_op_pr send in run_all-keeps (no_op_tasks env d pr) w p
          closed_if false = finish-keeps r.sha w p
      outcome-keeps (failed head_modified) w p = retry_head-keeps w p
      outcome-keeps (failed e) w p = refused-keeps e w p

      configured-keeps :
          (o : Option AppConfig) (w : World K)
          → Kept w
          → Kept (approve_configured env o d pr ident w)
      unfolding approve_configured
      configured-keeps none w p = refused-keeps merge_conflict w p
      configured-keeps (some a) w p =
          outcome-keeps (merge_with_retry env pr (merge_params d a) w).0 _
            (rw (OnlyAsked-merge_with_retry env pr (merge_params d a) w).pending p)

      found-keeps : (w : World K) → Kept w → Kept (approve_found env d pr ident w)
      unfolding approve_found send
      found-keeps w p =
          configured-keeps (app_by_name env.cfg d.app) _
            (update_state-keeps (row_key d pr) state_merging _ p)

  row-keeps :
      (r : Result (Option PendingDeploy)) (user : String) (pr : ℤ) (ident : Identity) (w : World K)
      → Kept w
      → Kept (approve_row env r user pr ident w)
  unfolding approve_row send
  row-keeps (err e) user pr ident w p = p
  row-keeps (ok none) user pr ident w p = p
  row-keeps (ok (some d)) user pr ident w p = found-keeps d pr ident w p

  verdict-keeps :
      (m : Membership) (user : String) (pr : ℤ) (w : World K)
      → Kept w
      → Kept (approve_verdict env m user pr w)
  unfolding approve_verdict send
  verdict-keeps member_error user pr w p = p
  verdict-keeps (membership false ident) user pr w p = p
  verdict-keeps (membership true ident) user pr w p =
      row-keeps (get env (config_key env pr) w) user pr ident w p

  parsed-keeps :
      (o : Option ℤ) (user : String) (w : World K) → Kept w → Kept (approve_parsed env o user w)
  unfolding approve_parsed
  parsed-keeps none user w p = p
  parsed-keeps (some pr) user w p =
      verdict-keeps (env.is_member user) user pr (remember env user w) p

  handle_approve-keeps :
      (user value : String) (w : World K) → Kept w → Kept (handle_approve env user value w)
  unfolding handle_approve
  handle_approve-keeps user value w p = parsed-keeps (atoi value) user w p

-- Where no two rows have one key, no two have one after a click on Approve.
handle_approve-UniqueKeys :
    {K : Type 0} (env : Env K) (user value : String) (w : World K)
    → UniqueKeys w.pending
    → UniqueKeys (handle_approve env user value w).pending
handle_approve-UniqueKeys env user value w u =
    handle_approve-keeps UniqueKeys delete-UniqueKeys
      (λ k state t. update-UniqueKeys k (λ d. record d { state = state }) t (λ d. refl)) env user
      value w u
