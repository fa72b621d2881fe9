-- ===== src/Bot/Approve/Outcomes.antt =====
-- What a member's approval of a pending request leads to, for each outcome of the merge.
use deploy_bot.Prelude.{
  ℕ, ◌≤◌, ℤ, String, ◌≡◌, refl, ◌≢◌, ◌∙◌, ap, false, none, some, [], ◌∷◌, ◌++◌, arith,
  if◌then◌else◌, eq_refl,
}
use deploy_bot.Config.{AppConfig, app_by_name}
use deploy_bot.Store.Types.{
  Key, PendingDeploy, HistoryEntry, history_from_pending, key_eq, state_pending, state_merging,
}
use deploy_bot.Store.Table.{find_row, key_eq_refl, find-update}
use deploy_bot.Store.Pending.{update_state}
use deploy_bot.Bot.Member.{remember}
use deploy_bot.Store.History.{stored_entry}
use deploy_bot.World.{
  Env, World, Identity, GithubError, Outcome, done, failed, head_modified, replace_buttons, send,
  pg_delete, pg_push_history, pg_update_state, redis_del, merge_conflict,
}
use deploy_bot.Github.Merge.Laws.{OnlyAsked}
use deploy_bot.Bot.Merge.{MergeResult, merge_with_retry}
use deploy_bot.Bot.Merge.Laws.{OnlyAsked-merge_with_retry}
use deploy_bot.Bot.Approve.{
  row_key, merge_params, approve_found, approve_configured, approve_outcome, approve_finish,
  merge_refused, close_no_op_pr,
}
use deploy_bot.Bot.Approve.Effects.{
  lock_of, lock_at, find-approve_finish, history-approve_finish, lock-approve_finish,
  now-approve_finish, find-update_state, update_state-elsewhere, merge_refused-is_reset,
}

module _ {K : Type 0} (env : Env K) (d : PendingDeploy) (pr : ℤ) where
  -- The world in which the merge is attempted: the row is marked as merging.
  abbrev marked : World K → World K
  marked w = (update_state env (row_key d pr) state_merging (send (replace_buttons "Approved") w)).1

  -- The merge attempt and the world after it.
  abbrev pub attempt : AppConfig → World K → Outcome MergeResult × World K
  attempt a w = merge_with_retry env pr (merge_params d a) (marked w)

  marked-elsewhere :
      (w : World K)
      → ((marked w).history ≡ w.history) × ((marked w).keys ≡ w.keys) × ((marked w).now ≡ w.now)
  marked-elsewhere w = unfold send in update_state-elsewhere env (row_key d pr) state_merging _

  marked-other :
      (k : Key) (w : World K)
      → key_eq k (row_key d pr) ≡ false
      → find_row k (marked w).pending ≡ find_row k w.pending
  unfolding update_state send
  marked-other k w h = ground (
    arith,
    find-update k (row_key d pr) (λ r. record r { state = state_merging }) w.pending (λ r. refl),
  )

  pub found-outcome :
      (a : AppConfig) (ident : Identity) (w : World K)
      → app_by_name env.cfg d.app ≡ some a
      → approve_found env d pr ident w ≡ approve_outcome env d pr ident (attempt a w)
  unfolding approve_found approve_configured
  found-outcome a ident w e = rw e

  pub found-done :
      (a : AppConfig) (ident : Identity) (r : MergeResult) (w : World K)
      → app_by_name env.cfg d.app ≡ some a
      → (attempt a w).0 ≡ done r
      → approve_found env d pr ident w ≡ (
          if r.no_op
          then close_no_op_pr env d pr (attempt a w).1
          else approve_finish env d pr ident r.sha (attempt a w).1)
  unfolding approve_outcome
  found-done a ident r w e f = found-outcome a ident w e ∙ rw f

  module _ (a : AppConfig) (w : World K) where
    asked : OnlyAsked (attempt a w).1 (marked w)
    asked = OnlyAsked-merge_with_retry env pr (merge_params d a) (marked w)

    pub attempt-other :
        (k : Key)
        → key_eq k (row_key d pr) ≡ false
        → find_row k (attempt a w).1.pending ≡ find_row k w.pending
    attempt-other k h = ap (find_row k) asked.pending ∙ marked-other k w h

    -- The row as the merge attempt leaves it.
    pub attempt-row :
        find_row (row_key d pr) w.pending ≡ some d
        → env.fails (pg_update_state (row_key d pr) state_merging) ≡ false
        → find_row (row_key d pr) (attempt a w).1.pending
          ≡ some (record d { state = state_merging })
    unfolding send
    attempt-row row mark =
        ap (find_row (row_key d pr)) asked.pending
        ∙ find-update_state env (row_key d pr) (row_key d pr) state_merging _ mark
        ∙ rw (key_eq_refl (row_key d pr), row)

    pub attempt-history : (attempt a w).1.history ≡ w.history
    attempt-history = asked.history ∙ (marked-elsewhere w).0

    pub attempt-keys : (attempt a w).1.keys ≡ w.keys
    attempt-keys = asked.keys ∙ (marked-elsewhere w).1

  -- What completing a deploy means: its row is gone and no other row changed, the history has
  -- one more entry, and its deploy lock is free from then on.
  pub record IsCompleted (entry : HistoryEntry) (v w : World K) : Type 0 where
    pub removed : find_row (row_key d pr) v.pending ≡ none
    pub others :
        (k : Key) → key_eq k (row_key d pr) ≡ false → find_row k v.pending ≡ find_row k w.pending
    pub recorded : v.history ≡ w.history ++ entry ∷ []
    pub unlocked : (t : ℕ) → v.now ≤ t → lock_at env v t d.environment d.app ≡ none

  pub IsCompleted-remember :
      (user : String) {entry : HistoryEntry} {v w : World K}
      → IsCompleted entry v (remember env user w)
      → IsCompleted entry v w
  IsCompleted-remember user c = record {
    removed = c.removed;
    others = c.others;
    recorded = c.recorded;
    unlocked = c.unlocked;
  }

  -- The entry of an approval that was merged as `sha` at the time `now`.
  abbrev pub approved_entry : ℕ → String → HistoryEntry
  approved_entry now sha =
      stored_entry (record (history_from_pending now d "approved") { gitops_commit_sha = sha })

  pub approve_found-merged :
      (a : AppConfig) (ident : Identity) (sha : String) (w : World K)
      → app_by_name env.cfg d.app ≡ some a
      → (attempt a w).0 ≡ done (record { sha = sha; no_op = false })
      → env.fails (pg_delete (row_key d pr)) ≡ false
      → env.fails (pg_push_history d.pr_number) ≡ false
      → env.fails (redis_del (lock_of env d)) ≡ false
      → IsCompleted (approved_entry (attempt a w).1.now sha) (approve_found env d pr ident w) w
  approve_found-merged a ident sha w e f del push unlock = rw (found-done a ident _ w e f) (record {
    removed =
        find-approve_finish env d pr ident sha (row_key d pr) _
        ∙ rw (key_eq_refl (row_key d pr), del);
    others = λ k h. find-approve_finish env d pr ident sha k _ ∙ rw h (attempt-other a w k h);
    recorded =
        history-approve_finish env d pr ident sha _ push
        ∙ ap (λ h. h ++ approved_entry (attempt a w).1.now sha ∷ []) (attempt-history a w);
    unlocked = λ t h.
        lock-approve_finish env d pr ident sha d.environment d.app t _ (rw now-approve_finish at h)
        ∙ rw (eq_refl (lock_of env d), unlock);
  })

  -- The request is open again: its row is back in the state `pending`, and nothing else that the
  -- bot stores changed.
  pub record IsReopened (v w : World K) : Type 0 where
    pub reset : find_row (row_key d pr) v.pending ≡ some (record d { state = state_pending })
    pub others :
        (k : Key) → key_eq k (row_key d pr) ≡ false → find_row k v.pending ≡ find_row k w.pending
    pub history : v.history ≡ w.history
    pub keys : v.keys ≡ w.keys

  pub IsReopened-remember :
      (user : String) {v w : World K} → IsReopened v (remember env user w) → IsReopened v w
  IsReopened-remember user r = record {
    reset = r.reset;
    others = r.others;
    history = r.history;
    keys = r.keys;
  }

  refused-outcome :
      (ident : Identity) (e : GithubError) (w : World K)
      → e ≢ head_modified
      → approve_outcome env d pr ident (failed e, w) ≡ merge_refused env d pr e w
  unfolding approve_outcome
  refused-outcome ident head_modified w h = absurd (h refl)
  refused-outcome ident merge_conflict w h = refl
  refused-outcome ident e w h = refl

  found-refused :
      (a : AppConfig) (ident : Identity) (e : GithubError) (w : World K)
      → app_by_name env.cfg d.app ≡ some a
      → (attempt a w).0 ≡ failed e
      → e ≢ head_modified
      → approve_found env d pr ident w ≡ merge_refused env d pr e (attempt a w).1
  found-refused a ident e w known f h =
      found-outcome a ident w known
      ∙ ap (λ o. approve_outcome env d pr ident (o, (attempt a w).1)) f
      ∙ refused-outcome ident e (attempt a w).1 h

  pub approve_found-IsReopened :
      (a : AppConfig) (ident : Identity) (e : GithubError) (w : World K)
      → find_row (row_key d pr) w.pending ≡ some d
      → app_by_name env.cfg d.app ≡ some a
      → (attempt a w).0 ≡ failed e
      → e ≢ head_modified
      → env.fails (pg_update_state (row_key d pr) state_merging) ≡ false
      → env.fails (pg_update_state (row_key d pr) state_pending) ≡ false
      → IsReopened (approve_found env d pr ident w) w
  approve_found-IsReopened a ident e w row known f h mark reset =
      let v = (attempt a w).1 in
      let same = merge_refused-is_reset env d pr e v in
      let elsewhere = update_state-elsewhere env (row_key d pr) state_pending v in
      rw (found-refused a ident e w known f h) (record {
        reset =
            ap (find_row (row_key d pr)) same.pending
            ∙ find-update_state env (row_key d pr) (row_key d pr) state_pending v reset
            ∙ rw (key_eq_refl (row_key d pr), attempt-row a w row mark);
        others = λ k ne.
            ap (find_row k) same.pending
            ∙ find-update_state env k (row_key d pr) state_pending v reset
            ∙ rw ne (attempt-other a w k ne);
        history = same.history ∙ elsewhere.0 ∙ attempt-history a w;
        keys = same.keys ∙ elsewhere.1 ∙ attempt-keys a w;
      })
