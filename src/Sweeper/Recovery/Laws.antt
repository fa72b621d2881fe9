-- ===== src/Sweeper/Recovery/Laws.antt =====
-- What the recovery touches, and what it leaves.
use deploy_bot.Prelude.{
  ℕ, String, ◌≡◌, refl, ◌∙◌, ap, Bool, true, false, ◌&&◌, none, some, List, [], ◌∷◌, ◌==◌, arith,
  some_of, if◌then◌else◌, some_of-select_and, sym, ℤ,
}
use deploy_bot.Store.Types.{Key, PendingDeploy, key_of, state_merging}
use deploy_bot.Store.Table.{find_row, has_key, UniqueKeys, find-delete, holds_of, some_of-select}
use deploy_bot.Store.Pending.{ok, err, get_all, delete, database}
use deploy_bot.Store.Locks.{release_lock, release}
use deploy_bot.World.{Env, World, Outcome, done, failed, send, pg_get_all, pg_delete}
use deploy_bot.Github.Retry.{retry_on_rate_limit}
use deploy_bot.Github.Retry.Laws.{retry_from-done}
use deploy_bot.Github.Merge.{merge_pr, merge_request, classify}
use deploy_bot.Sweeper.Expiry.Laws.{AllSucceed}
use deploy_bot.Github.Merge.Laws.{OnlyAsked-merge_pr}
use deploy_bot.Sweeper.Recovery.{
  recovered, recover_if, recover, recover_all, recover_from, recover_stuck,
}

abbrev pub is_merging : PendingDeploy → Bool
is_merging d = d.state == state_merging

-- The row is one that is stuck.
abbrev stuck_at : Key → PendingDeploy → Bool
stuck_at k d = is_merging d && has_key k d

module _ {K : Type 0} (env : Env K) where
  recovered-other :
      (k : Key) (d : PendingDeploy) (r : Outcome String × World K)
      → has_key k d ≡ false
      → find_row k (recovered env d r).pending ≡ find_row k r.1.pending
  unfolding recovered delete release_lock release send
  recovered-other k d (failed e, w) h = refl
  recovered-other k d (done sha, w) h = ground (arith, find-delete k (key_of d) w.pending)

  recovered-history :
      (d : PendingDeploy) (r : Outcome String × World K) → (recovered env d r).history ≡ r.1.history
  unfolding recovered delete release_lock release send
  recovered-history d (failed e, w) = refl
  recovered-history d (done sha, w) = ground arith

  recover_if-other :
      (b : Bool) (k : Key) (d : PendingDeploy) (w : World K)
      → (b && has_key k d) ≡ false
      → find_row k (recover_if env b d w).pending ≡ find_row k w.pending
  unfolding recover_if
  recover_if-other false k d w h = refl
  recover_if-other true k d w h =
      recovered-other k d (merge_pr env d.pr_number w) h
      ∙ ap (find_row k) (OnlyAsked-merge_pr env d.pr_number w).pending

  recover_if-history :
      (b : Bool) (d : PendingDeploy) (w : World K) → (recover_if env b d w).history ≡ w.history
  unfolding recover_if
  recover_if-history false d w = refl
  recover_if-history true d w =
      recovered-history d (merge_pr env d.pr_number w)
      ∙ (OnlyAsked-merge_pr env d.pr_number w).history

  recover_all-other :
      (k : Key) (ds : List PendingDeploy) (w : World K)
      → some_of (stuck_at k) ds ≡ false
      → find_row k (recover_all env ds w).pending ≡ find_row k w.pending
  unfolding recover_all recover some_of
  recover_all-other k [] w h = refl
  recover_all-other k (d ∷ ds) w h =
      recover_all-other k ds (recover env d w) (ground (arith, h))
      ∙ recover_if-other (is_merging d) k d w (ground (arith, h))

  recover_all-history :
      (ds : List PendingDeploy) (w : World K) → (recover_all env ds w).history ≡ w.history
  unfolding recover_all recover
  recover_all-history [] w = refl
  recover_all-history (d ∷ ds) w =
      recover_all-history ds (recover env d w) ∙ recover_if-history (is_merging d) d w

  -- Recovery changes no row that is not in the state `merging` and no entry of the history, when
  -- no two rows have one key, whatever fails.
  recover_stuck-keeps :
      (w : World K)
      → UniqueKeys w.pending
      → ((k : Key) (d : PendingDeploy)
          → find_row k w.pending ≡ some d
          → (d.state == state_merging) ≡ false
          → find_row k (recover_stuck env w).pending ≡ some d)
        × ((recover_stuck env w).history ≡ w.history)
  unfolding recover_stuck get_all
  recover_stuck-keeps w u = read (env.fails pg_get_all)
    where
      calm :
          (k : Key) (d : PendingDeploy)
          → find_row k w.pending ≡ some d
          → is_merging d ≡ false
          → some_of (stuck_at k) w.pending ≡ false
      calm k d h ne =
          sym (some_of-select_and is_merging (has_key k) w.pending)
          ∙ some_of-select k is_merging w.pending u
          ∙ rw h ne

      read :
          (b : Bool)
          → ((k : Key) (d : PendingDeploy)
              → find_row k w.pending ≡ some d
              → is_merging d ≡ false
              → find_row k (recover_from env (if b then err database else ok w.pending) w).pending
                ≡ some d)
            × ((recover_from env (if b then err database else ok w.pending) w).history ≡ w.history)
      read true = unfold recover_from in (λ k d h ne. h, refl)
      read false =
          unfold recover_from in
          (
            λ k d h ne. recover_all-other k w.pending w (calm k d h ne) ∙ h,
            recover_all-history w.pending w,
          )

  -- The merge request is granted whenever it is made.
  abbrev MergesAll : Type 0
  MergesAll = (pr : ℤ) (n : ℕ) → (sha : String) × (env.merge_api pr n ≡ done sha)

  merge_pr-granted :
      MergesAll → (pr : ℤ) (w : World K) → (sha : String) × ((merge_pr env pr w).0 ≡ done sha)
  unfolding merge_pr retry_on_rate_limit merge_request classify
  merge_pr-granted all pr w =
      let granted = all pr w.merge_calls in
      (
        granted.0,
        retry_from-done env (merge_request env pr) env.max_retries w granted.0
            (ap classify granted.1),
      )

  module _ (ok_all : AllSucceed env) (all : MergesAll) where
    recovered-gone :
        (k : Key) (d : PendingDeploy) (sha : String) (r : Outcome String × World K)
        → r.0 ≡ done sha
        → find_row k (recovered env d r).pending
          ≡ (if has_key k d then none else find_row k r.1.pending)
    unfolding recovered delete release_lock release send
    recovered-gone k d sha (failed e, w) h = cc
    recovered-gone k d sha (done x, w) h =
        ground (arith, ok_all (pg_delete (key_of d)), find-delete k (key_of d) w.pending)

    recover_if-gone :
        (b : Bool) (k : Key) (d : PendingDeploy) (w : World K)
        → find_row k (recover_if env b d w).pending
          ≡ (if b && has_key k d then none else find_row k w.pending)
    unfolding recover_if
    recover_if-gone false k d w = refl
    recover_if-gone true k d w =
        let granted = merge_pr-granted all d.pr_number w in
        recovered-gone k d granted.0 (merge_pr env d.pr_number w) granted.1
        ∙ ap (λ rows. if has_key k d then none else find_row k rows)
            (OnlyAsked-merge_pr env d.pr_number w).pending

    recover_all-gone :
        (k : Key) (ds : List PendingDeploy) (w : World K)
        → find_row k (recover_all env ds w).pending
          ≡ (if some_of (stuck_at k) ds then none else find_row k w.pending)
    unfolding recover_all recover some_of
    recover_all-gone k [] w = refl
    recover_all-gone k (d ∷ ds) w = ground (
      arith,
      recover_all-gone k ds (recover_if env (is_merging d) d w),
      recover_if-gone (is_merging d) k d w,
    )

    -- When GitHub grants every merge, no store operation fails and no two rows have one key, no row
    -- is left in the state `merging`: a row with a key is there afterwards exactly when it was
    -- there before and was not stuck.
    pub find_row-recover_stuck :
        (k : Key) (w : World K)
        → UniqueKeys w.pending
        → find_row k (recover_stuck env w).pending
          ≡ (if holds_of is_merging (find_row k w.pending) then none else find_row k w.pending)
    unfolding recover_stuck recover_from get_all
    find_row-recover_stuck k w u =
        let stuck =
          sym (some_of-select_and is_merging (has_key k) w.pending)
          ∙ some_of-select k is_merging w.pending u in
        rw (ok_all pg_get_all) (recover_all-gone k w.pending w ∙ rw stuck refl)
