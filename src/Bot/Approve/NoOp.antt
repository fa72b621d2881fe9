-- ===== src/Bot/Approve/NoOp.antt =====
-- An approval of a deploy that has already happened another way.
use deploy_bot.Prelude.{ℕ, ◌≤◌, ℤ, String, ◌≡◌, refl, ◌∙◌, false, true, none, eq_refl}
use deploy_bot.Config.{AppConfig}
use deploy_bot.Store.Types.{Key, PendingDeploy, key_eq}
use deploy_bot.Store.Table.{find_row, key_eq_refl}
use deploy_bot.Bot.Member.{remember}
use deploy_bot.World.{Env, World, Identity, done, pg_delete, redis_del}
use deploy_bot.Bot.Approve.{row_key, handle_approve}
use deploy_bot.Bot.Approve.Effects.{
  lock_of, lock_at, find-close_no_op_pr, history-close_no_op_pr, lock-close_no_op_pr,
}
use deploy_bot.Bot.Approve.Outcomes.{attempt, attempt-other, attempt-history, found-done}
use deploy_bot.Bot.Approve.Handler.{IsApprovable, reached}

module _ {K : Type 0} (env : Env K) (user value : String) (pr : ℤ) (ident : Identity)
    (d : PendingDeploy) (a : AppConfig) (w : World K) where
  -- A member approves a pending request of a configured app. When the rebase shows that the tag is
  -- already on the default branch, and neither the deletion nor Redis fails, the request is closed without a deploy: its row is gone and every other row unchanged,
  -- the history has no new entry, and the deploy lock is free.
  pub handle_approve-close_no_op_pr :
      IsApprovable env user value pr ident d a w
      → (attempt env d pr a (remember env user w)).0 ≡ done (record { sha = ""; no_op = true })
      → env.fails (pg_delete (row_key d pr)) ≡ false
      → env.fails (redis_del (lock_of env d)) ≡ false
      → let v = handle_approve env user value w in
        (find_row (row_key d pr) v.pending ≡ none)
        × ((k : Key)
            → key_eq k (row_key d pr) ≡ false
            → find_row k v.pending ≡ find_row k w.pending)
        × (v.history ≡ w.history)
        × ((t : ℕ)
            → (attempt env d pr a (remember env user w)).1.now ≤ t
            → lock_at env v t d.environment d.app ≡ none)
  handle_approve-close_no_op_pr h f del unlock =
      let u = (attempt env d pr a (remember env user w)).1 in
      rw
        (
          reached env user value pr ident d a w h,
          found-done env d pr a ident _ (remember env user w) h.configured f,
        )
        (
          find-close_no_op_pr env d pr (row_key d pr) u ∙ rw (key_eq_refl (row_key d pr), del) refl,
          λ k ne.
              find-close_no_op_pr env d pr k u
              ∙ rw ne (attempt-other env d pr a (remember env user w) k ne),
          history-close_no_op_pr env d pr u ∙ attempt-history env d pr a (remember env user w),
          λ t le.
              lock-close_no_op_pr env d pr d.environment d.app t u le
              ∙ rw (eq_refl (lock_of env d), unlock) refl,
        )
