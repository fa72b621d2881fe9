-- ===== src/Store/Pending/Laws.antt =====
-- What each statement on `pending_deploys` leaves behind.
use deploy_bot.Prelude.{ℕ, String, ◌≡◌, refl, ◌∙◌, ap, false, some, arith, if◌then◌else◌}
use mathlib.Core.Option
use deploy_bot.Store.Types.{Key, PendingDeploy, key_eq, key_of}
use deploy_bot.Store.Table.{find_row, find-upsert, find-update, key_eq_refl, update_row-update_row}
use deploy_bot.Store.Pending.{set, get, ok, update_state, set_slack_handle, normalized}
use deploy_bot.World.{Env, World, pg_set, pg_get, pg_set_slack_handle}

-- Only the rows may differ.
pub record OnlyRows {K : Type 0} (v w : World K) : Type 0 where
  pub history : v.history ≡ w.history
  pub keys : v.keys ≡ w.keys
  pub now : v.now ≡ w.now

module _ {K : Type 0} (env : Env K) where
  pub find-set :
      (k : Key) (d : PendingDeploy) (ttl : ℕ) (w : World K)
      → env.fails (pg_set (key_of d)) ≡ false
      → find_row k (set env d ttl w).1.pending
        ≡ (if key_eq k (key_of d) then some (normalized w.now ttl d) else find_row k w.pending)
  unfolding set normalized
  find-set k d ttl w h = rw h (find-upsert k (normalized w.now ttl d) w.pending)

  pub set-OnlyRows : (d : PendingDeploy) (ttl : ℕ) (w : World K) → OnlyRows (set env d ttl w).1 w
  unfolding set
  set-OnlyRows d ttl w = ground arith

  pub find-set_slack_handle :
      (j k : Key) (channel ts : String) (w : World K)
      → env.fails (pg_set_slack_handle k) ≡ false
      → find_row j (set_slack_handle env k channel ts w).1.pending ≡ (
          if key_eq j k
          then Option.map {A = PendingDeploy}
              (λ d. record d { slack_channel = channel; slack_message_ts = ts })
              (find_row j w.pending)
          else find_row j w.pending)
  unfolding set_slack_handle
  find-set_slack_handle j k channel ts w h = rw h (
      find-update j k (λ d. record d { slack_channel = channel; slack_message_ts = ts }) w.pending
        (λ d. refl))

  pub set_slack_handle-OnlyRows :
      (k : Key) (channel ts : String) (w : World K)
      → OnlyRows (set_slack_handle env k channel ts w).1 w
  unfolding set_slack_handle
  set_slack_handle-OnlyRows k channel ts w = ground arith

  -- Written or not, the row changes no other one.
  pub find-set_other :
      (k : Key) (d : PendingDeploy) (ttl : ℕ) (w : World K)
      → key_eq k (key_of d) ≡ false
      → find_row k (set env d ttl w).1.pending ≡ find_row k w.pending
  unfolding set normalized
  find-set_other k d ttl w h = ground (arith, find-upsert k (normalized w.now ttl d) w.pending)

  -- What was written is read back, with the columns that `Set` fills in, when both statements
  -- succeed.
  pub get-set :
      (d : PendingDeploy) (ttl : ℕ) (w : World K)
      → env.fails (pg_set (key_of d)) ≡ false
      → env.fails (pg_get (key_of d)) ≡ false
      → get env (key_of d) (set env d ttl w).1 ≡ ok (some (normalized w.now ttl d))
  unfolding get
  get-set d ttl w written readable =
      rw readable (ap ok (find-set (key_of d) d ttl w written ∙ rw (key_eq_refl (key_of d)) refl))

  -- The handle of the approval request and a change of state may reach the database in either
  -- order: the world is the same afterwards, also when one of the statements fails.
  set_slack_handle-update_state :
      (k : Key) (channel ts state : String) (w : World K)
      → (set_slack_handle env k channel ts (update_state env k state w).1).1
        ≡ (update_state env k state (set_slack_handle env k channel ts w).1).1
  unfolding set_slack_handle update_state
  set_slack_handle-update_state k channel ts state w = ground (
    arith,
    update_row-update_row k (λ d. record d { slack_channel = channel; slack_message_ts = ts })
        (λ d. record d { state = state }) w.pending (λ d. refl) (λ d. refl) (λ d. refl),
  )
