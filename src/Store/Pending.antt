-- ===== src/Store/Pending.antt =====
pub mod Refine
pub mod Laws
-- internal/store/store.go: the operations on `pending_deploys`. An operation that fails in the
-- database changes nothing.
use deploy_bot.Prelude.{
  ℕ, ◌+◌, ℤ, String, Bool, ◌&&◌, Option, none, some, List, ◌==◌, eqb, leb, if◌then◌else◌, select,
  head?, sort_by,
}
use deploy_bot.Store.Types.{Key, PendingDeploy, key_of, state_pending}
use deploy_bot.Store.Table.{find_row, upsert_row, delete_row, update_row}
use deploy_bot.World.{
  Env, World, pg_set, pg_get, pg_delete, pg_set_slack_handle, pg_get_all, pg_get_expired,
  pg_update_state, pg_get_by_env_app,
}

pub data StoreError : Type 0 where
  database : StoreError
  pending_not_found : ℤ → StoreError

pub data Result {ℓ} (A : Type ℓ) : Type ℓ where
  ok : A → Result A
  err : StoreError → Result A

-- The record as `Set` writes it.
unfoldable pub normalized : ℕ → ℕ → PendingDeploy → PendingDeploy
normalized now ttl d = record d {
  expires_at = if eqb d.expires_at 0 then now + ttl else d.expires_at;
  requested_at = if eqb d.requested_at 0 then now else d.requested_at;
  state = if d.state == "" then state_pending else d.state;
}

abbrev pub is_expired : ℕ → PendingDeploy → Bool
is_expired now d = d.state == state_pending && leb d.expires_at now

abbrev is_for : String → String → PendingDeploy → Bool
is_for env app d = d.state == state_pending && d.environment == env && d.app == app

module _ {K : Type 0} (env : Env K) where
  -- Set
  unfoldable pub set : PendingDeploy → ℕ → World K → Result (Unit {0}) × World K
  unfolding normalized upsert_row
  set d ttl w =
      if env.fails (pg_set (key_of d))
      then (err database, w)
      else (ok tt, record w { pending = upsert_row (normalized w.now ttl d) w.pending })

  -- Get
  unfoldable pub get : Key → World K → Result (Option PendingDeploy)
  unfolding find_row
  get k w = if env.fails (pg_get k) then err database else ok (find_row k w.pending)

  -- Delete
  unfoldable pub delete : Key → World K → Result (Unit {0}) × World K
  unfolding delete_row
  delete k w =
      if env.fails (pg_delete k)
      then (err database, w)
      else (ok tt, record w { pending = delete_row k w.pending })

  -- SetSlackHandle
  unfoldable pub set_slack_handle : Key → String → String → World K → Result (Unit {0}) × World K
  unfolding update_row
  set_slack_handle k channel ts w =
      if env.fails (pg_set_slack_handle k) then (err database, w) else (
        ok tt,
        record w {
          pending =
              update_row k (λ d. record d { slack_channel = channel; slack_message_ts = ts })
                w.pending;
        },
      )

  -- UpdateState: `RowsAffected` is 0 exactly when no row has the key.
  unfoldable pub update_state : Key → String → World K → Result (Unit {0}) × World K
  unfolding update_row find_row
  update_state k state w = if env.fails (pg_update_state k state) then (err database, w) else (
    elim (find_row k w.pending) [ none ↦ err (pending_not_found k.number) | some _ ↦ ok tt ],
    record w { pending = update_row k (λ d. record d { state = state }) w.pending },
  )

  -- GetAll
  unfoldable pub get_all : World K → Result (List PendingDeploy)
  get_all w = if env.fails pg_get_all then err database else ok w.pending

  -- GetExpired, by `expires_at`
  unfoldable pub get_expired : World K → Result (List PendingDeploy)
  unfolding sort_by select
  get_expired w =
      if env.fails pg_get_expired
      then err database
      else ok (sort_by (λ a b. leb a.expires_at b.expires_at) (select (is_expired w.now) w.pending))

  -- GetByEnvApp: the newest request
  pub get_by_env_app : String → String → World K → Result (Option PendingDeploy)
  unfolding sort_by select
  get_by_env_app e app w =
      if env.fails (pg_get_by_env_app e app)
      then err database
      else ok (
          head?
            (sort_by (λ a b. leb b.requested_at a.requested_at) (select (is_for e app) w.pending)))
