-- ===== src/Store/Pending/Refine.antt =====
-- The contract of internal/store/store.go on single rows, and that the table implements it. The
-- contract is a map from keys to rows; the table is a list of rows, found by their key columns.
use mathlib.Core.Path.{fun_ext}
use mathlib.Core.Option
use deploy_bot.Prelude.{
  ℕ, String, ◌≡◌, refl, ◌∙◌, ap, Option, none, some, List, [], ◌∷◌, arith, if◌then◌else◌,
}
use deploy_bot.Store.Types.{Key, PendingDeploy, key_of, key_eq}
use deploy_bot.Store.Table.{find_row, find-upsert, find-update, find-delete}
use deploy_bot.Store.Pending.{
  Result, ok, err, database, pending_not_found, set, get, delete, set_slack_handle, update_state,
  normalized,
}
use deploy_bot.World.{
  Env, World, Op, pg_set, pg_get, pg_delete, pg_set_slack_handle, pg_update_state,
}

-- A call of the store about one row.
pub data Call : Type 0 where
  sets : PendingDeploy → ℕ → Call
  gets deletes : Key → Call
  sets_slack_handle : Key → String → String → Call
  updates_state : Key → String → Call

-- What the caller sees.
pub data Answer : Type 0 where
  finished : Result (Unit {0}) → Answer
  found : Result (Option PendingDeploy) → Answer

-- The abstract store.
abbrev Rows : Type 0
Rows = Key → Option PendingDeploy

pub abstract_rows : {K : Type 0} → World K → Rows
abstract_rows w k = find_row k w.pending

-- One entry of the map is changed.
abbrev at_key : Key → (Option PendingDeploy → Option PendingDeploy) → Rows → Rows
at_key k f rows j = if key_eq j k then f (rows j) else rows j

-- The statement of a call.
abbrev op_of : Call → Op
op_of (sets d ttl) = pg_set (key_of d)
op_of (gets k) = pg_get k
op_of (deletes k) = pg_delete k
op_of (sets_slack_handle k channel ts) = pg_set_slack_handle k
op_of (updates_state k state) = pg_update_state k state

module _ {K : Type 0} (env : Env K) where
  abbrev run_call : Call → World K → Answer × World K
  run_call (sets d ttl) w = let r = set env d ttl w in (finished r.0, r.1)
  run_call (gets k) w = (found (get env k w), w)
  run_call (deletes k) w = let r = delete env k w in (finished r.0, r.1)
  run_call (sets_slack_handle k channel ts) w =
      let r = set_slack_handle env k channel ts w in (finished r.0, r.1)
  run_call (updates_state k state) w = let r = update_state env k state w in (finished r.0, r.1)

  pub run_calls : List Call → World K → List Answer × World K
  run_calls [] w = ([], w)
  run_calls (c ∷ cs) w =
      let r = run_call c w in let rest = run_calls cs r.1 in (r.0 ∷ rest.0, rest.1)

  -- The contract: a call that fails changes nothing, one that succeeds changes one entry.
  abbrev refused : Call → Answer
  refused (gets k) = found (err database)
  refused c = finished (err database)

  abbrev granted : ℕ → Call → Rows → Answer × Rows
  granted now (sets d ttl) rows =
      (finished (ok tt), at_key (key_of d) (λ o. some (normalized now ttl d)) rows)
  granted now (gets k) rows = (found (ok (rows k)), rows)
  granted now (deletes k) rows = (finished (ok tt), at_key k (λ o. none) rows)
  granted now (sets_slack_handle k channel ts) rows = (
    finished (ok tt),
    at_key k
        (Option.map {A = PendingDeploy}
          (λ d. record d { slack_channel = channel; slack_message_ts = ts }))
        rows,
  )
  granted now (updates_state k state) rows = (
    finished (elim (rows k) [ none ↦ err (pending_not_found k.number) | some _ ↦ ok tt ]),
    at_key k (Option.map {A = PendingDeploy} (λ d. record d { state = state })) rows,
  )

  abbrev promised : ℕ → Call → Rows → Answer × Rows
  promised now c rows = if env.fails (op_of c) then (refused c, rows) else granted now c rows

  pub promised_all : ℕ → List Call → Rows → List Answer × Rows
  promised_all now [] rows = ([], rows)
  promised_all now (c ∷ cs) rows =
      let r = promised now c rows in let rest = promised_all now cs r.1 in (r.0 ∷ rest.0, rest.1)

  now-run_call : (c : Call) (w : World K) → (run_call c w).1.now ≡ w.now
  unfolding set delete set_slack_handle update_state
  now-run_call (sets d ttl) w = ground arith
  now-run_call (gets k) w = refl
  now-run_call (deletes k) w = ground arith
  now-run_call (sets_slack_handle k channel ts) w = ground arith
  now-run_call (updates_state k state) w = ground arith

  -- The answers agree.
  answer-run_call :
      (c : Call) (w : World K) → (run_call c w).0 ≡ (promised w.now c (abstract_rows w)).0
  unfolding set get delete set_slack_handle update_state abstract_rows
  answer-run_call (sets d ttl) w = ground arith
  answer-run_call (gets k) w = ground arith
  answer-run_call (deletes k) w = ground arith
  answer-run_call (sets_slack_handle k channel ts) w = ground arith
  answer-run_call (updates_state k state) w = ground arith

  -- The rows agree, key by key.
  rows-run_call :
      (c : Call) (w : World K) (j : Key)
      → abstract_rows (run_call c w).1 j ≡ (promised w.now c (abstract_rows w)).1 j
  unfolding set get delete set_slack_handle update_state abstract_rows
  rows-run_call (sets d ttl) w j = ground (arith, find-upsert j (normalized w.now ttl d) w.pending)
  rows-run_call (gets k) w j = ground arith
  rows-run_call (deletes k) w j = ground (arith, find-delete j k w.pending)
  rows-run_call (sets_slack_handle k channel ts) w j = ground (
    arith,
    find-update j k (λ d. record d { slack_channel = channel; slack_message_ts = ts }) w.pending
        (λ d. refl),
  )
  rows-run_call (updates_state k state) w j =
      ground (arith, find-update j k (λ d. record d { state = state }) w.pending (λ d. refl))

  -- The table refines the map: whatever calls are made, one after another, and whichever of their
  -- statements fail, the callers see the answers that the contract gives for the map that the table
  -- stands for, and the table stands for the map that the contract leaves.
  pub run_calls-promised_all :
      (cs : List Call) (w : World K)
      → ((run_calls cs w).0 ≡ (promised_all w.now cs (abstract_rows w)).0)
        × (abstract_rows (run_calls cs w).1 ≡ (promised_all w.now cs (abstract_rows w)).1)
  unfolding run_calls promised_all
  run_calls-promised_all [] w = (refl, refl)
  run_calls-promised_all (c ∷ cs) w =
      let ih = run_calls-promised_all cs (run_call c w).1 in
      let rest =
        ap (λ n. promised_all n cs (abstract_rows (run_call c w).1)) (now-run_call c w)
        ∙ ap (promised_all w.now cs) (fun_ext (rows-run_call c w)) in
      (cons_path (answer-run_call c w) (ih.0 ∙ ap (λ r. r.0) rest), ih.1 ∙ ap (λ r. r.1) rest)
    where
      cons_path : {a b : Answer} {s t : List Answer} → a ≡ b → s ≡ t → (a ∷ s) ≡ (b ∷ t)
      cons_path p q = cc
