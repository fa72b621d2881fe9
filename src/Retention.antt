-- ===== src/Retention.antt =====
pub mod Laws
-- internal/store/postgres/retention.go: the purge of old history rows, in batches. Which rows the
-- subquery of a batch picks, having a LIMIT and no ORDER BY, is the database's choice.
use deploy_bot.Prelude.{
  ℕ, zero, suc, ◌+◌, ◌-◌, ◌≡◌, ◌==◌, String, Bool, true, false, not, List, [], ◌∷◌, select, length,
  ltb, eqb, if◌then◌else◌,
}
use deploy_bot.Store.Types.{HistoryEntry}

abbrev pub delete_batch_size : ℕ
delete_batch_size = 1_000

-- completed_at < now - retention
abbrev pub is_old : ℕ → ℕ → HistoryEntry → Bool
is_old now retention e = ltb (e.completed_at + retention) now

abbrev pub old_rows : ℕ → ℕ → List HistoryEntry → List HistoryEntry
old_rows now retention = select (is_old now retention)

abbrev pub kept_rows : ℕ → ℕ → List HistoryEntry → List HistoryEntry
kept_rows now retention = select (λ e. not (is_old now retention e))

abbrev pub least : ℕ → ℕ → ℕ
least a b = if ltb a b then a else b

-- DELETE FROM history WHERE id IN (SELECT id FROM history WHERE … LIMIT n)
pub record Database : Type 0 where
  pub delete_where : (HistoryEntry → Bool) → ℕ → List HistoryEntry → List HistoryEntry
  -- No other row goes, and of those that match as many go as the limit allows.
  pub others_stay :
      (p : HistoryEntry → Bool) (n : ℕ) (rows : List HistoryEntry)
      → select (λ e. not (p e)) (delete_where p n rows) ≡ select (λ e. not (p e)) rows
  pub matches_left :
      (p : HistoryEntry → Bool) (n : ℕ) (rows : List HistoryEntry)
      → length (select p (delete_where p n rows)) ≡ length (select p rows) - n

-- The counts of `GROUP BY event_type`.
pub record TypeCount : Type 0 where
  pub event_type : String
  pub count : ℕ

pub count_type : String → List TypeCount → List TypeCount
count_type t [] = record { event_type = t; count = 1 } ∷ []
count_type t (c ∷ cs) =
    if c.event_type == t then record c { count = c.count + 1 } ∷ cs else c ∷ count_type t cs

pub group_by_type : List HistoryEntry → List TypeCount
unfolding count_type
group_by_type [] = []
group_by_type (e ∷ es) = count_type e.event_type (group_by_type es)

-- The sum over the rows of the answer, which the scan of preflightCount computes.
pub total_of : List TypeCount → ℕ
total_of [] = 0
total_of (c ∷ cs) = c.count + total_of cs

-- How deleteBatched ends: its count, and the table it leaves.
pub data Purge : Type 0 where
  complete : ℕ → List HistoryEntry → Purge
  batch_failed : ℕ → List HistoryEntry → Purge
  out_of_fuel : Purge

module _ (db : Database) (exec_fails : ℕ → Bool) (now retention : ℕ) where
  -- deleteBatched. `i` counts the batches; RowsAffected is the number of rows that went.
  pub delete_batched : ℕ → ℕ → ℕ → List HistoryEntry → Purge
  delete_batched zero i total rows = out_of_fuel
  delete_batched (suc fuel) i total rows =
      let left = db.delete_where (is_old now retention) delete_batch_size rows in
      let n = length rows - length left in
      let again = delete_batched fuel (i + 1) (total + n) left in
      if exec_fails i
      then batch_failed total rows
      else if ltb n delete_batch_size
      then complete (total + n) left
      else again

  -- What RunOnce leaves of the table: the purge runs when the count finds something.
  unfoldable pub purge_once : Bool → ℕ → List HistoryEntry → Purge
  unfolding total_of group_by_type select delete_batched
  purge_once preflight_fails fuel rows =
      let purge = delete_batched fuel 0 0 rows in
      if preflight_fails
      then batch_failed 0 rows
      else if eqb (total_of (group_by_type (old_rows now retention rows))) 0
      then complete 0 rows
      else purge
