-- ===== src/Retention/Laws.antt =====
-- The purge ends, deletes nothing else, and counts what it deletes.
use deploy_bot.Prelude.{
  ℕ, zero, suc, ◌+◌, ◌-◌, ◌*◌, ◌<◌, ◌≡◌, refl, ◌∙◌, ap, Bool, true, false, not, List, [], ◌∷◌,
  select, length, ltb, eqb, if◌then◌else◌, arith, String,
}
use deploy_bot.Store.Types.{HistoryEntry}
use deploy_bot.Retention.{
  Database, Purge, complete, batch_failed, delete_batch_size, is_old, old_rows, kept_rows,
  delete_batched, purge_once, TypeCount, count_type, group_by_type, total_of,
}

-- A row is counted on one side or on the other.
length-select :
    (p : HistoryEntry → Bool) (rows : List HistoryEntry)
    → length (select p rows) + length (select (λ e. not (p e)) rows) ≡ length rows
unfolding select
length-select p [] = refl
length-select p (e ∷ rows) = ground (arith, length-select p rows)

total-count_type : (t : String) (cs : List TypeCount) → total_of (count_type t cs) ≡ 1 + total_of cs
unfolding total_of count_type
total-count_type t [] = refl
total-count_type t (c ∷ cs) = ground (arith, total-count_type t cs)

-- The count before the purge is the number of the old rows.
total-group_by_type : (es : List HistoryEntry) → total_of (group_by_type es) ≡ length es
unfolding total_of group_by_type
total-group_by_type [] = refl
total-group_by_type (e ∷ es) =
    omega (arith, total-count_type e.event_type (group_by_type es), total-group_by_type es)

module _ (db : Database) (exec_fails : ℕ → Bool) (now retention : ℕ) where
  -- The purge ended. Where no statement failed no old row is left; where one did, some may be. It
  -- counted the old rows that went, and no other row went.
  pub data Ended (before : ℕ) (rows : List HistoryEntry) : Purge → Type 0 where
    purged :
        {total : ℕ} {left : List HistoryEntry}
        → length (old_rows now retention left) ≡ 0
        → total ≡ before + length (old_rows now retention rows)
        → kept_rows now retention left ≡ kept_rows now retention rows
        → Ended before rows (complete total left)
    interrupted :
        {total : ℕ} {left : List HistoryEntry}
        → (i : ℕ) × (exec_fails i ≡ true)
        → total + length (old_rows now retention left)
          ≡ before + length (old_rows now retention rows)
        → kept_rows now retention left ≡ kept_rows now retention rows
        → Ended before rows (batch_failed total left)

  abbrev left_by : List HistoryEntry → List HistoryEntry
  left_by = db.delete_where (is_old now retention) delete_batch_size

  abbrev gone : List HistoryEntry → ℕ
  gone rows = length rows - length (left_by rows)

  -- One batch takes as many of the old rows as its limit allows.
  affected :
      (rows : List HistoryEntry)
      → (gone rows + length (old_rows now retention (left_by rows))
          ≡ length (old_rows now retention rows))
        × (length (old_rows now retention (left_by rows))
            ≡ length (old_rows now retention rows) - delete_batch_size)
  affected rows = (
    omega (
      arith,
      length-select (is_old now retention) rows,
      length-select (is_old now retention) (left_by rows),
      ap length (db.others_stay (is_old now retention) delete_batch_size rows),
      db.matches_left (is_old now retention) delete_batch_size rows,
    ),
    db.matches_left (is_old now retention) delete_batch_size rows,
  )

  -- What a further batch adds.
  Ended-batch :
      (before : ℕ) (rows : List HistoryEntry) (p : Purge)
      → Ended (before + gone rows) (left_by rows) p
      → Ended before rows p
  Ended-batch before rows _ (purged none_left counted kept) =
      purged none_left (omega (arith, counted, affected rows))
        (kept ∙ db.others_stay (is_old now retention) delete_batch_size rows)
  Ended-batch before rows _ (interrupted at counted kept) =
      interrupted at (omega (arith, counted, affected rows))
        (kept ∙ db.others_stay (is_old now retention) delete_batch_size rows)

  -- With fuel for one batch more than the old rows fill, deleteBatched ends: it deletes and counts
  -- every old row, or what the batches before the one that failed took, and no other row.
  pub delete_batched-Ended :
      (fuel i before : ℕ) (rows : List HistoryEntry)
      → length (old_rows now retention rows) < delete_batch_size * fuel
      → Ended before rows (delete_batched db exec_fails now retention fuel i before rows)
  unfolding delete_batched
  delete_batched-Ended zero i before rows h = absurd (omega (arith, h))
  delete_batched-Ended (suc fuel) i before rows h =
      stopped (exec_fails i) refl
        (delete_batched-Ended fuel (i + 1) (before + gone rows) (left_by rows))
    where
      again : Purge
      again =
          delete_batched db exec_fails now retention fuel (i + 1) (before + gone rows)
            (left_by rows)

      Rest : Type 0
      Rest =
          length (old_rows now retention (left_by rows)) < delete_batch_size * fuel
          → Ended (before + gone rows) (left_by rows) again

      counted :
          (b : Bool)
          → ltb (gone rows) delete_batch_size ≡ b
          → Rest
          → Ended before rows (if b then complete (before + gone rows) (left_by rows) else again)
      counted true few rest =
          purged (ground (arith, few, affected rows)) (ground (arith, few, affected rows))
            (db.others_stay (is_old now retention) delete_batch_size rows)
      counted false many rest =
          Ended-batch before rows again (rest (ground (arith, many, affected rows, h)))

      stopped :
          (b : Bool)
          → exec_fails i ≡ b
          → Rest
          → Ended before rows (
              if b
              then batch_failed before rows
              else if ltb (gone rows) delete_batch_size
              then complete (before + gone rows) (left_by rows)
              else again)
      stopped true fails rest = interrupted (i, fails) refl refl
      stopped false works rest = counted (ltb (gone rows) delete_batch_size) refl rest

  -- A pass without failures leaves exactly the rows that are not old, and counts the old ones.
  pub purge_once-Ended :
      (rows : List HistoryEntry) (fuel : ℕ)
      → length (old_rows now retention rows) < delete_batch_size * fuel
      → Ended 0 rows (purge_once db exec_fails now retention false fuel rows)
  unfolding purge_once
  purge_once-Ended rows fuel h =
      counted (eqb (total_of (group_by_type (old_rows now retention rows))) 0) refl
    where
      counted :
          (b : Bool)
          → eqb (total_of (group_by_type (old_rows now retention rows))) 0 ≡ b
          → Ended 0 rows (
              if b
              then complete 0 rows
              else delete_batched db exec_fails now retention fuel 0 0 rows)
      counted true e =
          let none_old : length (old_rows now retention rows) ≡ 0 =
            ground (arith, e, total-group_by_type (old_rows now retention rows)) in
          purged none_old (omega (arith, none_old)) refl
      counted false e = delete_batched-Ended fuel 0 0 rows h
