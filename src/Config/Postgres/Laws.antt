-- ===== src/Config/Postgres/Laws.antt =====
-- The floor on the age of what is purged.
use deploy_bot.Prelude.Int.{ℤ, pos, negsuc}
use deploy_bot.Prelude.{
  ℕ, ◌≤◌, ◌+◌, ◌*◌, ◌<◌, String, ◌≡◌, refl, sym, ◌∙◌, ap, Bool, true, false, Option, none, some,
  List, [], ◌∷◌, ◌==◌, leb, select, length, if◌then◌else◌, arith,
}
use deploy_bot.Store.Types.{HistoryEntry}
use deploy_bot.Retention.{
  Database, Purge, complete, batch_failed, out_of_fuel, delete_batch_size, old_rows, kept_rows,
  purge_once,
}
use deploy_bot.Retention.Laws.{Ended, purged, interrupted, purge_once-Ended}
use deploy_bot.Config.Postgres.{
  PostgresConfig, min_retention_history, default_retention_history, parsed_retention, set_retention,
  check_retention, validate_structured, history_retention_duration,
}

module _ (parse_duration : String → Option ℤ) where
  check_retention-floor :
      (p : PostgresConfig)
      → min_retention_history ≤ (check_retention parse_duration p).1.history_retention
  unfolding check_retention
  check_retention-floor p = named (p.retention_history == "")
    where
      allowed :
          (o : Option ℤ)
          → min_retention_history
            ≤ (set_retention parse_duration
                (parsed_retention parse_duration o)
                p).1.history_retention
      allowed none = omega arith
      allowed (some (pos n)) = ground arith
      allowed (some (negsuc n)) = omega arith

      named :
          (b : Bool)
          → min_retention_history
            ≤ (if b
                then ([], record p { history_retention = default_retention_history })
                else set_retention parse_duration
                    (parsed_retention parse_duration (parse_duration p.retention_history))
                    p).1.history_retention
      named true = omega arith
      named false = allowed (parse_duration p.retention_history)

  -- What a validated configuration answers is never below the floor, whatever its text says.
  history_retention_duration-floor :
      (p : PostgresConfig)
      → min_retention_history ≤ history_retention_duration (validate_structured parse_duration p).1
  unfolding history_retention_duration validate_structured
  history_retention_duration-floor p = ground (arith, check_retention-floor p)

-- A row that is not older than the floor.
abbrev pub is_young : ℕ → HistoryEntry → Bool
is_young now e = leb now (e.completed_at + min_retention_history)

abbrev pub young_rows : ℕ → List HistoryEntry → List HistoryEntry
young_rows now = select (is_young now)

-- A young row is kept.
young-kept :
    (now retention : ℕ) (rows : List HistoryEntry)
    → min_retention_history ≤ retention
    → young_rows now (kept_rows now retention rows) ≡ young_rows now rows
unfolding select
young-kept now retention [] h = refl
young-kept now retention (e ∷ rows) h = ground (arith, young-kept now retention rows h, h)

-- The rows that a purge leaves; without fuel there are none.
abbrev pub left_rows : Purge → List HistoryEntry
left_rows (complete total left) = left
left_rows (batch_failed total left) = left
left_rows out_of_fuel = []

module _ (db : Database) (exec_fails : ℕ → Bool) (now retention : ℕ) where
  left-kept :
      (before : ℕ) (rows : List HistoryEntry) (p : Purge)
      → Ended db exec_fails now retention before rows p
      → kept_rows now retention (left_rows p) ≡ kept_rows now retention rows
  left-kept before rows _ (purged none_left counted kept) = kept
  left-kept before rows _ (interrupted at counted kept) = kept

-- With the retention that a validated configuration answers, and fuel for the old rows, a pass
-- purges no row of the last 390 days, whichever of its statements fail, the count included.
pub purge_once-young_rows :
    (parse_duration : String → Option ℤ) (p : PostgresConfig) (db : Database)
    (exec_fails : ℕ → Bool) (now : ℕ) (preflight_fails : Bool) (fuel : ℕ) (rows : List HistoryEntry)
    → let retention = history_retention_duration (validate_structured parse_duration p).1 in
      length (old_rows now retention rows) < delete_batch_size * fuel
      → young_rows now
          (left_rows (purge_once db exec_fails now retention preflight_fails fuel rows))
        ≡ young_rows now rows
purge_once-young_rows parse_duration p db exec_fails now true fuel rows enough =
    unfold purge_once in refl
purge_once-young_rows parse_duration p db exec_fails now false fuel rows enough =
    let retention = history_retention_duration (validate_structured parse_duration p).1 in
    let floor = history_retention_duration-floor parse_duration p in
    let left = left_rows (purge_once db exec_fails now retention false fuel rows) in
    let kept =
      left-kept db exec_fails now retention 0 rows
        (purge_once db exec_fails now retention false fuel rows)
        (purge_once-Ended db exec_fails now retention rows fuel enough) in
    sym (young-kept now retention left floor)
    ∙ ap (young_rows now) kept
    ∙ young-kept now retention rows floor
