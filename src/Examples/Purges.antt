-- ===== src/Examples/Purges.antt =====
-- A purge of the history, on a database that takes the first rows.
use deploy_bot.Prelude.{
  none, ℕ, zero, suc, ◌-◌, pos, ◌≡◌, refl, Bool, false, not, List, [], ◌∷◌, arith, select, length,
  if◌then◌else◌,
}
use deploy_bot.Store.Types.{HistoryEntry}
use deploy_bot.Config.Postgres.{PostgresConfig, validate_structured, history_retention_duration}
use deploy_bot.Config.Postgres.Laws.{young_rows, left_rows, purge_once-young_rows}
use deploy_bot.Retention.{Database, complete, delete_batched, purge_once}
use deploy_bot.Retention.Laws.{Ended, delete_batched-Ended, purge_once-Ended}

abbrev pub delete_first : (HistoryEntry → Bool) → ℕ → List HistoryEntry → List HistoryEntry
delete_first p zero rows = rows
delete_first p (suc n) [] = []
delete_first p (suc n) (e ∷ rows) =
    if p e then delete_first p n rows else e ∷ delete_first p (suc n) rows

pub delete_first-others :
    (p : HistoryEntry → Bool) (n : ℕ) (rows : List HistoryEntry)
    → select (λ e. not (p e)) (delete_first p n rows) ≡ select (λ e. not (p e)) rows
unfolding select
delete_first-others p zero rows = refl
delete_first-others p (suc n) [] = refl
delete_first-others p (suc n) (e ∷ rows) =
    ground (arith, delete_first-others p n rows, delete_first-others p (suc n) rows)

pub delete_first-matches :
    (p : HistoryEntry → Bool) (n : ℕ) (rows : List HistoryEntry)
    → length (select p (delete_first p n rows)) ≡ length (select p rows) - n
unfolding select
delete_first-matches p zero rows = omega arith
delete_first-matches p (suc n) [] = omega arith
delete_first-matches p (suc n) (e ∷ rows) =
    ground (arith, delete_first-matches p n rows, delete_first-matches p (suc n) rows)

abbrev pub table : Database
table = record {
  delete_where = delete_first;
  others_stay = delete_first-others;
  matches_left = delete_first-matches;
}

abbrev entry : ℕ → HistoryEntry
entry at = record {
  github_org = "";
  github_repo = "";
  event_type = "approved";
  app = "shop-dev";
  environment = "dev";
  tag = "v1";
  pr_number = pos 7;
  pr_url = "";
  approver_id = "";
  requester_id = "U2";
  completed_at = at;
  gitops_commit_sha = "abc";
  slack_channel = "";
  slack_message_ts = "";
}

abbrev rows : List HistoryEntry
rows = entry 10 ∷ entry 900 ∷ entry 20 ∷ []

purge_once_test : purge_once table (λ i. false) 1_000 500 false 1 rows ≡ complete 2 (entry 900 ∷ [])
unfolding purge_once
purge_once_test = refl

delete_batched-Ended_example :
    Ended table
      (λ i. false)
      1_000
      500
      0
      rows
      (delete_batched table (λ i. false) 1_000 500 1 0 0 rows)
delete_batched-Ended_example =
    delete_batched-Ended table (λ i. false) 1_000 500 1 0 0 rows (unfold select in omega arith)

purge_once-Ended_example :
    Ended table (λ i. false) 1_000 500 0 rows (purge_once table (λ i. false) 1_000 500 false 1 rows)
purge_once-Ended_example =
    purge_once-Ended table (λ i. false) 1_000 500 rows 1 (unfold select in omega arith)

-- Two years, by default.
abbrev pub shop_postgres : PostgresConfig
shop_postgres = record {
  host = "db";
  port = pos 0;
  database = "deploys";
  user = "bot";
  ssl_mode = "";
  retention_history = "";
  history_retention = 0;
}

purge_once-young_rows_example :
    let retention = history_retention_duration (validate_structured (λ s. none) shop_postgres).1 in
    young_rows 100_000_000_000
      (left_rows (purge_once table (λ i. false) 100_000_000_000 retention false 1 rows))
    ≡ young_rows 100_000_000_000 rows
unfolding validate_structured history_retention_duration
purge_once-young_rows_example =
    purge_once-young_rows (λ s. none) shop_postgres table (λ i. false) 100_000_000_000 false 1 rows
      (unfold select in omega arith)
