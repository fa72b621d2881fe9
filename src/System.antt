-- ===== src/System.antt =====
-- The parts together: every handler of internal/bot that is modelled, every pass of internal/sweeper
-- and of the purge of the history is a step from world to world. What Postgres, Redis, Slack and GitHub do may differ from step to step; the
-- repository that the configuration names does not.
use mathlib.Core.List.{Memᴰ}
use mathlib.Core.List.Memᴰ.{head, tail, not-nil}
use deploy_bot.Prelude.Int.{ℤ}
use deploy_bot.Prelude.{
  ℕ, ◌+◌, ◌*◌, ◌≤◌, ◌<◌, String, ◌≡◌, refl, sym, ◌∙◌, ap, Bool, true, false, Option, List, [], ◌∷◌,
  ◌++◌, select, length, arith, if◌then◌else◌,
}
use deploy_bot.Config.Postgres.{
  PostgresConfig, min_retention_history, validate_structured, history_retention_duration,
}
use deploy_bot.Config.Postgres.Laws.{is_young, left_rows, purge_once-young_rows}
use deploy_bot.Retention.{Database, delete_batch_size, old_rows, purge_once}
use deploy_bot.Sweeper.Reconcile.{reconcile_from_github}
use deploy_bot.Sweeper.Reconcile.Frame.{Advances-reconcile_from_github}
use deploy_bot.Sweeper.Reconstruct.{DeployCommit, reconstruct_history, Advances-reconstruct_history}
use deploy_bot.Store.Types.{HistoryEntry}
use deploy_bot.World.{Env, World}
use deploy_bot.Bot.Approve.{handle_approve}
use deploy_bot.Bot.Approve.Frame.{Advances-handle_approve}
use deploy_bot.Bot.Cancel.{CancelParams, do_cancel_deploy}
use deploy_bot.Bot.Cancel.Frame.{Advances-do_cancel_deploy}
use deploy_bot.Bot.Reject.{handle_reject_submit}
use deploy_bot.Bot.Reject.Frame.{Advances-handle_reject_submit}
use deploy_bot.Bot.Submit.{Submission, handle_deploy_submit}
use deploy_bot.Bot.Submit.Frame.{Advances-handle_deploy_submit}
use deploy_bot.Bot.Ecr.{EcrPushEvent, handle_ecr_push}
use deploy_bot.Bot.Ecr.Frame.{Advances-handle_ecr_push}
use deploy_bot.Bot.Mention.{AppMentionEvent, handle_mention}
use deploy_bot.Bot.Mention.Frame.{Advances-handle_mention}
use deploy_bot.Sweeper.Reconcile.{Issue, PrMeta}
use deploy_bot.Sweeper.Pass.{run_once, Advances-run_once}
use deploy_bot.Sweeper.Recovery.{recover_stuck}
use deploy_bot.Sweeper.Recovery.Frame.{Advances-recover_stuck}
use deploy_bot.Bot.Frame.{Advances, Advances-same, IsWellFormed}

-- The environment is that of the repository.
pub record IsOf {K : Type 0} (org repo : String) (env : Env K) : Type 0 where
  pub same_org : env.cfg.org ≡ org
  pub same_repo : env.cfg.repo ≡ repo

-- The retention that the validated configuration answers.
abbrev pub retention_of : (String → Option ℤ) → PostgresConfig → ℕ
retention_of parse_duration p = history_retention_duration (validate_structured parse_duration p).1

-- The steps of a run in which no purge starts after the time `until`.
pub data Step {K : Type 0} (org repo : String) (until : ℕ) : World K → World K → Type 0 where
  approves :
      {w : World K} (env : Env K)
      → IsOf org repo env
      → (user value : String) → Step org repo until w (handle_approve env user value w)
  cancels :
      {w : World K} (env : Env K)
      → IsOf org repo env
      → (pr_arg : String) (p : CancelParams)
      → Step org repo until w (do_cancel_deploy env pr_arg p w)
  rejects :
      {w : World K} (env : Env K)
      → IsOf org repo env
      → (user metadata reason : String)
      → Step org repo until w (handle_reject_submit env user metadata reason w)
  submits :
      {w : World K} (env : Env K)
      → IsOf org repo env
      → (s : Submission) → Step org repo until w (handle_deploy_submit env s w)
  receives_push :
      {w : World K} (env : Env K)
      → IsOf org repo env
      → (evt : EcrPushEvent) → Step org repo until w (handle_ecr_push env evt w)
  mentions :
      {w : World K} (env : Env K)
      → IsOf org repo env
      → (evt : AppMentionEvent) → Step org repo until w (handle_mention env evt w)
  sweeps :
      {w : World K} (env : Env K)
      → IsOf org repo env
      → (parse_meta : String → Option PrMeta) (issues : String → Option (List Issue))
      → Step org repo until w (run_once env parse_meta issues w)
  reconciles :
      {w : World K} (env : Env K)
      → IsOf org repo env
      → (parse_meta : String → Option PrMeta) (issues : String → Option (List Issue))
      → Step org repo until w (reconcile_from_github env parse_meta issues w)
  reconstructs :
      {w : World K} (env : Env K)
      → IsOf org repo env
      → (commits : String → Option (List DeployCommit)) (pr_for_commit : String → ℤ × String)
      → Step org repo until w (reconstruct_history env commits pr_for_commit w)
  purges :
      {w : World K} (parse_duration : String → Option ℤ) (p : PostgresConfig) (db : Database)
      (exec_fails : ℕ → Bool) (preflight_fails : Bool) (fuel : ℕ)
      → w.now ≤ until
      → length (old_rows w.now (retention_of parse_duration p) w.history) < delete_batch_size * fuel
      → Step org repo until w (record w {
        history = left_rows (
            purge_once db exec_fails w.now
              (retention_of parse_duration p)
              preflight_fails
              fuel
              w.history);
      })
  recovers :
      {w : World K} (env : Env K) → IsOf org repo env → Step org repo until w (recover_stuck env w)
  waits : {w : World K} (d : ℕ) → Step org repo until w (record w { now = w.now + d })

-- Any number of steps, the last one outermost.
pub data Reach {K : Type 0} (org repo : String) (until : ℕ) : World K → World K → Type 0 where
  stays : {w : World K} → Reach org repo until w w
  then_step :
      {u v w : World K}
      → Reach org repo until u v
      → Step org repo until v w
      → Reach org repo until u w

Memᴰ-select :
    (p : HistoryEntry → Bool) (xs : List HistoryEntry) {e : HistoryEntry}
    → Memᴰ e (select p xs)
    → Memᴰ e xs
unfolding select
Memᴰ-select p [] m = m
Memᴰ-select p (x ∷ xs) {e} m = chosen (p x) m (Memᴰ-select p xs {e = e})
  where
    chosen :
        (b : Bool)
        → Memᴰ e (if b then x ∷ select p xs else select p xs)
        → (Memᴰ e (select p xs) → Memᴰ e xs)
        → Memᴰ e (x ∷ xs)
    chosen true (head same) later = head same
    chosen true (tail n) later = tail (later n)
    chosen false n later = tail (later n)

select-Memᴰ :
    (p : HistoryEntry → Bool) (xs : List HistoryEntry) {e : HistoryEntry}
    → Memᴰ e xs
    → p e ≡ true
    → Memᴰ e (select p xs)
unfolding select
select-Memᴰ p [] m h = m
select-Memᴰ p (x ∷ xs) {e} (head same) h = rw (sym (ap p same) ∙ h) (head same)
select-Memᴰ p (x ∷ xs) {e} (tail m) h = chosen (p x) (select-Memᴰ p xs {e = e} m h)
  where
    chosen : (b : Bool) → Memᴰ e (select p xs) → Memᴰ e (if b then x ∷ select p xs else select p xs)
    chosen true n = tail n
    chosen false n = n

append-Memᴰ : (xs ys : List HistoryEntry) {e : HistoryEntry} → Memᴰ e xs → Memᴰ e (xs ++ ys)
append-Memᴰ [] ys m = absurd (not-nil m)
append-Memᴰ (x ∷ xs) ys (head same) = head same
append-Memᴰ (x ∷ xs) ys (tail m) = tail (append-Memᴰ xs ys m)

-- What a run keeps: a well-formed table, and every entry of the history that is not older than the
-- floor of the retention when the last purge starts.
pub record Keeps {K : Type 0} (org repo : String) (until : ℕ) (v w : World K) : Type 0 where
  pub table : IsWellFormed org repo w.pending → IsWellFormed org repo v.pending
  pub entries :
      (e : HistoryEntry)
      → Memᴰ e w.history
      → until ≤ e.completed_at + min_retention_history
      → Memᴰ e v.history

module _ {K : Type 0} {org repo : String} {until : ℕ} where
  -- A step of a handler or the sweeper only adds to the history.
  of_advance : {v w : World K} → Advances org repo v w → Keeps org repo until v w
  of_advance {v} {w} a = record {
    table = a.table;
    entries = λ e m young. rw a.added.1 (append-Memᴰ w.history a.added.0 m);
  }

  -- What a run keeps for the repository that its environment names, it keeps for this one.
  for_repo :
      (env : Env K) {v w : World K}
      → IsOf org repo env
      → Advances env.cfg.org env.cfg.repo v w
      → Keeps org repo until v w
  for_repo env o a = of_advance (rw (sym o.same_org, sym o.same_repo) a)

  Step-Keeps : {w v : World K} → Step org repo until w v → Keeps org repo until v w
  Step-Keeps (approves env o user value) = for_repo env o (Advances-handle_approve env user value _)
  Step-Keeps (cancels env o pr_arg p) = for_repo env o (Advances-do_cancel_deploy env p pr_arg _)
  Step-Keeps (rejects env o user metadata reason) =
      for_repo env o (Advances-handle_reject_submit env user metadata reason _)
  Step-Keeps (submits env o s) = for_repo env o (Advances-handle_deploy_submit env s _)
  Step-Keeps (receives_push env o evt) = for_repo env o (Advances-handle_ecr_push env evt _)
  Step-Keeps (mentions env o evt) = for_repo env o (Advances-handle_mention env evt _)
  Step-Keeps (sweeps env o parse_meta issues) =
      for_repo env o (Advances-run_once env parse_meta issues _)
  Step-Keeps (reconciles env o parse_meta issues) =
      for_repo env o (Advances-reconcile_from_github env parse_meta issues _)
  Step-Keeps (reconstructs env o commits pr_for_commit) =
      for_repo env o (Advances-reconstruct_history env commits pr_for_commit _)
  Step-Keeps (purges {w} parse_duration p db exec_fails preflight_fails fuel early enough) =
      record {
        table = λ t. t;
        entries = λ e m young.
            let same =
              purge_once-young_rows parse_duration p db exec_fails w.now preflight_fails fuel
                w.history enough in
            let there = select-Memᴰ (is_young w.now) w.history m (ground (arith, early, young)) in
            Memᴰ-select (is_young w.now) _ (rw same there);
      }
  Step-Keeps (recovers env o) = of_advance (Advances-recover_stuck env _)
  Step-Keeps (waits d) = of_advance (Advances-same refl refl)

  -- Whatever steps run, approvals, cancellations, rejections, requests, mentions, image pushes, passes
  -- of the sweeper, reconciliations, recoveries, reconstructions of the history, and purges with a
  -- validated retention and fuel for the old rows, in whatever order and whichever of their calls
  -- fail: if no two rows of `pending_deploys` had one key, every row belonged to the configured
  -- repository and was pending or merging, all this is so afterwards; and an entry of the history is
  -- still there, unless a purge started more than 390 days after its completion.
  pub Reach-IsWellFormed : {v w : World K} → Reach org repo until w v → Keeps org repo until v w
  Reach-IsWellFormed stays = record { table = λ t. t; entries = λ e m young. m }
  Reach-IsWellFormed (then_step r s) =
      let a = Step-Keeps s in
      let b = Reach-IsWellFormed r in
      record {
        table = λ t. a.table (b.table t);
        entries = λ e m young. a.entries e (b.entries e m young) young;
      }
