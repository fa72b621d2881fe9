-- ===== src/Store/History.antt =====
-- internal/store/store.go: the operations on the table `history`. The row holds NULL where the
-- entry holds the empty text or 0, and `scanHistory` reads NULL back as such; a row here is what is
-- read back, `stored_entry` of the entry.
use Prim.Native.Nat.{◌%◌}
use deploy_bot.Prelude.{
  ℕ, zero, suc, ◌-◌, ◌^◌, ltb, String, Option, none, List, [], ◌∷◌, ◌++◌, ◌==◌, leb, if◌then◌else◌,
  select, head?, sort_by,
}
use deploy_bot.Prelude.Int.{ℤ, pos, negsuc}
use deploy_bot.Store.Types.{HistoryEntry}
use deploy_bot.Store.Pending.{Result, ok, err, database}
use deploy_bot.World.{Env, World, pg_push_history, pg_get_history, pg_find_history}

abbrev pub default_history_limit : ℕ
default_history_limit = 100

pub take {ℓ} : {A : Type ℓ} → ℕ → List A → List A
take zero xs = []
take (suc n) [] = []
take (suc n) (x ∷ xs) = x ∷ take n xs

-- ORDER BY completed_at DESC
newest_first : List HistoryEntry → List HistoryEntry
unfolding sort_by
newest_first = sort_by (λ a b. leb b.completed_at a.completed_at)

effective_limit : ℤ → ℕ
effective_limit (pos zero) = default_history_limit
effective_limit (pos (suc n)) = suc n
effective_limit (negsuc n) = default_history_limit

-- The two's complement number with the lowest 32 bits.
abbrev int32_of_bits : ℕ → ℤ
int32_of_bits b = if ltb b (2 ^ 31) then pos b else negsuc (2 ^ 32 - 1 - b)

-- The conversion int32(n)
unfoldable pub int32 : ℤ → ℤ
int32 (pos n) = int32_of_bits (n % 2 ^ 32)
int32 (negsuc n) = int32_of_bits (2 ^ 32 - 1 - n % 2 ^ 32)

-- The row, as it reads back: nullIfZero keeps 32 bits of the number of the pull request.
pub stored_entry : HistoryEntry → HistoryEntry
unfolding int32
stored_entry e = record e { pr_number = int32 e.pr_number }

module _ {K : Type 0} (env : Env K) where
  unfoldable pub push_history : HistoryEntry → World K → World K
  push_history e w =
      if env.fails (pg_push_history e.pr_number)
      then w
      else record w { history = w.history ++ stored_entry e ∷ [] }

  pub get_history : String → ℤ → World K → Result (List HistoryEntry)
  unfolding newest_first effective_limit take select
  get_history app_filter limit w =
      if env.fails pg_get_history
      then err database
      else ok (
          take (effective_limit limit) (
            newest_first (
              if app_filter == "" then w.history else select (λ e. e.app == app_filter) w.history)))

  find_history_by_sha : String → World K → Result (Option HistoryEntry)
  unfolding newest_first select
  find_history_by_sha sha w =
      if sha == ""
      then ok none
      else if env.fails (pg_find_history sha)
      then err database
      else ok (head? (newest_first (select (λ e. e.gitops_commit_sha == sha) w.history)))
