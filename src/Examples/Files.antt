-- ===== src/Examples/Files.antt =====
-- The file of a repository, and what the scanner makes of two repositories.
use mathlib.Core.List.{Memᴰ}
use mathlib.Core.List.Memᴰ.{head, tail}
use deploy_bot.Prelude.{
  String, ◌≡◌, ◌≢◌, refl, true, false, none, some, List, [], ◌∷◌, arith, some_of,
}
use deploy_bot.Config.{AppConfig, full_name, is_named}
use deploy_bot.RepoConfig.{
  AppEntry, ValidateOpts, check_entry, entry_key, validate_with_opts, valid_entries,
}
use deploy_bot.RepoConfig.Laws.{nth, Differ, valid_entries-Differ}
use deploy_bot.Scanner.Conflicts.{operator_of, registered}
use deploy_bot.Scanner.Conflicts.Laws.{DistinctPaths, registered-clear, registered-drops_both}
use deploy_bot.Examples.Samples.{shop}

abbrev entry : String → String → AppEntry
entry app env = record {
  app = app;
  environment = env;
  kustomize_path = "";
  ecr_repo = "registry/api";
  tag_pattern = "";
  auto_deploy = false;
}

abbrev opts : ValidateOpts
opts = record {
  repo_naming = true;
  repo_name = "api";
  exempt = false;
  kustomize_path_fn = none;
  default_tag_pattern = "";
}

abbrev file : List AppEntry
file = entry "" "dev" ∷ entry "web" "dev" ∷ entry " api" "prod" ∷ []

-- The second entry names another app than the repository.
valid_entries_test : valid_entries file (validate_with_opts (λ p. true) opts file) ≡ 0 ∷ 2 ∷ []
unfolding valid_entries validate_with_opts check_entry entry_key
valid_entries_test = refl

valid_entries-Differ_example :
    (a : AppEntry) × (b : AppEntry) × (nth 0 file ≡ some a)
    × (nth 2 file ≡ some b)
    × Differ (λ p. true) opts a b
unfolding valid_entries validate_with_opts check_entry entry_key
valid_entries-Differ_example =
    valid_entries-Differ (λ p. true) opts file 0 2 (head refl) (tail (head refl)) (omega arith)

abbrev api : String → AppConfig
api repo = record {
  app = "api";
  environment = "prod";
  kustomize_path = "prod/api/kustomization.yaml";
  ecr_repo = "registry/api";
  auto_deploy = false;
  source_repo = repo;
}

registered-clear_example :
    ((a : AppConfig)
      → Memᴰ a (registered (shop ∷ []) (api "acme/api" ∷ shop ∷ []))
      → (some_of (is_named (full_name a)) (shop ∷ []) ≡ false)
        × (a.kustomize_path ≢ "" → operator_of a.kustomize_path (shop ∷ []) ≡ none))
    × DistinctPaths (shop ∷ []) (registered (shop ∷ []) (api "acme/api" ∷ shop ∷ []))
registered-clear_example = registered-clear (shop ∷ []) (api "acme/api" ∷ shop ∷ [])

registered-drops_both_example : registered (shop ∷ []) (api "acme/api" ∷ api "acme/fork" ∷ []) ≡ []
unfolding full_name
registered-drops_both_example =
    registered-drops_both (shop ∷ []) (api "acme/api") (api "acme/fork") refl refl (λ e. cc)
      (unfold some_of full_name in refl) (unfold operator_of in refl)
