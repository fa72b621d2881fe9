-- ===== src/Config/Lookup.antt =====
pub mod Laws
-- The lookups of internal/config/config.go beside AppByName, and the conflicts of the discovered
-- apps with the operator's.
use Prim.Native.Nat.{Ordering}
use Prim.Native.String.{compare}
use deploy_bot.Prelude.Text.{codes, text_eq}
use Prim.Native.String.{◌++◌ as append}
use deploy_bot.Prelude.{
  ℕ, String, Bool, true, false, ◌&&◌, ◌||◌, Option, none, some, List, [], ◌∷◌, ◌==◌, select,
  find_first, some_of, sort_by, map, if◌then◌else◌,
}
use deploy_bot.Config.{AppConfig, Config, full_name, is_named}

-- The order of sort.Strings
abbrev pub str_leb : String → String → Bool
str_leb a b = elim (compare a b) [ Ordering.gt ↦ false | _ ↦ true ]

-- strings.HasSuffix
pub has_suffix : List ℕ → List ℕ → Bool
unfolding text_eq
has_suffix [] p = text_eq [] p
has_suffix (c ∷ s) p = text_eq (c ∷ s) p || has_suffix s p

-- The keys of a map from the names.
distinct : List String → List String
unfolding some_of
distinct [] = []
distinct (x ∷ xs) = let rest = distinct xs in if some_of (λ y. y == x) rest then rest else x ∷ rest

abbrev pub from_repo : String → AppConfig → Bool
from_repo repo a = has_suffix (codes a.ecr_repo) (codes (append "/" repo)) || a.ecr_repo == repo

abbrev pub is_components : String → String → AppConfig → Bool
is_components app env a = a.app == app && a.environment == env

pub app_by_ecr_repo : Config → String → Option AppConfig
unfolding find_first
app_by_ecr_repo c repo = find_first (from_repo repo) c.apps

pub apps_by_ecr_repo : Config → String → List AppConfig
unfolding select
apps_by_ecr_repo c repo = select (from_repo repo) c.apps

unique_app_names : Config → List String
unfolding distinct sort_by
unique_app_names c = sort_by str_leb (distinct (map (λ a. a.app) c.apps))

unique_environments : Config → List String
unfolding distinct sort_by
unique_environments c = sort_by str_leb (distinct (map (λ a. a.environment) c.apps))

pub environments_for_app : Config → String → List String
unfolding select sort_by
environments_for_app c app =
    sort_by str_leb (map (λ a. a.environment) (select (λ a. a.app == app) c.apps))

pub apps_for_environment : Config → String → List String
unfolding select sort_by
apps_for_environment c env =
    sort_by str_leb (map (λ a. a.app) (select (λ a. a.environment == env) c.apps))

pub app_by_components : Config → String → String → Option AppConfig
unfolding find_first
app_by_components c app env = find_first (is_components app env) c.apps

pub record Conflict : Type 0 where
  pub app : String
  pub env : String
  pub source_repo : String

abbrev conflict_of : AppConfig → Conflict
conflict_of d = record { app = d.app; env = d.environment; source_repo = d.source_repo }

-- LoadConflicts, on what the two files hold: the discovered apps whose full name is taken.
load_conflicts : List AppConfig → List AppConfig → List Conflict
unfolding select some_of full_name
load_conflicts primary discovered =
    map conflict_of (select (λ d. some_of (is_named (full_name d)) primary) discovered)
