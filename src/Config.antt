-- ===== src/Config.antt =====
pub mod Discovery
pub mod Durations
pub mod Lookup
pub mod Load
pub mod Secrets
pub mod Postgres
pub mod Merged
-- internal/config/config.go: the part of `Config` that the handlers read, and the lookup and
-- merging of apps. Durations are parsed at load time, and stand here as milliseconds.
use Prim.Native.String.{◌++◌ as append}
use deploy_bot.Prelude.{
  ℕ, ℤ, String, Bool, true, false, not, ◌&&◌, ◌||◌, Option, List, [], ◌∷◌, ◌++◌, ◌==◌, find_first,
  some_of, if◌then◌else◌,
}
use deploy_bot.Prelude.Text.{codes, to_lower, text_eq}

pub record AppConfig : Type 0 where
  pub app : String
  pub environment : String
  pub kustomize_path : String
  pub ecr_repo : String
  pub auto_deploy : Bool
  pub source_repo : String

pub record Config : Type 0 where
  pub org : String
  pub repo : String
  pub deploy_channel : String
  pub merge_method : String
  pub label : String
  pub lock_ttl : ℕ
  pub stale_duration : ℕ
  pub thread_threshold : Option ℤ
  pub allow_prod_auto_deploy : Bool
  pub apps : List AppConfig

unfoldable pub full_name : AppConfig → String
full_name a = append a.app (append "-" a.environment)

is_prod_codes : List ℕ → Bool
is_prod_codes env = text_eq env (codes "prod") || text_eq env (codes "production")

unfoldable pub is_prod : AppConfig → Bool
unfolding is_prod_codes text_eq to_lower
is_prod a = is_prod_codes (to_lower (codes a.environment))

unfoldable pub effective_auto_deploy : AppConfig → Bool → Bool
effective_auto_deploy a allow_prod_auto_deploy =
    if not a.auto_deploy
    then false
    else if is_prod a && not allow_prod_auto_deploy
    then false
    else true

pub deploy_label : Config → String
deploy_label c = if c.label == "" then "deploy-bot" else c.label

pub pending_label : Config → String
unfolding deploy_label
pending_label c = append (deploy_label c) "/pending"

unfoldable pub app_by_name : Config → String → Option AppConfig
unfolding find_first full_name
app_by_name c name = find_first (λ a. full_name a == name) c.apps

abbrev pub is_named : String → AppConfig → Bool
is_named key a = full_name a == key

-- The loop of `MergeApps`; the set `existing` holds the full names of what `result` holds.
pub merge_from : List AppConfig → List AppConfig → List AppConfig
merge_from result [] = result
merge_from result (d ∷ ds) =
    merge_from (if some_of (is_named (full_name d)) result then result else result ++ d ∷ []) ds

-- A discovered app carries its source repository in `source_repo`.
pub merge_apps : List AppConfig → List AppConfig → List AppConfig
unfolding merge_from some_of full_name
merge_apps primary discovered = merge_from primary discovered
