-- ===== src/Config/Discovery.antt =====
-- `RepoDiscoveryConfig` of internal/config/config.go and its getters. time.ParseDuration is a
-- parameter; a duration is a number of milliseconds.
use Prim.Native.String.{◌++◌ as append, ◌∷◌ as push}
use deploy_bot.Prelude.Int.{ℤ, pos, negsuc}
use deploy_bot.Prelude.Text.{codes, has_prefix}
use deploy_bot.Prelude.{
  ℕ, zero, suc, ◌-◌, String, Bool, Option, none, some, List, ◌==◌, some_of, length, if◌then◌else◌,
}

pub record RepoDiscoveryConfig : Type 0 where
  pub enabled : Bool
  pub enforce_repo_naming : Bool
  pub kustomize_path_template : String
  pub default_tag_pattern : String
  pub exempt_repos : List String
  pub poll_interval : String
  pub config_file : String
  pub repo_prefix : String
  pub discovered_path : String
  pub configmap_name : String
  pub rate_limit_floor : ℤ

-- The text without its first `skip` characters, each `old` in it replaced.
replace_from : String → String → ℕ → String → String
unfolding has_prefix
replace_from old new skip String.[] = ""
replace_from old new (suc skip) (String.◌∷◌ c s) = replace_from old new skip s
replace_from old new zero (String.◌∷◌ c s) =
    let past = replace_from old new (length (codes old) - 1) s in
    let rest = replace_from old new 0 s in
    if has_prefix (codes (push c s)) (codes old) then append new past else push c rest

-- strings.ReplaceAll, where `old` is not empty.
unfoldable pub replace_all : String → String → String → String
unfolding replace_from
replace_all s old new = replace_from old new 0 s

abbrev or_default : String → String → String
or_default s default = if s == "" then default else s

unfoldable pub kustomize_path_for_repo : RepoDiscoveryConfig → String → String → String
unfolding replace_all
kustomize_path_for_repo r repo env =
    let template = or_default r.kustomize_path_template "{env}/{repo}/kustomization.yaml" in
    replace_all (replace_all template "{env}" env) "{repo}" repo

unfoldable pub is_exempt_repo : RepoDiscoveryConfig → String → Bool
unfolding some_of
is_exempt_repo r repo = some_of (λ exempt. exempt == repo) r.exempt_repos

abbrev positive_or : ℕ → Option ℤ → ℕ
positive_or default none = default
positive_or default (some (pos zero)) = default
positive_or default (some (pos (suc n))) = suc n
positive_or default (some (negsuc n)) = default

poll_interval_duration : (String → Option ℤ) → RepoDiscoveryConfig → ℕ
poll_interval_duration parse_duration r =
    if r.poll_interval == "" then 300_000 else positive_or 300_000 (parse_duration r.poll_interval)

config_file_name : RepoDiscoveryConfig → String
config_file_name r = or_default r.config_file ".deploy-bot.json"

discovered_file_path : RepoDiscoveryConfig → String
discovered_file_path r = or_default r.discovered_path "/etc/deploy-bot/discovered/discovered.json"

configmap_target_name : RepoDiscoveryConfig → String
configmap_target_name r = or_default r.configmap_name "deploy-bot-discovered"

rate_limit_floor_value : RepoDiscoveryConfig → ℕ
rate_limit_floor_value r = positive_or 500 (some r.rate_limit_floor)
