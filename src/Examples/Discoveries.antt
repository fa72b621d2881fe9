-- ===== src/Examples/Discoveries.antt =====
-- A repository whose file leaves the name and the path to the conventions.
use mathlib.Core.List.Memᴰ.{head}
use deploy_bot.Prelude.{◌≡◌, refl, true, false, some, [], ◌∷◌, pos}
use deploy_bot.Config.Discovery.{RepoDiscoveryConfig, replace_all}
use deploy_bot.RepoConfig.{AppEntry, check_entry}
use deploy_bot.Scanner.Parse.{RepoConfigFile, DiscoveredApp, parse_repo_config}
use deploy_bot.Scanner.Parse.Laws.{IsNamed, parse_repo_config-IsNamed}

abbrev discovery : RepoDiscoveryConfig
discovery = record {
  enabled = true;
  enforce_repo_naming = true;
  kustomize_path_template = "";
  default_tag_pattern = "^v";
  exempt_repos = "acme/legacy" ∷ [];
  poll_interval = "";
  config_file = "";
  repo_prefix = "";
  discovered_path = "";
  configmap_name = "";
  rate_limit_floor = pos 0;
}

abbrev api_entry : AppEntry
api_entry = record {
  app = "";
  environment = "prod";
  kustomize_path = "";
  ecr_repo = "registry/api";
  tag_pattern = "";
  auto_deploy = false;
}

abbrev api_file : RepoConfigFile
api_file = record { api_version = "deploy-bot/v2"; apps = api_entry ∷ [] }

abbrev api_app : DiscoveredApp
api_app = record {
  app = "api";
  environment = "prod";
  kustomize_path = "prod/api/kustomization.yaml";
  ecr_repo = "registry/api";
  tag_pattern = "^v";
  auto_deploy = false;
  source_repo = "acme/api";
}

replace_all_test : replace_all "{env}/{repo}/k.yaml" "{env}" "prod" ≡ "prod/{repo}/k.yaml"
unfolding replace_all
replace_all_test = refl

parse_repo_config_test :
    parse_repo_config (λ p. true) discovery "acme/api" api_file ≡ some (api_app ∷ [], [])
unfolding parse_repo_config check_entry
parse_repo_config_test = refl

parse_repo_config-IsNamed_example : IsNamed discovery "acme/api" api_app
unfolding parse_repo_config
parse_repo_config-IsNamed_example =
    parse_repo_config-IsNamed (λ p. true) discovery "acme/api" api_file refl refl
      parse_repo_config_test (head refl)
