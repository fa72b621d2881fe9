-- ===== src/Examples/Loads.antt =====
-- A configuration file with one app that loads.
use deploy_bot.Prelude.{String, Bool, ◌≡◌, refl, true, none, some, List, [], ◌∷◌}
use deploy_bot.Config.Load.{AppHealthCheck, FileApp, FileConfig, load_error}
use deploy_bot.Prelude.Int.{ℤ, pos}
use deploy_bot.Prelude.{Option}
use deploy_bot.Config.Durations.{stale_duration_value, lock_ttl_value}
use deploy_bot.Config.Durations.Laws.{load_error-stale_duration_value}
use deploy_bot.Config.Load.Laws.{WellConfigured, load_error-WellConfigured}

abbrev anything : String → Bool
anything s = true

abbrev errors_check : AppHealthCheck
errors_check = record {
  provider = "dynatrace";
  name = "";
  query = "builtin:service.errors";
  threshold = "< 1";
}

abbrev api_prod : FileApp
api_prod = record {
  app = "api";
  environment = "prod";
  kustomize_path = "prod/api/kustomization.yaml";
  tag_pattern = "";
  health_checks = errors_check ∷ [];
}

abbrev file : FileConfig
file = record {
  stale_duration = "2h";
  lock_ttl = "";
  postgres_errors = [];
  poll_interval = "30s";
  poll_duration = "";
  dynatrace = some (record {
    environment_url = "https://shop.example";
    token_url = "https://sso.example";
    scopes = [];
  });
  log_level = "";
  log_format = "json";
  apps = api_prod ∷ record api_prod { environment = "dev"; kustomize_path = "" } ∷ [];
}

load_error-WellConfigured_example : WellConfigured file.dynatrace file.apps
unfolding load_error deploy_bot.Prelude.Text.trim_space
load_error-WellConfigured_example =
    load_error-WellConfigured anything anything anything anything file refl

-- Every text is an hour.
abbrev hourly : String → Option ℤ
hourly s = some (pos 3_600_000)

load_error-stale_duration_value_example :
    ((v : ℤ) × (stale_duration_value hourly file ≡ some v))
    × ((v : ℤ) × (lock_ttl_value hourly file ≡ some v))
unfolding load_error deploy_bot.Prelude.Text.trim_space
load_error-stale_duration_value_example =
    load_error-stale_duration_value hourly anything anything anything file refl
