-- ===== src/Config/Secrets.antt =====
pub mod Laws
-- `Secrets` of internal/config/config.go and its validation. An error carries a name of the check.
use deploy_bot.Prelude.Int.{ℤ, pos, int_eq}
use deploy_bot.Prelude.Text.{codes, has_prefix, contains}
use deploy_bot.Prelude.{
  ℕ, ◌+◌, String, Bool, true, false, not, ◌&&◌, ◌||◌, List, [], ◌∷◌, ◌++◌, ◌==◌, eqb, ltb,
  if◌then◌else◌,
}

pub record Secrets : Type 0 where
  slack_bot_token : String
  slack_app_token : String
  pub github_token : String
  github_scanner_token : String
  pub github_app_id : ℤ
  pub github_app_installation_id : ℤ
  pub github_app_private_key : String
  redis_addr : String
  redis_token : String
  redis_iam_auth : Bool
  redis_user_id : String
  redis_replication_group_id : String
  ecr_webhook_api_key : String
  argocd_webhook_api_key : String
  dynatrace_client_id : String
  dynatrace_client_secret : String
  pub postgres_password : String
  pub postgres_iam_auth : Bool
  pub postgres_rds_region : String

-- UseGitHubApp
pub use_github_app : Secrets → Bool
use_github_app s = not (int_eq s.github_app_id (pos 0))

scanner_token : Secrets → String
scanner_token s = if s.github_scanner_token == "" then s.github_token else s.github_scanner_token

abbrev pub one_if : Bool → ℕ
one_if true = 1
one_if false = 0

-- How many of the three credentials of the app are set.
pub app_fields : Secrets → ℕ
app_fields s =
    one_if (not (int_eq s.github_app_id (pos 0)))
    + one_if (not (int_eq s.github_app_installation_id (pos 0)))
    + one_if (not (s.github_app_private_key == ""))

pub error_if : Bool → String → List String
error_if true e = e ∷ []
error_if false e = []

pub slack_errors : Secrets → List String
slack_errors s =
    (if s.slack_bot_token == ""
      then "slack_bot_token is empty" ∷ []
      else error_if (not (has_prefix (codes s.slack_bot_token) (codes "xoxb-")))
          "slack_bot_token prefix")
    ++ error_if
        (not (s.slack_app_token == "")
          && not (has_prefix (codes s.slack_app_token) (codes "xapp-")))
        "slack_app_token prefix"

pub github_errors : Secrets → List String
github_errors s =
    error_if (ltb 0 (app_fields s) && ltb (app_fields s) 3) "github app set in part"
    ++ error_if
        (eqb (app_fields s) 3 && not (contains (codes s.github_app_private_key) (codes "BEGIN")))
        "github_app_private_key is no PEM key"
    ++ error_if (s.github_token == "" && eqb (app_fields s) 0) "no github credentials"

pub redis_errors : Secrets → List String
redis_errors s =
    error_if (s.redis_addr == "") "redis_addr is empty"
    ++ error_if (s.redis_iam_auth && s.redis_user_id == "") "redis_user_id is required"
    ++ error_if (s.redis_iam_auth && s.redis_replication_group_id == "")
        "redis_replication_group_id is required"
    ++ error_if (s.redis_iam_auth && not (s.redis_token == "")) "redis_token is excluded"

pub postgres_errors : Secrets → List String
postgres_errors s =
    if s.postgres_iam_auth
    then error_if (s.postgres_rds_region == "") "postgres_rds_region is required"
      ++ error_if (not (s.postgres_password == "")) "postgres_password is excluded"
    else error_if (s.postgres_password == "") "postgres_password is required"

-- Validate
pub validate : Secrets → List String
validate s = slack_errors s ++ github_errors s ++ redis_errors s ++ postgres_errors s
