-- ===== src/Config/Load.antt =====
pub mod Laws
-- The checks that `Load` of internal/config/config.go makes on the decoded file, up to the first
-- that fails. An error carries the field at fault. The JSON decoder, time.ParseDuration and
-- regexp.Compile are not part of it: whether a text parses is a parameter.
use deploy_bot.Prelude.Text.{trim_space}
use deploy_bot.Prelude.{
  String, Bool, true, false, not, ◌&&◌, ◌||◌, Option, none, some, List, [], ◌∷◌, ◌==◌, some_of,
  if◌then◌else◌,
}

pub record AppHealthCheck : Type 0 where
  pub provider : String
  pub name : String
  pub query : String
  pub threshold : String

-- The fields of AppConfig that `Load` checks.
pub record FileApp : Type 0 where
  pub app : String
  pub environment : String
  pub kustomize_path : String
  pub tag_pattern : String
  pub health_checks : List AppHealthCheck

pub record DynatraceConfig : Type 0 where
  pub environment_url : String
  pub token_url : String
  pub scopes : List String

-- The fields of Config that `Load` checks; `postgres_errors` is what the Postgres section reports.
pub record FileConfig : Type 0 where
  pub stale_duration : String
  pub lock_ttl : String
  pub postgres_errors : List String
  pub poll_interval : String
  pub poll_duration : String
  pub dynatrace : Option DynatraceConfig
  pub log_level : String
  pub log_format : String
  pub apps : List FileApp

-- The first error of two steps.
abbrev pub then_check : Option String → Option String → Option String
then_check none next = next
then_check (some e) next = some e

unfoldable pub first_error : List (Option String) → Option String
first_error [] = none
first_error (c ∷ cs) = then_check c (first_error cs)

abbrev pub failing : Bool → String → Option String
failing true field = some field
failing false field = none

abbrev pub is_blank : String → Bool
is_blank s = trim_space s == ""

-- ConfiguredProviders
unfoldable pub configured : Option DynatraceConfig → String → Bool
configured none provider = false
configured (some d) provider = provider == "dynatrace"

-- EffectiveName
effective_name : AppHealthCheck → String
effective_name h = if h.name == "" then h.provider else h.name

pub check_health : Option DynatraceConfig → List AppHealthCheck → Option String
unfolding configured
check_health dt [] = none
check_health dt (h ∷ hs) =
    let rest = check_health dt hs in
    then_check (failing (is_blank h.provider) "provider") (
      then_check (failing (not (configured dt h.provider)) "provider not configured") (
        then_check (failing (is_blank h.query) "query")
          (then_check (failing (is_blank h.threshold) "threshold") rest)))

check_dynatrace : Option DynatraceConfig → Option String
check_dynatrace none = none
check_dynatrace (some d) =
    then_check (failing (is_blank d.environment_url) "environment_url")
      (failing (is_blank d.token_url) "token_url")

abbrev postgres_error : List String → Option String
postgres_error [] = none
postgres_error (e ∷ es) = some e

-- A text that is not empty and does not parse.
abbrev pub malformed : (String → Bool) → String → Bool
malformed valid text = not (text == "") && not (valid text)

module _ (compiles : String → Bool) where
  -- `taken` is the map of the kustomize paths that earlier apps have.
  pub check_apps : Option DynatraceConfig → List String → List FileApp → Option String
  unfolding check_health some_of
  check_apps dt taken [] = none
  check_apps dt taken (a ∷ apps) =
      let pathless = check_apps dt taken apps in
      let with_path = check_apps dt (a.kustomize_path ∷ taken) apps in
      then_check (failing (a.environment == "") "environment") (
        then_check (failing (malformed compiles a.tag_pattern) "tag_pattern") (
          then_check (check_health dt a.health_checks) (
            if a.kustomize_path == ""
            then pathless
            else then_check (failing (some_of (λ p. p == a.kustomize_path) taken) "kustomize_path")
                with_path)))

module _ (is_duration compiles is_level is_format : String → Bool) where
  -- The checks before the apps, in their order.
  unfoldable pub file_checks : FileConfig → List (Option String)
  unfolding check_dynatrace
  file_checks c =
      failing (malformed is_duration c.stale_duration) "stale_duration"
      ∷ failing (malformed is_duration c.lock_ttl) "lock_ttl"
      ∷ postgres_error c.postgres_errors
      ∷ failing (malformed is_duration c.poll_interval) "poll_interval"
      ∷ failing (malformed is_duration c.poll_duration) "poll_duration"
      ∷ check_dynatrace c.dynatrace
      ∷ failing (malformed is_level c.log_level) "log_level"
      ∷ failing (malformed is_format c.log_format) "log_format"
      ∷ []

  unfoldable pub load_error : FileConfig → Option String
  unfolding file_checks check_apps first_error
  load_error c =
      then_check (first_error (file_checks c)) (check_apps compiles c.dynatrace [] c.apps)
