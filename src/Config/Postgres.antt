-- ===== src/Config/Postgres.antt =====
pub mod Laws
-- `PostgresConfig` of internal/config/config.go: its validation, its defaults, and the age that a
-- history row reaches before it is purged. A duration is a number of milliseconds;
-- time.ParseDuration is a parameter.
use deploy_bot.Prelude.Int.{ℤ, pos, negsuc}
use deploy_bot.Prelude.{
  ℕ, zero, suc, ◌+◌, ◌*◌, String, Bool, true, false, Option, none, some, List, [], ◌∷◌, ◌++◌, ◌==◌,
  ltb, if◌then◌else◌,
}
use deploy_bot.Prelude.Text.{trim_space}

abbrev pub day : ℕ
day = 86_400_000

abbrev pub min_retention_history : ℕ
min_retention_history = 390 * day

abbrev pub default_retention_history : ℕ
default_retention_history = 2 * 365 * day

-- `history_retention` is the field that the validation fills in.
pub record PostgresConfig : Type 0 where
  pub host : String
  pub port : ℤ
  pub database : String
  pub user : String
  pub ssl_mode : String
  pub retention_history : String
  pub history_retention : ℕ

abbrev required : String → String → List String
required field value = if trim_space value == "" then field ∷ [] else []

abbrev port_errors : ℤ → List String
port_errors (pos n) = []
port_errors (negsuc n) = "port" ∷ []

abbrev below_minimum : ℤ → Bool
below_minimum (pos n) = ltb n min_retention_history
below_minimum (negsuc n) = true

abbrev magnitude : ℤ → ℕ
magnitude (pos n) = n
magnitude (negsuc n) = 0

module _ (parse_duration : String → Option ℤ) where
  -- The retention that the text gives, where it is one that is allowed.
  pub parsed_retention : Option ℤ → Option ℕ
  parsed_retention none = none
  parsed_retention (some d) = if below_minimum d then none else some (magnitude d)

  -- The error, where there is one, and the field afterwards.
  pub set_retention : Option ℕ → PostgresConfig → List String × PostgresConfig
  set_retention none p =
      ("retention_history" ∷ [], record p { history_retention = default_retention_history })
  set_retention (some n) p = ([], record p { history_retention = n })

  pub check_retention : PostgresConfig → List String × PostgresConfig
  unfolding parsed_retention set_retention
  check_retention p =
      if p.retention_history == ""
      then ([], record p { history_retention = default_retention_history })
      else set_retention (parsed_retention (parse_duration p.retention_history)) p

  -- validateStructured: the fields at fault, and the configuration with its parsed retention.
  unfoldable pub validate_structured : PostgresConfig → List String × PostgresConfig
  unfolding check_retention trim_space
  validate_structured p =
      let r = check_retention p in
      (
        required "host" p.host
            ++ required "database" p.database
            ++ required "user" p.user
            ++ port_errors p.port
            ++ r.0,
        r.1,
      )

-- HistoryRetentionDuration
unfoldable pub history_retention_duration : PostgresConfig → ℕ
history_retention_duration p =
    if ltb 0 p.history_retention then p.history_retention else default_retention_history

port_value : PostgresConfig → ℤ
port_value p = elim p.port [
  | pos zero ↦ pos 5_432
  | pos (suc n) ↦ pos (suc n)
  | negsuc n ↦ pos 5_432
]

ssl_mode_value : PostgresConfig → String
ssl_mode_value p = if p.ssl_mode == "" then "require" else p.ssl_mode
