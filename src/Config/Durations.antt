-- ===== src/Config/Durations.antt =====
pub mod Laws
-- The durations and retry limits that internal/config/config.go reads from its texts, in
-- milliseconds; time.ParseDuration is a parameter. `none` is a panic.
use deploy_bot.Prelude.Int.{ℤ, pos, negsuc}
use deploy_bot.Prelude.{
  ℕ, zero, suc, String, Bool, true, false, Option, none, some, List, [], ◌∷◌, ◌==◌, some_of,
  if◌then◌else◌,
}
use deploy_bot.Config.Load.{FileConfig, DynatraceConfig}

abbrev positive_or : ℕ → Option ℤ → ℕ
positive_or default none = default
positive_or default (some (pos zero)) = default
positive_or default (some (pos (suc n))) = suc n
positive_or default (some (negsuc n)) = default

-- The number of retries; 0 stands for 3.
abbrev retries_or_default : ℤ → ℤ
retries_or_default (pos zero) = pos 3
retries_or_default (pos (suc n)) = pos (suc n)
retries_or_default (negsuc n) = negsuc n

-- EffectiveScopes
effective_scopes : DynatraceConfig → List String
effective_scopes d = elim d.scopes [
  | [] ↦ "storage:metrics:read" ∷ "storage:events:read" ∷ []
  | s ∷ ss ↦ s ∷ ss
]

-- IsChannelAllowed
is_channel_allowed : List String → String → Bool
unfolding some_of
is_channel_allowed [] channel = true
is_channel_allowed (c ∷ cs) channel = some_of (λ id. id == channel) (c ∷ cs)

module _ (parse_duration : String → Option ℤ) where
  -- A duration that is set, parses and is positive, or the default.
  abbrev parsed_or : ℕ → String → ℕ
  parsed_or default text = if text == "" then default else positive_or default (parse_duration text)

  health_poll_interval : String → ℕ
  health_poll_interval text = parsed_or 30_000 text

  health_poll_duration : String → ℕ
  health_poll_duration text = parsed_or 300_000 text

  ecr_poll_interval : String → ℕ
  ecr_poll_interval text = parsed_or 30_000 text

  github_rate_limit_config : ℤ → String → ℤ × ℕ
  github_rate_limit_config max_retries wait =
      (retries_or_default max_retries, parsed_or 120_000 wait)

  slack_rate_limit_config : ℤ → String → ℤ × ℕ
  slack_rate_limit_config max_retries wait = (retries_or_default max_retries, parsed_or 30_000 wait)

  pub stale_duration_value : FileConfig → Option ℤ
  stale_duration_value c =
      if c.stale_duration == "" then some (pos 7_200_000) else parse_duration c.stale_duration

  pub lock_ttl_value : FileConfig → Option ℤ
  lock_ttl_value c = if c.lock_ttl == "" then some (pos 300_000) else parse_duration c.lock_ttl
