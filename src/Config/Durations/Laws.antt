-- ===== src/Config/Durations/Laws.antt =====
-- The durations that `Load` has checked are read without a panic.
use deploy_bot.Prelude.Int.{ℤ, pos}
use deploy_bot.Prelude.{
  String, ◌≡◌, refl, Bool, true, false, not, ◌&&◌, Option, none, some, ◌==◌, if◌then◌else◌,
}
use deploy_bot.Config.Load.{FileConfig, failing, malformed, first_error, file_checks, load_error}
use deploy_bot.Config.Load.Laws.{both, passes}
use deploy_bot.Config.Durations.{stale_duration_value, lock_ttl_value}

-- Whether a text parses.
abbrev pub parses : (String → Option ℤ) → String → Bool
parses parse s = elim (parse s) [ none ↦ false | some d ↦ true ]

read_without_panic :
    (d : Option ℤ) (blank : Bool) (default : ℤ)
    → (not blank && (elim d [ none ↦ false | some x ↦ true ])) ≡ not blank
    → (v : ℤ) × ((if blank then some default else d) ≡ some v)
read_without_panic d true default h = (default, refl)
read_without_panic none false default h = cc
read_without_panic (some v) false default h = (v, refl)

well_formed :
    (parse : String → Option ℤ) (s : String) (default : ℤ)
    → malformed (parses parse) s ≡ false
    → (v : ℤ) × ((if s == "" then some default else parse s) ≡ some v)
well_formed parse s default h =
    read_without_panic (parse s) (s == "") default (agree (s == "") (parse s) h)
  where
    agree :
        (blank : Bool) (d : Option ℤ)
        → (not blank && not (elim d [ none ↦ false | some x ↦ true ])) ≡ false
        → (not blank && (elim d [ none ↦ false | some x ↦ true ])) ≡ not blank
    agree true d g = refl
    agree false none g = cc
    agree false (some v) g = refl

-- In a file that loads, `StaleDuration` and `LockTTL` read a duration and do not panic.
pub load_error-stale_duration_value :
    (parse : String → Option ℤ) (compiles is_level is_format : String → Bool) (c : FileConfig)
    → load_error (parses parse) compiles is_level is_format c ≡ none
    → ((v : ℤ) × (stale_duration_value parse c ≡ some v))
      × ((v : ℤ) × (lock_ttl_value parse c ≡ some v))
unfolding load_error file_checks first_error stale_duration_value lock_ttl_value
load_error-stale_duration_value parse compiles is_level is_format c h =
    let a = both (first_error (file_checks (parses parse) compiles is_level is_format c)) _ h in
    let b = both (failing (malformed (parses parse) c.stale_duration) "stale_duration") _ a.0 in
    let d = both (failing (malformed (parses parse) c.lock_ttl) "lock_ttl") _ b.1 in
    (
      well_formed parse c.stale_duration (pos 7_200_000) (passes _ "stale_duration" b.0),
      well_formed parse c.lock_ttl (pos 300_000) (passes _ "lock_ttl" d.0),
    )
