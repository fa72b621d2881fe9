-- ===== src/Config/Load/Laws.antt =====
-- What holds of the apps of a file that loads.
use mathlib.Core.List.{Memᴰ}
use mathlib.Core.List.Memᴰ.{head, tail, not-nil}
use deploy_bot.Prelude.{
  String, ◌≡◌, ◌≢◌, refl, sym, ◌∙◌, ap, Bool, true, false, not, Option, none, some, List, [], ◌∷◌,
  ◌==◌, some_of, if◌then◌else◌, arith, eq_iff, Bool-cases, inl, inr,
}
use deploy_bot.Config.Load.{
  AppHealthCheck, FileApp, FileConfig, DynatraceConfig, is_blank, configured, then_check, failing,
  check_health, check_apps, load_error, first_error, file_checks, malformed,
}

-- The second step is made only when the first one finds nothing.
pub both : (a b : Option String) → then_check a b ≡ none → (a ≡ none) × (b ≡ none)
both none b h = (refl, h)
both (some e) b h = cc

pub passes : (b : Bool) (field : String) → failing b field ≡ none → b ≡ false
passes true field h = cc
passes false field h = refl

by_not : (b : Bool) → not b ≡ false → b ≡ true
by_not true _ = refl
by_not false h = cc

-- The check names a configured provider, a query and a threshold.
pub record IsChecked (dt : Option DynatraceConfig) (h : AppHealthCheck) : Type 0 where
  provided : configured dt h.provider ≡ true
  pub query : is_blank h.query ≡ false
  pub threshold : is_blank h.threshold ≡ false

health_head :
    (dt : Option DynatraceConfig) (x : AppHealthCheck) (hs : List AppHealthCheck)
    → check_health dt (x ∷ hs) ≡ none
    → IsChecked dt x × (check_health dt hs ≡ none)
unfolding check_health
health_head dt x hs e =
    let rest = check_health dt hs in
    let threshold = then_check (failing (is_blank x.threshold) "threshold") rest in
    let query = then_check (failing (is_blank x.query) "query") threshold in
    let provided =
      then_check (failing (not (configured dt x.provider)) "provider not configured") query in
    let a = both (failing (is_blank x.provider) "provider") provided e in
    let b = both (failing (not (configured dt x.provider)) "provider not configured") query a.1 in
    let c = both (failing (is_blank x.query) "query") threshold b.1 in
    let d = both (failing (is_blank x.threshold) "threshold") rest c.1 in
    let first : IsChecked dt x = record {
      provided = by_not (configured dt x.provider) (passes _ _ b.0);
      query = passes _ _ c.0;
      threshold = passes _ _ d.0;
    } in
    (first, d.1)

check_health-IsChecked :
    (dt : Option DynatraceConfig) (hs : List AppHealthCheck) {h : AppHealthCheck}
    → check_health dt hs ≡ none
    → Memᴰ h hs
    → IsChecked dt h
check_health-IsChecked dt [] e m = absurd (not-nil m)
check_health-IsChecked dt (x ∷ hs) {h} e (head same) =
    let first = (health_head dt x hs e).0 in
    record {
      provided = ap (λ y. configured dt y.provider) same ∙ first.provided;
      query = ap (λ y. is_blank y.query) same ∙ first.query;
      threshold = ap (λ y. is_blank y.threshold) same ∙ first.threshold;
    }
check_health-IsChecked dt (x ∷ hs) {h} e (tail m) =
    check_health-IsChecked dt hs {h = h} (health_head dt x hs e).1 m

-- Every app has an environment, its health checks are complete, and no two apps have one kustomize path,
-- the empty one aside.
abbrev pub WellConfigured : Option DynatraceConfig → List FileApp → Type 0
WellConfigured dt [] = Unit {0}
WellConfigured dt (a ∷ apps) =
    (a.environment ≢ "")
    × ((h : AppHealthCheck) → Memᴰ h a.health_checks → IsChecked dt h)
    × ((b : FileApp) → Memᴰ b apps → b.kustomize_path ≢ "" → b.kustomize_path ≢ a.kustomize_path)
    × WellConfigured dt apps

later_free :
    (a b : FileApp) (taken : List String)
    → some_of (λ p. p == b.kustomize_path) (a.kustomize_path ∷ taken) ≡ false
    → some_of (λ p. p == b.kustomize_path) taken ≡ false
unfolding some_of
later_free a b taken h = ground (arith, h)

other_path :
    (a b : FileApp) (taken : List String)
    → some_of (λ p. p == b.kustomize_path) (a.kustomize_path ∷ taken) ≡ false
    → b.kustomize_path ≢ a.kustomize_path
unfolding some_of
other_path a b taken h same = ground (arith, h, eq_iff a.kustomize_path b.kustomize_path, sym same)

module _ (compiles : String → Bool) (dt : Option DynatraceConfig) where
  -- The checks of the first app, apart.
  record FirstChecks (taken : List String) (a : FileApp) (apps : List FileApp) : Type 0 where
    has_environment : (a.environment == "") ≡ false
    healthy : check_health dt a.health_checks ≡ none
    pathless : (a.kustomize_path == "") ≡ true → check_apps compiles dt taken apps ≡ none
    with_path :
        (a.kustomize_path == "") ≡ false
        → (some_of (λ p. p == a.kustomize_path) taken ≡ false)
          × (check_apps compiles dt (a.kustomize_path ∷ taken) apps ≡ none)

  first_checks :
      (taken : List String) (a : FileApp) (apps : List FileApp)
      → check_apps compiles dt taken (a ∷ apps) ≡ none
      → FirstChecks taken a apps
  unfolding check_apps
  first_checks taken a apps h =
      let p = both (failing (a.environment == "") "environment") _ h in
      let q = both (failing (malformed compiles a.tag_pattern) "tag_pattern") _ p.1 in
      let r = both (check_health dt a.health_checks) paths q.1 in
      record {
        has_environment = passes _ _ p.0;
        healthy = r.0;
        pathless = λ e. by_path (a.kustomize_path == "") e r.1;
        with_path = λ e.
            let s =
              both (failing taken_path "kustomize_path") _
                (by_path (a.kustomize_path == "") e r.1) in
            (passes taken_path "kustomize_path" s.0, s.1);
      }
    where
      taken_path : Bool
      taken_path = some_of (λ p. p == a.kustomize_path) taken

      pathless : Option String
      pathless = check_apps compiles dt taken apps

      with_path : Option String
      with_path =
          then_check (failing taken_path "kustomize_path")
            (check_apps compiles dt (a.kustomize_path ∷ taken) apps)

      paths : Option String
      paths = if a.kustomize_path == "" then pathless else with_path

      by_path :
          (b : Bool) {c : Bool}
          → b ≡ c
          → (if b then pathless else with_path) ≡ none
          → (if c then pathless else with_path) ≡ none
      by_path b e h = ap (λ x. if x then pathless else with_path) (sym e) ∙ h

  -- No app of a list that passes has a path that was taken.
  untaken :
      (taken : List String) (apps : List FileApp) {b : FileApp}
      → check_apps compiles dt taken apps ≡ none
      → Memᴰ b apps
      → (b.kustomize_path == "") ≡ false
      → some_of (λ p. p == b.kustomize_path) taken ≡ false
  untaken taken [] h m e = absurd (not-nil m)
  untaken taken (a ∷ apps) {b} h (head same) e =
      let a_path = ap (λ x. x.kustomize_path == "") (sym same) ∙ e in
      ap (λ x. some_of (λ p. p == x.kustomize_path) taken) same
      ∙ ((first_checks taken a apps h).with_path a_path).0
  untaken taken (a ∷ apps) {b} h (tail m) e = elim (Bool-cases (a.kustomize_path == "")) [
    | inl blank ↦ untaken taken apps {b = b} ((first_checks taken a apps h).pathless blank) m e
    | inr filled ↦
        let rest = ((first_checks taken a apps h).with_path filled).1 in
        let free = untaken (a.kustomize_path ∷ taken) apps {b = b} rest m e in
        later_free a b taken free
  ]

  check_apps-WellConfigured :
      (taken : List String) (apps : List FileApp)
      → check_apps compiles dt taken apps ≡ none
      → WellConfigured dt apps
  check_apps-WellConfigured taken [] h = tt
  check_apps-WellConfigured taken (a ∷ apps) h =
      let first = first_checks taken a apps h in
      let named : a.environment ≢ "" =
        ground (arith, first.has_environment, eq_iff a.environment "") in
      elim (Bool-cases (a.kustomize_path == "")) [
        | inl blank ↦ (
          named,
          λ x. check_health-IsChecked dt a.health_checks first.healthy,
          λ b m filled same. filled (same ∙ (eq_iff a.kustomize_path "").0 blank),
          check_apps-WellConfigured taken apps (first.pathless blank),
        )
        | inr path ↦
            let rest = (first.with_path path).1 in
            (
              named,
              λ x. check_health-IsChecked dt a.health_checks first.healthy,
              λ b m filled.
                  let b_path : (b.kustomize_path == "") ≡ false =
                    ground (arith, filled, eq_iff b.kustomize_path "") in
                  other_path a b taken
                    (untaken (a.kustomize_path ∷ taken) apps {b = b} rest m b_path),
              check_apps-WellConfigured (a.kustomize_path ∷ taken) apps rest,
            )
      ]

-- In a file that loads every app has an environment and health checks that name a configured
-- provider, a query and a threshold, and no two apps have one kustomize path, the empty one aside.
pub load_error-WellConfigured :
    (is_duration compiles is_level is_format : String → Bool) (c : FileConfig)
    → load_error is_duration compiles is_level is_format c ≡ none
    → WellConfigured c.dynatrace c.apps
unfolding load_error
load_error-WellConfigured is_duration compiles is_level is_format c h =
    let checks = file_checks is_duration compiles is_level is_format c in
    check_apps-WellConfigured compiles c.dynatrace [] c.apps (both (first_error checks) _ h).1
