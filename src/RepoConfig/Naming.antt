-- ===== src/RepoConfig/Naming.antt =====
-- What enforced naming leaves of an entry that passes the validation.
use deploy_bot.Prelude.Text.{trim_space}
use deploy_bot.Prelude.{
  String, ◌≡◌, refl, Bool, true, false, not, ◌&&◌, ◌==◌, if◌then◌else◌, arith, eq_iff, ◌⊎◌, inl,
  inr,
}
use deploy_bot.RepoConfig.{
  AppEntry, ValidateOpts, checked, check_entry, check_named, check_path, derived_kustomize_path,
  with_defaults,
}

-- A text is the expected one, blanks around it aside.
abbrev pub IsTrimmed : String → String → Type 0
IsTrimmed s expected = (s ≡ expected) ⊎ (trim_space s ≡ expected)

filled_in :
    (b : Bool) (s expected : String)
    → (b ≡ true) ⊎ ((trim_space s == expected) ≡ true)
    → IsTrimmed (if b then expected else s) expected
filled_in true s expected h = inl refl
filled_in false s expected (inl e) = cc
filled_in false s expected (inr e) = inr ((eq_iff (trim_space s) expected).0 e)

taken_branch {ℓ} :
    {A : Type ℓ} {x z : A} (b : Bool) (y : A) → b ≡ true → (if b then x else y) ≡ z → x ≡ z
taken_branch true y e h = h
taken_branch false y e h = cc

module _ (compiles : String → Bool) (opts : ValidateOpts) where
  abbrev derived : AppEntry → String
  derived e = derived_kustomize_path opts opts.repo_name (trim_space e.environment)

  -- Of a path only the blank one and the derived one pass.
  path_passes :
      (e : AppEntry) (app env : String) {x y z : String}
      → check_path compiles opts e app env ≡ checked x y z
      → ((trim_space e.kustomize_path == "") ≡ true)
        ⊎ ((trim_space e.kustomize_path == derived_kustomize_path opts opts.repo_name env) ≡ true)
  unfolding check_path
  path_passes e app env h = ground (arith, h)

  named_passes :
      (e : AppEntry) (app env : String) {x y z : String}
      → check_named compiles opts e app env ≡ checked x y z
      → (((app == "") ≡ true) ⊎ ((app == opts.repo_name) ≡ true))
        × ((env == "") ≡ false)
        × (((trim_space e.kustomize_path == "") ≡ true)
            ⊎ ((trim_space e.kustomize_path == derived_kustomize_path opts opts.repo_name env)
                ≡ true))
  unfolding check_named
  named_passes e app env h =
      ground (arith, h, path_passes e app env, path_passes e opts.repo_name env)

  -- An entry that passes has, with its defaults, the name and the path that are derived.
  pub with_defaults-IsTrimmed :
      (e : AppEntry) {x y z : String}
      → opts.repo_naming ≡ true
      → opts.exempt ≡ false
      → check_entry compiles opts e ≡ checked x y z
      → IsTrimmed (with_defaults opts e).app opts.repo_name
        × IsTrimmed (with_defaults opts e).kustomize_path (derived e)
  unfolding check_entry with_defaults
  with_defaults-IsTrimmed e naming bound h =
      let named = check_named compiles opts e (trim_space e.app) (trim_space e.environment) in
      let p =
        named_passes e (trim_space e.app) (trim_space e.environment) (
          taken_branch (opts.repo_naming && not opts.exempt) _ (ground (arith, naming, bound)) h) in
      let blank = trim_space e.kustomize_path == "" in
      (
        filled_in (trim_space e.app == "") e.app opts.repo_name p.0,
        filled_in (blank && not (trim_space e.environment == "")) e.kustomize_path (derived e)
            (ground (arith, p.1, p.2)),
      )
