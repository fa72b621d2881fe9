-- ===== src/Scanner/Parse/Laws.antt =====
-- What a repository may register under enforced naming.
use mathlib.Core.List.{Memᴰ}
use mathlib.Core.List.Memᴰ.{head, tail, not-nil}
use deploy_bot.Prelude.{
  ℕ, zero, suc, ◌+◌, String, ◌≡◌, refl, sym, ap, Bool, true, false, Option, none, some, List, [],
  ◌∷◌, ◌++◌, map, ◌==◌, ◌⊎◌, inl, inr, arith, if◌then◌else◌,
}
use deploy_bot.Prelude.Text.{trim_space}
use deploy_bot.Config.Discovery.{RepoDiscoveryConfig, is_exempt_repo, kustomize_path_for_repo}
use deploy_bot.RepoConfig.{
  AppEntry, ValidationError, with_defaults, apply_defaults, validate_with_opts, valid_entries,
  derived_kustomize_path,
}
use deploy_bot.RepoConfig.Laws.{nth, later-free, valid_entries-Memᴰ, moved}
use deploy_bot.RepoConfig.Naming.{IsTrimmed, with_defaults-IsTrimmed}
use deploy_bot.Scanner.Parse.{
  RepoConfigFile, DiscoveredApp, short_name, opts_of, completed, discovered, at_index, at_indices,
  registered_entries, parse_repo_config,
}

map-Memᴰ :
    {A : Type 0} {B : Type 0} (f : A → B) (xs : List A) {y : B}
    → Memᴰ y (map f xs)
    → (x : A) × Memᴰ x xs × (y ≡ f x)
map-Memᴰ f [] m = absurd (not-nil m)
map-Memᴰ f (x ∷ xs) (head same) = (x, head refl, same)
map-Memᴰ f (x ∷ xs) (tail m) = let r = map-Memᴰ f xs m in (r.0, tail r.1, r.2)

-- What `at_index` finds is the entry at the index.
at_index-nth :
    (i : ℕ) (es : List AppEntry) (more : List AppEntry) {e : AppEntry}
    → Memᴰ e (at_index i es ++ more)
    → (nth i es ≡ some e) ⊎ Memᴰ e more
unfolding at_index
at_index-nth i [] more m = inr m
at_index-nth zero (x ∷ es) more (head same) = inl (ap some (sym same))
at_index-nth zero (x ∷ es) more (tail m) = inr m
at_index-nth (suc i) (x ∷ es) more m = at_index-nth i es more m

at_indices-Memᴰ :
    (is : List ℕ) (es : List AppEntry) {e : AppEntry}
    → Memᴰ e (at_indices is es)
    → (i : ℕ) × Memᴰ i is × (nth i es ≡ some e)
unfolding at_indices
at_indices-Memᴰ [] es m = absurd (not-nil m)
at_indices-Memᴰ (i ∷ is) es {e} m = elim (at_index-nth i es (at_indices is es) m) [
  | inl at ↦ (i, head refl, at)
  | inr n ↦ let r = at_indices-Memᴰ is es {e = e} n in (r.0, tail r.1, r.2)
]

nth-map :
    (f : AppEntry → AppEntry) (i : ℕ) (es : List AppEntry) {a : AppEntry}
    → nth i (map f es) ≡ some a
    → (e : AppEntry) × (nth i es ≡ some e) × (f e ≡ a)
nth-map f i [] h = cc
nth-map f zero (e ∷ es) h = (e, refl, cc)
nth-map f (suc i) (e ∷ es) {a} h = nth-map f i es {a = a} h

supported :
    (b : Bool) (xs : List DiscoveredApp) (es : List ValidationError) {apps : List DiscoveredApp}
    {errs : List ValidationError}
    → if◌then◌else◌ {A = Option (List DiscoveredApp × List ValidationError)} b (some (xs, es)) none
      ≡ some (apps, errs)
    → xs ≡ apps
supported true xs es h = cc
supported false xs es h = cc

-- The app has the name of the repository and the path derived for it, blanks around them aside.
pub record IsNamed (c : RepoDiscoveryConfig) (repo : String) (d : DiscoveredApp) : Type 0 where
  pub app : IsTrimmed d.app (short_name repo)
  pub path :
      IsTrimmed d.kustomize_path
        (kustomize_path_for_repo c (short_name repo) (trim_space d.environment))
  pub source : d.source_repo ≡ repo

module _ (compiles : String → Bool) (c : RepoDiscoveryConfig) (repo : String) where
  derived_path :
      (name env : String)
      → c.enforce_repo_naming ≡ true
      → derived_kustomize_path (opts_of c repo) name env ≡ kustomize_path_for_repo c name env
  unfolding derived_kustomize_path opts_of
  derived_path name env enforced = ground (arith, enforced)

  defaults-IsNamed :
      (e : AppEntry)
      → c.enforce_repo_naming ≡ true
      → IsTrimmed (with_defaults (opts_of c repo) e).app (short_name repo)
      → IsTrimmed
          (with_defaults (opts_of c repo) e).kustomize_path
          (derived_kustomize_path (opts_of c repo) (short_name repo) (trim_space e.environment))
      → IsNamed c repo (discovered repo (with_defaults (opts_of c repo) e))
  unfolding with_defaults
  defaults-IsNamed e enforced app path = record {
    app = app;
    path = rw⁻¹ (derived_path (short_name repo) (trim_space e.environment) enforced) path;
    source = refl;
  }

  entry-IsNamed :
      (es : List AppEntry)
      → c.enforce_repo_naming ≡ true
      → is_exempt_repo c repo ≡ false
      → (i : ℕ)
      → Memᴰ i (
          valid_entries
            (apply_defaults (opts_of c repo) es)
            (validate_with_opts compiles (opts_of c repo) es))
      → {a : AppEntry} → nth i (apply_defaults (opts_of c repo) es) ≡ some a
      → IsNamed c repo (discovered repo a)
  unfolding apply_defaults validate_with_opts opts_of
  entry-IsNamed es enforced bound i m {a} at =
      let opts = opts_of c repo in
      let errs = validate_with_opts compiles opts es in
      let v = valid_entries-Memᴰ compiles opts (apply_defaults opts es) errs {i = i} m in
      let r = nth-map (with_defaults opts) i es {a = a} at in
      let s =
        later-free compiles opts 0 i es (record { errors = []; seen = []; kpaths = [] }) {b = r.0}
          r.1 (moved {m = i} {n = 0 + i} errs (omega arith) v.2) in
      let n = with_defaults-IsTrimmed compiles opts r.0 enforced bound s.0.is_checked in
      rw⁻¹ r.2 (defaults-IsNamed r.0 enforced n.0 n.1)

  completed-enforced :
      (es : List AppEntry)
      → c.enforce_repo_naming ≡ true
      → is_exempt_repo c repo ≡ false
      → completed c repo es ≡ apply_defaults (opts_of c repo) es
  unfolding completed
  completed-enforced es enforced bound = ground (arith, enforced, bound)

  registered-IsNamed :
      (es : List AppEntry) {d : DiscoveredApp}
      → c.enforce_repo_naming ≡ true
      → is_exempt_repo c repo ≡ false
      → Memᴰ d
          (registered_entries compiles c repo es (validate_with_opts compiles (opts_of c repo) es))
      → IsNamed c repo d
  unfolding registered_entries
  registered-IsNamed es {d} enforced bound m =
      let es' = apply_defaults (opts_of c repo) es in
      let errs = validate_with_opts compiles (opts_of c repo) es in
      let m' : Memᴰ d (map (discovered repo) (at_indices (valid_entries es' errs) es')) =
        rw⁻¹ (completed-enforced es enforced bound) m in
      let r = map-Memᴰ (discovered repo) (at_indices (valid_entries es' errs) es') m' in
      let q = at_indices-Memᴰ (valid_entries es' errs) es' {e = r.0} r.1 in
      rw r.2 (entry-IsNamed es enforced bound q.0 q.1 {a = r.0} q.2)

  -- Under enforced naming a repository that is not exempt registers only apps under its own name and
  -- with the kustomize path that its name and the environment give, blanks around them aside.
  pub parse_repo_config-IsNamed :
      (file : RepoConfigFile) {apps : List DiscoveredApp} {errs : List ValidationError}
      {d : DiscoveredApp}
      → c.enforce_repo_naming ≡ true
      → is_exempt_repo c repo ≡ false
      → parse_repo_config compiles c repo file ≡ some (apps, errs)
      → Memᴰ d apps
      → IsNamed c repo d
  unfolding parse_repo_config
  parse_repo_config-IsNamed file {apps} {errs} {d} enforced bound h m =
      let all = validate_with_opts compiles (opts_of c repo) file.apps in
      let same =
        supported (file.api_version == "deploy-bot/v2")
          (registered_entries compiles c repo file.apps all) all h in
      registered-IsNamed file.apps enforced bound (rw same m)
