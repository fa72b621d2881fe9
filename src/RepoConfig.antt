-- ===== src/RepoConfig.antt =====
pub mod Laws
pub mod Naming
-- internal/repoconfig/repoconfig.go: the validation of a repository's .deploy-bot.json. Whether a
-- regular expression compiles is a parameter. Messages are left out.
use Prim.Native.String.{◌++◌ as append}
use deploy_bot.Prelude.Int.{ℤ, pos, negsuc}
use deploy_bot.Prelude.Text.{trim_space}
use deploy_bot.Prelude.{
  ℕ, zero, suc, ◌+◌, String, Bool, int_eq, true, false, not, ◌&&◌, ◌||◌, Option, none, some, List,
  [], ◌∷◌, ◌++◌, ◌==◌, some_of, map, eqb, leb, if◌then◌else◌,
}

pub record AppEntry : Type 0 where
  pub app : String
  pub environment : String
  pub kustomize_path : String
  pub ecr_repo : String
  pub tag_pattern : String
  pub auto_deploy : Bool

pub record ValidationError : Type 0 where
  pub index : ℤ
  pub app : String
  pub field : String

pub record ValidateOpts : Type 0 where
  pub repo_naming : Bool
  pub repo_name : String
  pub exempt : Bool
  pub kustomize_path_fn : Option (String → String → String)
  pub default_tag_pattern : String

unfoldable pub derived_kustomize_path : ValidateOpts → String → String → String
derived_kustomize_path opts repo env = elim opts.kustomize_path_fn [
  | some f ↦ f repo env
  | none ↦ append env (append "/" (append repo "/kustomization.yaml"))
]

-- What the checks of one entry by itself give: the app and the field at fault, or the app, the
-- environment and the path that the entry stands for.
pub data Verdict : Type 0 where
  refused : String → String → Verdict
  checked : String → String → String → Verdict

module _ (compiles : String → Bool) (opts : ValidateOpts) where
  tag_pattern_of : AppEntry → String
  tag_pattern_of e = if e.tag_pattern == "" then opts.default_tag_pattern else e.tag_pattern

  check_rest : AppEntry → String → String → String → Verdict
  unfolding tag_pattern_of trim_space
  check_rest e app env path =
      if trim_space e.ecr_repo == ""
      then refused app "ecr_repo"
      else if not (tag_pattern_of e == "") && not (compiles (tag_pattern_of e))
      then refused app "tag_pattern"
      else checked app env path

  -- The path of an entry whose app is settled.
  pub check_path : AppEntry → String → String → Verdict
  unfolding check_rest derived_kustomize_path trim_space
  check_path e app env =
      let path = trim_space e.kustomize_path in
      let derived = derived_kustomize_path opts opts.repo_name env in
      if path == ""
      then check_rest e app env derived
      else if path == derived
      then check_rest e app env path
      else refused app "kustomize_path"

  -- Under enforced naming, app and path are derived or agree with what is derived.
  pub check_named : AppEntry → String → String → Verdict
  unfolding check_path
  check_named e app env =
      if env == ""
      then refused app "environment"
      else if app == ""
      then check_path e opts.repo_name env
      else if app == opts.repo_name
      then check_path e app env
      else refused app "app"

  check_free : AppEntry → String → String → String → Verdict
  unfolding check_rest
  check_free e app env path =
      if app == ""
      then refused "" "app"
      else if env == ""
      then refused app "environment"
      else if path == ""
      then refused app "kustomize_path"
      else check_rest e app env path

  unfoldable pub check_entry : AppEntry → Verdict
  unfolding check_named check_free trim_space
  check_entry e =
      if opts.repo_naming && not opts.exempt
      then check_named e (trim_space e.app) (trim_space e.environment)
      else check_free e (trim_space e.app) (trim_space e.environment) (trim_space e.kustomize_path)

-- The errors so far and the keys of the maps `seen` and `kpaths`, the newest first.
pub record Progress : Type 0 where
  pub errors : List ValidationError
  pub seen : List String
  pub kpaths : List String

abbrev pub is_in : String → List String → Bool
is_in s = some_of (λ t. t == s)

-- The key of `seen`.
unfoldable pub entry_key : String → String → String
entry_key app env = append app (append "\0" env)

abbrev pub add_error : ℕ → String → String → Progress → Progress
add_error i app field st = record st {
  errors = st.errors ++ (record { index = pos i; app = app; field = field }) ∷ [];
}

-- Whether the path is taken.
pub note_path : Bool → ℕ → String → String → Progress → Progress
note_path true i app path st = add_error i app "kustomize_path" st
note_path false i app path st = record st { kpaths = path ∷ st.kpaths }

-- Whether the app and the environment are taken.
pub note_key : Bool → ℕ → String → String → String → Progress → Progress
unfolding note_path some_of
note_key true i app env path st = add_error i app "app+environment" st
note_key false i app env path st =
    note_path (is_in path st.kpaths) i app path (record st { seen = entry_key app env ∷ st.seen })

pub note : ℕ → Verdict → Progress → Progress
unfolding note_key some_of
note i (refused app field) st = add_error i app field st
note i (checked app env path) st = note_key (is_in (entry_key app env) st.seen) i app env path st

module _ (compiles : String → Bool) (opts : ValidateOpts) where
  pub validate_from : ℕ → List AppEntry → Progress → Progress
  unfolding note
  validate_from i [] st = st
  validate_from i (e ∷ es) st = validate_from (i + 1) es (note i (check_entry compiles opts e) st)

  -- ValidateWithOpts
  unfoldable pub validate_with_opts : List AppEntry → List ValidationError
  unfolding validate_from
  validate_with_opts es =
      (validate_from 0 es (record { errors = []; seen = []; kpaths = [] })).errors

-- One entry of ApplyDefaults.
unfoldable pub with_defaults : ValidateOpts → AppEntry → AppEntry
unfolding derived_kustomize_path trim_space
with_defaults opts e =
    let env = trim_space e.environment in
    record e {
      app = if trim_space e.app == "" then opts.repo_name else e.app;
      kustomize_path =
          if trim_space e.kustomize_path == "" && not (env == "")
          then derived_kustomize_path opts opts.repo_name env
          else e.kustomize_path;
      tag_pattern = if e.tag_pattern == "" then opts.default_tag_pattern else e.tag_pattern;
    }

unfoldable pub apply_defaults : ValidateOpts → List AppEntry → List AppEntry
unfolding with_defaults
apply_defaults opts = map (with_defaults opts)

abbrev pub has_error : ℤ → List ValidationError → Bool
has_error i = some_of (λ e. int_eq e.index i)

abbrev pub is_file_level : ValidationError → Bool
is_file_level e = elim e.index [ pos n ↦ false | negsuc n ↦ true ]

pub valid_from : ℕ → List AppEntry → List ValidationError → List ℕ
unfolding some_of int_eq
valid_from i [] errs = []
valid_from i (e ∷ es) errs =
    let rest = valid_from (i + 1) es errs in if has_error (pos i) errs then rest else i ∷ rest

-- ValidEntries
unfoldable pub valid_entries : List AppEntry → List ValidationError → List ℕ
unfolding valid_from some_of
valid_entries es errs = if some_of is_file_level errs then [] else valid_from 0 es errs
