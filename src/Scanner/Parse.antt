-- ===== src/Scanner/Parse.antt =====
pub mod Laws
-- parseRepoConfig of internal/reposcanner/validate.go, from the decoded file on: what a repository's
-- .deploy-bot.json registers. Messages are left out.
use deploy_bot.Prelude.{
  ℕ, zero, suc, String, Bool, true, false, not, ◌&&◌, Option, none, some, List, [], ◌∷◌, ◌==◌, map,
  eqb, ◌++◌, if◌then◌else◌,
}
use Prim.Native.Char.{code}
use deploy_bot.Config.Discovery.{RepoDiscoveryConfig, is_exempt_repo, kustomize_path_for_repo}
use deploy_bot.RepoConfig.{
  AppEntry, ValidationError, ValidateOpts, validate_with_opts, apply_defaults, valid_entries,
}

-- The decoded file.
pub record RepoConfigFile : Type 0 where
  pub api_version : String
  pub apps : List AppEntry

-- DiscoveredAppConfig: the fields of the app, and where it comes from.
pub record DiscoveredApp : Type 0 where
  pub app : String
  pub environment : String
  pub kustomize_path : String
  pub ecr_repo : String
  pub tag_pattern : String
  pub auto_deploy : Bool
  pub source_repo : String

-- What follows the last slash, where there is one.
after_slash : String → Option String
after_slash String.[] = none
after_slash (String.◌∷◌ c s) = elim (after_slash s) [
  | some r ↦ some r
  | none ↦ if eqb (code c) b'/' then some s else none
]

pub short_name : String → String
unfolding after_slash
short_name repo = elim (after_slash repo) [ some r ↦ r | none ↦ repo ]

-- The options for a repository.
pub opts_of : RepoDiscoveryConfig → String → ValidateOpts
unfolding short_name is_exempt_repo kustomize_path_for_repo
opts_of c repo = record {
  repo_naming = c.enforce_repo_naming;
  repo_name = short_name repo;
  exempt = is_exempt_repo c repo;
  kustomize_path_fn = if c.enforce_repo_naming then some (kustomize_path_for_repo c) else none;
  default_tag_pattern = c.default_tag_pattern;
}

-- The options with a tag pattern and nothing else.
abbrev pattern_opts : String → ValidateOpts
pattern_opts pattern = record {
  repo_naming = false;
  repo_name = "";
  exempt = false;
  kustomize_path_fn = none;
  default_tag_pattern = pattern;
}

-- The entries with what is derived filled in. Only version 2 gets here.
pub completed : RepoDiscoveryConfig → String → List AppEntry → List AppEntry
unfolding apply_defaults opts_of is_exempt_repo
completed c repo es =
    if c.enforce_repo_naming && not (is_exempt_repo c repo)
    then apply_defaults (opts_of c repo) es
    else if c.default_tag_pattern == ""
    then es
    else apply_defaults (pattern_opts c.default_tag_pattern) es

abbrev pub discovered : String → AppEntry → DiscoveredApp
discovered repo e = record {
  app = e.app;
  environment = e.environment;
  kustomize_path = e.kustomize_path;
  ecr_repo = e.ecr_repo;
  tag_pattern = e.tag_pattern;
  auto_deploy = e.auto_deploy;
  source_repo = repo;
}

-- The entry at each index.
pub at_index : ℕ → List AppEntry → List AppEntry
at_index n [] = []
at_index zero (e ∷ es) = e ∷ []
at_index (suc n) (e ∷ es) = at_index n es

pub at_indices : List ℕ → List AppEntry → List AppEntry
unfolding at_index
at_indices [] es = []
at_indices (i ∷ is) es = at_index i es ++ at_indices is es

module _ (compiles : String → Bool) (c : RepoDiscoveryConfig) (repo : String) where
  pub registered_entries : List AppEntry → List ValidationError → List DiscoveredApp
  unfolding completed at_indices valid_entries
  registered_entries es errs =
      map (discovered repo)
        (at_indices (valid_entries (completed c repo es) errs) (completed c repo es))

  -- The apps and the errors; `none` is the error of a version that is not supported.
  unfoldable pub parse_repo_config :
      RepoConfigFile → Option (List DiscoveredApp × List ValidationError)
  unfolding registered_entries validate_with_opts opts_of
  parse_repo_config file =
      let errs = validate_with_opts compiles (opts_of c repo) file.apps in
      if file.api_version == "deploy-bot/v2"
      then some (registered_entries file.apps errs, errs)
      else none
