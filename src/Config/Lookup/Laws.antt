-- ===== src/Config/Lookup/Laws.antt =====
-- The lookups agree with one another.
use deploy_bot.Prelude.{
  String, ◌≡◌, refl, ◌∙◌, Bool, true, false, Option, none, some, List, [], ◌∷◌, ◌==◌, select,
  find_first, some_of, some_of-sort_by, map, head?, arith,
}
use deploy_bot.Config.{AppConfig, Config}
use deploy_bot.Config.Lookup.{
  str_leb, from_repo, is_components, app_by_ecr_repo, apps_by_ecr_repo, environments_for_app,
  apps_for_environment, app_by_components,
}

find_first-select :
    (p : AppConfig → Bool) (xs : List AppConfig) → find_first p xs ≡ head? (select p xs)
unfolding find_first select
find_first-select p [] = refl
find_first-select p (x ∷ xs) = ground (arith, find_first-select p xs)

-- AppByECRRepo is the first of AppsByECRRepo.
app_by_ecr_repo-apps_by_ecr_repo :
    (c : Config) (repo : String) → app_by_ecr_repo c repo ≡ head? (apps_by_ecr_repo c repo)
unfolding app_by_ecr_repo apps_by_ecr_repo
app_by_ecr_repo-apps_by_ecr_repo c repo = find_first-select (from_repo repo) c.apps

abbrev is_found : Option AppConfig → Bool
is_found none = false
is_found (some a) = true

environments-found :
    (app env : String) (xs : List AppConfig)
    → some_of (λ e. e == env) (map (λ a. a.environment) (select (λ a. a.app == app) xs))
      ≡ is_found (find_first (is_components app env) xs)
unfolding some_of find_first select
environments-found app env [] = refl
environments-found app env (x ∷ xs) = ground (arith, environments-found app env xs)

apps-found :
    (app env : String) (xs : List AppConfig)
    → some_of (λ n. n == app) (map (λ a. a.app) (select (λ a. a.environment == env) xs))
      ≡ is_found (find_first (is_components app env) xs)
unfolding some_of find_first select
apps-found app env [] = refl
apps-found app env (x ∷ xs) = ground (arith, apps-found app env xs)

-- The options of the deploy modal: an environment is offered for an app, and the app for the
-- environment, exactly when AppByComponents finds the pair.
environments_for_app-app_by_components :
    (c : Config) (app env : String)
    → (some_of (λ e. e == env) (environments_for_app c app)
        ≡ is_found (app_by_components c app env))
      × (some_of (λ n. n == app) (apps_for_environment c env)
          ≡ is_found (app_by_components c app env))
unfolding environments_for_app apps_for_environment app_by_components
environments_for_app-app_by_components c app env = (
  some_of-sort_by str_leb (λ e. e == env) _ ∙ environments-found app env c.apps,
  some_of-sort_by str_leb (λ n. n == app) _ ∙ apps-found app env c.apps,
)
