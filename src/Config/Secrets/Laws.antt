-- ===== src/Config/Secrets/Laws.antt =====
-- What validated secrets are good for.
use deploy_bot.Prelude.Int.{pos, int_eq}
use deploy_bot.Prelude.Text.{codes, contains}
use deploy_bot.Prelude.{
  ◌+◌, String, ◌≡◌, refl, Bool, true, false, not, List, [], ◌∷◌, ◌++◌, ◌==◌, ◌&&◌, eqb, ltb,
  if◌then◌else◌,
}
use deploy_bot.Config.Secrets.{
  Secrets, one_if, use_github_app, app_fields, error_if, slack_errors, github_errors, redis_errors,
  postgres_errors, validate,
}

both_empty : (xs ys : List String) → xs ++ ys ≡ [] → (xs ≡ []) × (ys ≡ [])
both_empty [] ys h = (refl, h)
both_empty (x ∷ xs) ys h = cc

silent : (b : Bool) (e : String) → error_if b e ≡ [] → b ≡ false
unfolding error_if
silent true e h = cc
silent false e h = refl

-- The secrets are enough to reach GitHub and Postgres.
pub record IsUsable (s : Secrets) : Type 0 where
  github_app :
      use_github_app s ≡ true
      → (int_eq s.github_app_installation_id (pos 0) ≡ false)
        × ((s.github_app_private_key == "") ≡ false)
  pub github_token : use_github_app s ≡ false → (s.github_token == "") ≡ false
  pub postgres : (s.postgres_password == "") ≡ s.postgres_iam_auth
  region : s.postgres_iam_auth ≡ true → (s.postgres_rds_region == "") ≡ false

-- Neither one nor two of three tests hold: when the first does, so do the others.
all_three :
    (a i k : Bool)
    → (ltb 0 (one_if (not a) + one_if (not i) + one_if (not k))
        && ltb (one_if (not a) + one_if (not i) + one_if (not k)) 3)
      ≡ false
    → not a ≡ true
    → (i ≡ false) × (k ≡ false)
all_three true _ _ h e = cc
all_three false false false h e = (refl, refl)
all_three false false true h e = cc
all_three false true false h e = cc
all_three false true true h e = cc

none_left :
    (a i k t : Bool)
    → (ltb 0 (one_if (not a) + one_if (not i) + one_if (not k))
        && ltb (one_if (not a) + one_if (not i) + one_if (not k)) 3)
      ≡ false
    → (t && eqb (one_if (not a) + one_if (not i) + one_if (not k)) 0) ≡ false
    → not a ≡ false
    → t ≡ false
none_left _ _ _ false h g e = refl
none_left false _ _ true h g e = cc
none_left true true true true h g e = cc
none_left true true false true h g e = cc
none_left true false true true h g e = cc
none_left true false false true h g e = cc

-- Not some of the app's credentials, and some credentials.
github_checks :
    (s : Secrets)
    → github_errors s ≡ []
    → ((ltb 0 (app_fields s) && ltb (app_fields s) 3) ≡ false)
      × ((s.github_token == "" && eqb (app_fields s) 0) ≡ false)
unfolding github_errors
github_checks s h =
    let part = error_if (ltb 0 (app_fields s) && ltb (app_fields s) 3) "github app set in part" in
    let key =
      error_if
        (eqb (app_fields s) 3 && not (contains (codes s.github_app_private_key) (codes "BEGIN")))
        "github_app_private_key is no PEM key" in
    let none = error_if (s.github_token == "" && eqb (app_fields s) 0) "no github credentials" in
    let a = both_empty (part ++ key) none h in
    let b = both_empty part key a.0 in (silent _ _ b.0, silent _ "no github credentials" a.1)

github_usable :
    (s : Secrets)
    → github_errors s ≡ []
    → (use_github_app s ≡ true
        → (int_eq s.github_app_installation_id (pos 0) ≡ false)
          × ((s.github_app_private_key == "") ≡ false))
      × (use_github_app s ≡ false → (s.github_token == "") ≡ false)
unfolding use_github_app app_fields
github_usable s h =
    let c = github_checks s h in
    let i = int_eq s.github_app_installation_id (pos 0) in
    let k = s.github_app_private_key == "" in
    (
      all_three (int_eq s.github_app_id (pos 0)) i k c.0,
      none_left (int_eq s.github_app_id (pos 0)) i k (s.github_token == "") c.0 c.1,
    )

by_not : (b : Bool) → not b ≡ false → b ≡ true
by_not true _ = refl
by_not false h = cc

postgres_usable :
    (s : Secrets)
    → postgres_errors s ≡ []
    → ((s.postgres_password == "") ≡ s.postgres_iam_auth)
      × (s.postgres_iam_auth ≡ true → (s.postgres_rds_region == "") ≡ false)
unfolding postgres_errors
postgres_usable s h = by_auth s.postgres_iam_auth h
  where
    by_auth :
        (b : Bool)
        → (if b
            then error_if (s.postgres_rds_region == "") "postgres_rds_region is required"
              ++ error_if (not (s.postgres_password == "")) "postgres_password is excluded"
            else error_if (s.postgres_password == "") "postgres_password is required")
          ≡ []
        → ((s.postgres_password == "") ≡ b) × (b ≡ true → (s.postgres_rds_region == "") ≡ false)
    by_auth true g =
        let a =
          both_empty (error_if (s.postgres_rds_region == "") "postgres_rds_region is required")
            (error_if (not (s.postgres_password == "")) "postgres_password is excluded") g in
        let p = silent (not (s.postgres_password == "")) "postgres_password is excluded" a.1 in
        (by_not (s.postgres_password == "") p, λ e. silent (s.postgres_rds_region == "") _ a.0)
    by_auth false g = (silent (s.postgres_password == "") _ g, λ e. cc)

-- Validated secrets name a GitHub app with all its credentials or a token, and for Postgres either
-- a password or, with IAM, a region and no password.
validate-IsUsable : (s : Secrets) → validate s ≡ [] → IsUsable s
unfolding validate
validate-IsUsable s h =
    let a =
      both_empty (slack_errors s ++ github_errors s ++ redis_errors s) (postgres_errors s) h in
    let b = both_empty (slack_errors s ++ github_errors s) (redis_errors s) a.0 in
    let c = both_empty (slack_errors s) (github_errors s) b.0 in
    let g = github_usable s c.1 in
    let p = postgres_usable s a.1 in
    record { github_app = g.0; github_token = g.1; postgres = p.0; region = p.1 }
