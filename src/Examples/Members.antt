-- ===== src/Examples/Members.antt =====
-- A directory of two people, and who is a member.
use deploy_bot.Prelude.{
  String, ◌≡◌, refl, ◌↔◌, true, false, none, some, [], ◌∷◌, ◌==◌, arith, if◌then◌else◌,
}
use deploy_bot.World.{membership, resolved}
use deploy_bot.Validator.{
  Directory, AuthorizationEntry, ParsedAuthorization, add_entry, parse_auth_values, auth_of, cached,
  is_member, resolve_identity,
}
use deploy_bot.Validator.Laws.{Authorized, is_positive, is_member_iff, resolve_identity-cached}
use deploy_bot.Examples.Samples.{Keys, memory, ada}

-- The JSON text of the one identity.
abbrev encoded : String
encoded = "{\"github_login\":\"ada\",\"email\":\"ada@acme.test\",\"name\":\"Ada\"}"

abbrev office : Directory
office = record {
  user_info = λ user.
      if user == "U1" then some (record { email = "ada@acme.test"; real_name = "Ada" }) else none;
  search_users = λ query. some ("ada" ∷ []);
  group_members = λ g. none;
  team_state = λ team login. if team == "deployers" then some (some "active") else some none;
  identity_override = λ user. none;
  equal_fold = λ a b. a == b;
  encode = λ i. some encoded;
  decode = λ text. if text == encoded then some ada else none;
}

abbrev team_entry : AuthorizationEntry
team_entry = record { kind = "github_teams"; value = "deployers" ∷ [] }

abbrev team : ParsedAuthorization
team = auth_of (team_entry ∷ [])

abbrev empty_keys : Keys
empty_keys = λ k. none

is_member_test :
    (is_member memory false false office team "U1" empty_keys 0).0 ≡ membership true ada
unfolding is_member auth_of parse_auth_values add_entry
is_member_test = refl

is_member_iff_example :
    (is_positive (is_member memory false false office team "U1" empty_keys 0).0 ≡ true)
    ↔ Authorized memory false false office team "U1" empty_keys 0
is_member_iff_example = is_member_iff memory false false office team "U1" empty_keys 0

resolve_identity-cached_example :
    let later = (resolve_identity memory false false office "U1" empty_keys 0).1 in
    resolve_identity memory false false office "U1" later 60_000 ≡ (resolved ada, later)
unfolding resolve_identity
resolve_identity-cached_example =
    resolve_identity-cached memory false false office "U1" empty_keys 0 60_000 {i = ada}
      {text = encoded} refl refl (unfold cached in refl) (omega arith) refl refl refl office
      (λ s. refl)
