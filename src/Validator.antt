-- ===== src/Validator.antt =====
pub mod Laws
-- internal/validator/validator.go: who is a member, and the cache of identities in Redis. Slack,
-- GitHub, the JSON codec and strings.EqualFold are parameters.
use Prim.Native.String.{◌++◌ as append}
use deploy_bot.Prelude.{
  ℕ, String, Bool, true, false, not, ◌&&◌, ◌||◌, Option, none, some, List, [], ◌∷◌, ◌++◌, ◌==◌,
  some_of, if◌then◌else◌,
}
use deploy_bot.Store.Redis.{Redis}
use deploy_bot.World.{
  Identity, Membership, member_error, membership, Resolution, resolved, unresolved,
}

-- config.AuthorizationEntry and ParseAuthValues
pub record AuthorizationEntry : Type 0 where
  pub kind : String
  pub value : List String

pub record ParsedAuthorization : Type 0 where
  pub github_teams : List String
  pub github_users : List String
  pub slack_user_groups : List String
  pub slack_emails : List String

abbrev no_authorization : ParsedAuthorization
no_authorization = record {
  github_teams = [];
  github_users = [];
  slack_user_groups = [];
  slack_emails = [];
}

-- The values of one entry join those of its type; another type is an error.
unfoldable pub add_entry : AuthorizationEntry → ParsedAuthorization → Option ParsedAuthorization
add_entry e a =
    if e.kind == "github_teams"
    then some (record a { github_teams = a.github_teams ++ e.value })
    else if e.kind == "github_users"
    then some (record a { github_users = a.github_users ++ e.value })
    else if e.kind == "slack_user_groups"
    then some (record a { slack_user_groups = a.slack_user_groups ++ e.value })
    else if e.kind == "slack_emails"
    then some (record a { slack_emails = a.slack_emails ++ e.value })
    else none

parse_from : ParsedAuthorization → List AuthorizationEntry → Option ParsedAuthorization
parse_from a [] = some a
parse_from a (e ∷ es) = elim (add_entry e a) [ none ↦ none | some b ↦ parse_from b es ]

unfoldable pub parse_auth_values : List AuthorizationEntry → Option ParsedAuthorization
unfolding parse_from
parse_auth_values = parse_from no_authorization

-- An error leaves every source empty, and is logged.
unfoldable pub auth_of : List AuthorizationEntry → ParsedAuthorization
auth_of es = elim (parse_auth_values es) [ none ↦ no_authorization | some a ↦ a ]

pub record Profile : Type 0 where
  pub email : String
  pub real_name : String

-- The answers of the services; `none` is an error. A team membership that is not there (404) has
-- no state.
pub record Directory : Type 0 where
  pub user_info : String → Option Profile
  pub search_users : String → Option (List String)
  pub group_members : String → Option (List String)
  pub team_state : String → String → Option (Option String)
  pub identity_override : String → Option String
  pub equal_fold : String → String → Bool
  pub encode : Identity → Option String
  pub decode : String → Option Identity

abbrev pub identity_key : String → String
identity_key user = append "identity:" user

abbrev pub has_text : String → Bool
has_text s = not (s == "")

-- A cached identity counts when it has an email.
pub usable : Option Identity → Option Identity
usable none = none
usable (some i) = if i.email == "" then none else some i

-- The first user that the search finds.
login_found : Option (List String) → String
login_found none = ""
login_found (some []) = ""
login_found (some (login ∷ more)) = login

pub in_group : String → Option (List String) → Bool
unfolding some_of
in_group user none = false
in_group user (some members) = some_of (λ m. m == user) members

pub is_active : Option (Option String) → Bool
is_active none = false
is_active (some none) = false
is_active (some (some state)) = state == "active"

abbrev pub identity_of : Resolution → Identity
identity_of (unresolved i) = i
identity_of (resolved i) = i

abbrev pub is_filled : List String → Bool
is_filled [] = false
is_filled (x ∷ xs) = true

abbrev pub has_github : ParsedAuthorization → Bool
has_github auth = is_filled auth.github_users || is_filled auth.github_teams

module _ (dir : Directory) where
  pub decoded : Option String → Option Identity
  unfolding usable
  decoded none = none
  decoded (some text) = usable (dir.decode text)

  pub login_of : Option String → String → String
  unfolding login_found
  login_of (some login) email = login
  login_of none email = login_found (dir.search_users (append email " in:email"))

  -- The user's email is one of the configured ones.
  pub email_listed : List String → Option Profile → Bool
  unfolding some_of
  email_listed emails none = false
  email_listed emails (some p) = has_text p.email && some_of (λ e. dir.equal_fold e p.email) emails

  -- The GitHub sources are asked about the login, where there is one.
  pub github_member : ParsedAuthorization → Identity → Bool
  unfolding some_of is_active
  github_member auth i =
      has_text i.github_login
      && (some_of (λ l. dir.equal_fold l i.github_login) auth.github_users
          || some_of (λ t. is_active (dir.team_state t i.github_login)) auth.github_teams)

  -- The Slack sources are not asked where the list of emails is empty, which finds nobody anyway.
  pub slack_member : ParsedAuthorization → String → Bool
  unfolding email_listed in_group some_of
  slack_member auth user =
      email_listed auth.slack_emails (dir.user_info user)
      || some_of (λ g. in_group user (dir.group_members g)) auth.slack_user_groups

module _ {K : Type 0} (redis : Redis K) (read_fails write_fails : Bool) (dir : Directory) where
  unfoldable pub cached : String → K → ℕ → Option Identity
  unfolding decoded
  cached user keys now =
      if read_fails then none else decoded dir (redis.get keys now (identity_key user))

  -- The identity is written without a time to live; a failure is not looked at.
  pub write_cache : String → Option String → K → ℕ → K
  write_cache user none keys now = keys
  write_cache user (some text) keys now =
      if write_fails then keys else redis.set keys now (identity_key user) text 0

  pub looked_up : String → Option Profile → K → ℕ → Resolution × K
  unfolding login_of write_cache
  looked_up user none keys now =
      (unresolved (record { github_login = ""; email = ""; name = "" }), keys)
  looked_up user (some p) keys now =
      let id : Identity = record {
        github_login = login_of dir (dir.identity_override user) p.email;
        email = p.email;
        name = p.real_name;
      } in
      if p.email == ""
      then (unresolved (record { github_login = ""; email = ""; name = p.real_name }), keys)
      else (resolved id, write_cache user (dir.encode id) keys now)

  pub resolved_from : String → Option Identity → K → ℕ → Resolution × K
  unfolding looked_up
  resolved_from user (some i) keys now = (resolved i, keys)
  resolved_from user none keys now = looked_up user (dir.user_info user) keys now

  -- ResolveIdentity
  unfoldable pub resolve_identity : String → K → ℕ → Resolution × K
  unfolding resolved_from cached
  resolve_identity user keys now = resolved_from user (cached user keys now) keys now

  abbrev answer : Bool → Resolution × K → Membership × K
  answer verdict r = (membership verdict (identity_of r.0), r.1)

  pub github_answer : ParsedAuthorization → Resolution × K → Membership × K
  unfolding github_member
  github_answer auth (unresolved i, keys) = (member_error, keys)
  github_answer auth (resolved i, keys) = (membership (github_member dir auth i) i, keys)

  -- The verdict of the Slack sources, and whether there is a GitHub source.
  pub member_from : Bool → Bool → ParsedAuthorization → Resolution × K → Membership × K
  unfolding github_answer
  member_from true github auth r = answer true r
  member_from false true auth r = github_answer auth r
  member_from false false auth r = answer false r

  -- IsMember
  unfoldable pub is_member : ParsedAuthorization → String → K → ℕ → Membership × K
  unfolding slack_member member_from resolve_identity
  is_member auth user keys now =
      member_from (slack_member dir auth user) (has_github auth) auth
        (resolve_identity user keys now)
