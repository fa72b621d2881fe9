-- ===== src/World.antt =====
-- What a handler of internal/bot and a pass of internal/sweeper run against: the durable state
-- (Postgres tables, Redis keys), the clock, what was sent to Slack and GitHub, and the
-- environment that decides the outcome of every call that leaves the process.
use deploy_bot.Prelude.{ℕ, ◌+◌, ℤ, String, Bool, Option, none, some, List}
use deploy_bot.Prelude.{◌∷◌, if◌then◌else◌}
use deploy_bot.Config.{Config}
use deploy_bot.Store.Types.{Key, PendingDeploy, HistoryEntry}
use deploy_bot.Store.Redis.{Redis}

-- A statement to Postgres or a command to Redis. The environment says which of them fail; one
-- that fails changes nothing.
pub data Op : Type 0 where
  pg_set pg_get pg_delete pg_set_slack_handle : Key → Op
  pg_update_state : Key → String → Op
  pg_get_all pg_get_expired : Op
  pg_get_by_env_app : String → String → Op
  pg_push_history : ℤ → Op
  pg_get_history : Op
  pg_find_history : String → Op
  redis_set_nx redis_exists redis_get redis_set redis_del : String → Op

-- internal/audit: AuditEvent, without the timestamp that the logger adds.
pub record AuditEvent : Type 0 where
  pub event_type : String
  pub trigger : String
  pub app : String
  pub environment : String
  pub tag : String
  pub pr_number : ℤ
  pub pr_url : String
  pub reason : String
  pub rejection : String
  pub actor_email : String
  pub actor_name : String
  pub auto_deploy : Bool

-- validator.Identity
pub record Identity : Type 0 where
  pub github_login : String
  pub email : String
  pub name : String

-- A call whose failure the source only logs. A constructor names the message; its text is left
-- out.
pub data Effect : Type 0 where
  reply_ephemeral : String → String → Effect
  reply_mention : String → ℤ → Effect
  replace_buttons : String → Effect
  post_slack : String → String → ℤ → Effect
  comment : String → ℤ → String → Effect
  close_pr : ℤ → Effect
  remove_label : ℤ → String → Effect
  add_labels : ℤ → List String → Effect
  audit_log : AuditEvent → Effect
  record_deploy : String → String → Effect
  set_pending_gauge : ℕ → Effect
  start_health_check : String → ℤ → Effect

-- The errors of the GitHub client as its callers tell them apart (errors.Is, errors.As). An error
-- that is wrapped is still that error.
pub data GithubError : Type 0 where
  merge_conflict ci_not_passed draft_pr head_modified no_change rate_limited : GithubError
  context_done : GithubError
  primary_limit : GithubError
  secondary_limit : Option ℕ → GithubError
  response : ℕ → List ℕ → GithubError
  other : GithubError

pub data Outcome {ℓ} (A : Type ℓ) : Type ℓ where
  done : A → Outcome A
  failed : GithubError → Outcome A

-- github.CreatePRParams
pub record CreatePrParams : Type 0 where
  pub app : String
  pub environment : String
  pub tag : String
  pub kustomize_path : String
  pub base_branch : String
  pub requester : String
  pub reason : String
  pub requester_slack_id : String

-- validator.IsMember: an error, or the verdict with the identity.
pub data Membership : Type 0 where
  member_error : Membership
  membership : Bool → Identity → Membership

-- validator.ResolveIdentity: an error comes with what was found until then.
pub data Resolution : Type 0 where
  unresolved resolved : Identity → Resolution

-- The environment of one run of a handler. `merge_api pr n` is GitHub's answer to the n-th
-- request to merge the pull request; `identity_text user` is what the validator writes to the cache of
-- identities when it is asked about the user, `none` where it writes nothing, since the cache has the
-- user, or the user is not resolved or not encoded; `ctx_done t` says that the context is done by the time `t`.
pub record Env (K : Type 0) : Type 0 where
  pub redis : Redis K
  pub fails : Op → Bool
  pub cfg : Config
  pub ctx_done : ℕ → Bool
  pub max_retries : ℕ
  pub retry_wait : ℕ
  pub merge_api : ℤ → ℕ → Outcome String
  pub default_branch : Outcome String
  pub rebase : CreatePrParams → Outcome (Unit {0})
  pub create_pr : CreatePrParams → Outcome (ℤ × String)
  pub is_member : String → Membership
  pub resolve_identity : String → Resolution
  pub identity_text : String → Option String
  pub validate_tag : String → String → Option Bool
  pub posted : ℤ → Option (String × String)
  pub posted_parent : Option String
  pub thread_poll : ℕ → Option String

-- `identities` holds the keys `identity:<user>` of Redis, which only the validator reads and writes,
-- `keys` all others.
pub record World (K : Type 0) : Type 0 where
  pub pending : List PendingDeploy
  pub history : List HistoryEntry
  pub keys : K
  pub identities : K
  pub now : ℕ
  pub merge_calls : ℕ
  pub outbox : List Effect

-- The newest effect stands first.
unfoldable pub send : {K : Type 0} → Effect → World K → World K
send e w = record w { outbox = e ∷ w.outbox }

-- `select { case <-ctx.Done(): … case <-time.After(d): … }`: `none` when the context is done first.
unfoldable pub sleep : {K : Type 0} → Env K → ℕ → World K → Option (World K)
sleep env d w = if env.ctx_done (w.now + d) then none else some (record w { now = w.now + d })
