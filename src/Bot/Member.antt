-- ===== src/Bot/Member.antt =====
pub mod Laws
-- What `IsMember` and `ResolveIdentity` of internal/validator/validator.go leave behind when a handler
-- asks them: a user who is resolved anew is written to the cache of identities, without a time to
-- live.
use deploy_bot.Prelude.{String, none, some, if◌then◌else◌}
use deploy_bot.World.{Env, World, redis_set}
use deploy_bot.Validator.{identity_key}

abbrev pub remember : {K : Type 0} → Env K → String → World K → World K
remember env user w = record w {
  identities = elim (env.identity_text user) [
    | none ↦ w.identities
    | some text ↦
        if env.fails (redis_set (identity_key user))
        then w.identities
        else env.redis.set w.identities w.now (identity_key user) text 0
  ];
}
