-- ===== src/Bot/Member/Laws.antt =====
-- The write of `remember` is the validator's own.
use deploy_bot.Prelude.{String, ◌≡◌, sym, ◌∙◌}
use deploy_bot.World.{Env, World, redis_get, redis_set}
use deploy_bot.Validator.{Directory, ParsedAuthorization, identity_key, cached, is_member}
use deploy_bot.Validator.Laws.{written_text, is_member-write_cache, write_cache-set}
use deploy_bot.Bot.Member.{remember}

-- Where the environment's text is the one that the validator writes for the state of the cache, a
-- handler that asks for a membership leaves the cache as `IsMember` leaves it.
remember-is_member :
    {K : Type 0} (env : Env K) (dir : Directory) (auth : ParsedAuthorization) (user : String)
    (w : World K)
    → let read_fails = env.fails (redis_get (identity_key user)) in
      let write_fails = env.fails (redis_set (identity_key user)) in
      env.identity_text user
        ≡ written_text dir user
            (cached env.redis read_fails write_fails dir user w.identities w.now)
      → (remember env user w).identities
        ≡ (is_member env.redis read_fails write_fails dir auth user w.identities w.now).1
remember-is_member env dir auth user w h =
    let read_fails = env.fails (redis_get (identity_key user)) in
    let write_fails = env.fails (redis_set (identity_key user)) in
    let text =
      written_text dir user (cached env.redis read_fails write_fails dir user w.identities w.now) in
    rw h (
      sym (write_cache-set env.redis read_fails write_fails dir user text w.identities w.now)
      ∙ sym
          (is_member-write_cache env.redis read_fails write_fails dir auth user w.identities w.now))
