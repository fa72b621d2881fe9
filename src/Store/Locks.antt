-- ===== src/Store/Locks.antt =====
pub mod Laws
-- internal/store/store.go: deploy locks, system locks and thread slots in Redis.
use Prim.Native.String.{◌++◌ as append}
use deploy_bot.Prelude.{ℕ, String, Bool, true, false, none, some, if◌then◌else◌}
use deploy_bot.Store.Pending.{Result, ok, err, database}
use deploy_bot.World.{Env, World, redis_set_nx, redis_exists, redis_get, redis_set, redis_del}

unfoldable pub deploy_lock_key : String → String → String
deploy_lock_key e app = append "lock:" (append e (append "/" app))

sys_lock_key : String → String
sys_lock_key name = append "syslock:" name

unfoldable pub thread_key : String → String
thread_key e = append "thread:" e

module _ {K : Type 0} (env : Env K) where
  -- `SET key value NX PX ttl`; `redis.Nil` is the answer when the key is there.
  unfoldable pub claim : String → String → ℕ → World K → Result Bool × World K
  claim key value ttl w =
      if env.fails (redis_set_nx key)
      then (err database, w)
      else (let (keys, claimed) = env.redis.set_nx w.keys w.now key value ttl in
          (ok claimed, record w { keys = keys }))

  unfoldable pub release : String → World K → World K
  release key w =
      if env.fails (redis_del key) then w else record w { keys = env.redis.del w.keys key }

  unfoldable pub acquire_lock : String → String → String → ℕ → World K → Result Bool × World K
  unfolding claim deploy_lock_key
  acquire_lock e app holder ttl = claim (deploy_lock_key e app) holder ttl

  unfoldable pub is_locked : String → String → World K → Result Bool
  unfolding deploy_lock_key
  is_locked e app w =
      let key = deploy_lock_key e app in
      if env.fails (redis_exists key)
      then err database
      else elim (env.redis.get w.keys w.now key) [ none ↦ ok false | some _ ↦ ok true ]

  unfoldable pub release_lock : String → String → World K → World K
  unfolding release deploy_lock_key
  release_lock e app = release (deploy_lock_key e app)

  try_lock : String → ℕ → World K → Result Bool × World K
  unfolding claim sys_lock_key
  try_lock name ttl = claim (sys_lock_key name) "1" ttl

  -- An error is told apart from an absent key, which reads as "".
  unfoldable pub get_thread_ts : String → World K → Result String
  unfolding thread_key
  get_thread_ts e w =
      let key = thread_key e in
      if env.fails (redis_get key)
      then err database
      else elim (env.redis.get w.keys w.now key) [ none ↦ ok "" | some ts ↦ ok ts ]

  unfoldable pub set_thread_ts : String → String → ℕ → World K → Result Bool × World K
  unfolding claim thread_key
  set_thread_ts e ts ttl = claim (thread_key e) ts ttl

  unfoldable pub update_thread_ts : String → String → ℕ → World K → World K
  unfolding thread_key
  update_thread_ts e ts ttl w =
      let key = thread_key e in
      if env.fails (redis_set key)
      then w
      else record w { keys = env.redis.set w.keys w.now key ts ttl }

  unfoldable pub delete_thread_ts : String → World K → World K
  unfolding release thread_key
  delete_thread_ts e = release (thread_key e)
