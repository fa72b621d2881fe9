-- ===== src/Store/Locks/Laws.antt =====
-- What a lock excludes, for how long, and what releasing it gives back.
use deploy_bot.Prelude.{
  ℕ, ◌≤◌, String, ◌≡◌, false, true, not, none, some, ◌==◌, arith, inl, inr, Option-cases,
  if◌then◌else◌, eq_refl, ◌∙◌,
}
use deploy_bot.Store.Redis.{live}
use deploy_bot.Store.Pending.{ok}
use deploy_bot.Store.Locks.{claim, release, acquire_lock, release_lock, is_locked, deploy_lock_key}
use deploy_bot.World.{Env, World, redis_set_nx, redis_del, redis_exists}

module _ {K : Type 0} (env : Env K) where
  open env use {redis}

  -- A claim writes its own key only.
  pub get-claim_other :
      (k j v : String) (ttl t : ℕ) (w : World K)
      → w.now ≤ t
      → (k == j) ≡ false
      → redis.get (claim env k v ttl w).1.keys t j ≡ redis.get w.keys t j
  unfolding claim
  get-claim_other k j v ttl t w h ne = elim (Option-cases (redis.get w.keys w.now k)) [
    | inl e ↦
        ground
          (arith, redis.set_nx_free w.keys w.now k v ttl e, redis.get-set w.keys w.now t k j v ttl)
    | inr (u, e) ↦ ground (arith, redis.set_nx_taken w.keys w.now k v ttl e)
  ]

  pub get-release :
      (k j : String) (t : ℕ) (w : World K)
      → redis.get (release env k w).keys t j ≡ (
          if k == j
          then (if env.fails (redis_del k) then redis.get w.keys t j else none)
          else redis.get w.keys t j)
  unfolding release
  get-release k j t w = ground (arith, redis.get-del w.keys t k j)

  -- A claim that was granted is what every later reader finds until the time to live is over.
  pub get-claim_granted :
      (k v : String) (ttl t : ℕ) (w : World K)
      → w.now ≤ t
      → (claim env k v ttl w).0 ≡ ok true
      → redis.get (claim env k v ttl w).1.keys t k ≡ (if live w.now ttl t then some v else none)
  unfolding claim
  get-claim_granted k v ttl t w h granted = elim (Option-cases (redis.get w.keys w.now k)) [
    | inl e ↦ ground (
      arith,
      redis.set_nx_free w.keys w.now k v ttl e,
      redis.get-set w.keys w.now t k k v ttl,
      eq_refl k,
    )
    | inr (u, e) ↦ ground (arith, redis.set_nx_taken w.keys w.now k v ttl e)
  ]

  -- A claim is granted exactly when the key is free.
  pub claim-granted_iff_free :
      (k v : String) (ttl : ℕ) (w : World K)
      → env.fails (redis_set_nx k) ≡ false
      → (claim env k v ttl w).0
        ≡ ok (elim (redis.get w.keys w.now k) [ none ↦ true | some _ ↦ false ])
  unfolding claim
  claim-granted_iff_free k v ttl w f = elim (Option-cases (redis.get w.keys w.now k)) [
    | inl e ↦ ground (arith, redis.set_nx_free w.keys w.now k v ttl e)
    | inr (u, e) ↦ ground (arith, redis.set_nx_taken w.keys w.now k v ttl e)
  ]

  -- A second claim at a later time, while nobody writes the keys.
  pub claim-claim :
      (k v u : String) (ttl ttl2 t : ℕ) (w : World K)
      → env.fails (redis_set_nx k) ≡ false
      → w.now ≤ t
      → (claim env k v ttl w).0 ≡ ok true
      → (claim env k u ttl2 (record (claim env k v ttl w).1 { now = t })).0
        ≡ ok (not (live w.now ttl t))
  claim-claim k v u ttl ttl2 t w f h granted =
      claim-granted_iff_free k u ttl2 (record (claim env k v ttl w).1 { now = t }) f
      ∙ rw (get-claim_granted k v ttl t w h granted) (ground arith)

  -- Once a deploy lock was acquired, and while nobody writes the keys, a second attempt at a later
  -- time is refused as long as the lock's time to live runs, and granted after it.
  pub acquire-acquire :
      (e app holder second : String) (ttl ttl2 t : ℕ) (w : World K)
      → env.fails (redis_set_nx (deploy_lock_key e app)) ≡ false
      → w.now ≤ t
      → (acquire_lock env e app holder ttl w).0 ≡ ok true
      → (acquire_lock env e app second ttl2
          (record (acquire_lock env e app holder ttl w).1 { now = t })).0
        ≡ ok (not (live w.now ttl t))
  unfolding acquire_lock
  acquire-acquire e app holder second ttl ttl2 t w f h granted =
      claim-claim (deploy_lock_key e app) holder second ttl ttl2 t w f h granted

  -- A released lock is free, and no other lock is.
  pub release_lock-get :
      (e app f other : String) (t : ℕ) (w : World K)
      → env.fails (redis_del (deploy_lock_key e app)) ≡ false
      → redis.get (release_lock env e app w).keys t (deploy_lock_key f other) ≡ (
          if deploy_lock_key e app == deploy_lock_key f other
          then none
          else redis.get w.keys t (deploy_lock_key f other))
  unfolding release_lock
  release_lock-get e app f other t w h =
      ground (arith, get-release (deploy_lock_key e app) (deploy_lock_key f other) t w)

  -- What one process acquired another finds locked, until the time to live is over.
  is_locked-acquire :
      (e app holder : String) (ttl t : ℕ) (w : World K)
      → env.fails (redis_exists (deploy_lock_key e app)) ≡ false
      → w.now ≤ t
      → (acquire_lock env e app holder ttl w).0 ≡ ok true
      → is_locked env e app (record (acquire_lock env e app holder ttl w).1 { now = t })
        ≡ ok (live w.now ttl t)
  unfolding acquire_lock is_locked
  is_locked-acquire e app holder ttl t w f h granted =
      ground (arith, get-claim_granted (deploy_lock_key e app) holder ttl t w h granted)
