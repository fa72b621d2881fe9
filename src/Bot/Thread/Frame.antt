-- ===== src/Bot/Thread/Frame.antt =====
-- What the thread lookup leaves alone: the tables, the clock and the deploy locks.
use text.Mathlib.TextLemmas.{cons-append}
use deploy_bot.Prelude.{
  ℕ, ◌≤◌, String, ◌≡◌, refl, ◌≢◌, false, true, none, some, ◌==◌, eq_iff, arith, ap, head?, codes,
  Option, Bool, not, if◌then◌else◌, ◌∙◌,
}
use deploy_bot.Prelude.Int.{ℤ, pos, negsuc}
use deploy_bot.Store.Locks.{
  deploy_lock_key, thread_key, set_thread_ts, get_thread_ts, update_thread_ts, delete_thread_ts,
}
use deploy_bot.Store.Locks.Laws.{get-claim_other, get-release}
use deploy_bot.Store.Pending.{Result, ok, err}
use deploy_bot.World.{Env, World, Effect, send}
use deploy_bot.Bot.Thread.{
  thread_ts, open_thread, claimed_thread, claim_thread, existing_thread, unless_negative,
  thread_ttl, thread_wanted, effective_thread_threshold,
}

thread_key-ne-lock_key : (e f app : String) → thread_key e ≢ deploy_lock_key f app
unfolding thread_key deploy_lock_key
thread_key-ne-lock_key e f app h =
    let first = rw (cons-append _ "hread:" e, cons-append _ "ock:" _) at h in
    ground (arith, ap {B = _} (λ s. head? (codes s)) first)

thread_key-==-lock_key : (e f app : String) → (thread_key e == deploy_lock_key f app) ≡ false
thread_key-==-lock_key e f app =
    ground (arith, thread_key-ne-lock_key e f app, eq_iff (thread_key e) (deploy_lock_key f app))

-- Two worlds that differ at most in what was sent and in thread slots.
pub record SameDeploys {K : Type 0} (env : Env K) (v w : World K) : Type 0 where
  pub pending : v.pending ≡ w.pending
  pub history : v.history ≡ w.history
  pub now : v.now ≡ w.now
  pub merge_calls : v.merge_calls ≡ w.merge_calls
  pub locks :
      (t : ℕ) (e app : String)
      → w.now ≤ t
      → env.redis.get v.keys t (deploy_lock_key e app)
        ≡ env.redis.get w.keys t (deploy_lock_key e app)

module _ {K : Type 0} (env : Env K) where
  SameDeploys-refl : (w : World K) → SameDeploys env w w
  SameDeploys-refl w = record {
    pending = refl;
    history = refl;
    now = refl;
    merge_calls = refl;
    locks = λ t e app h. refl;
  }

  SameDeploys-trans :
      {u v w : World K} → SameDeploys env u v → SameDeploys env v w → SameDeploys env u w
  SameDeploys-trans a b = record {
    pending = a.pending ∙ b.pending;
    history = a.history ∙ b.history;
    now = a.now ∙ b.now;
    merge_calls = a.merge_calls ∙ b.merge_calls;
    locks = λ t e app h. a.locks t e app (rw b.now h) ∙ b.locks t e app h;
  }

  SameDeploys-set_thread :
      (e ts : String) (ttl : ℕ) (w : World K) → SameDeploys env (set_thread_ts env e ts ttl w).1 w
  unfolding set_thread_ts
  SameDeploys-set_thread e ts ttl w = record {
    pending = ground arith;
    history = ground arith;
    now = ground arith;
    merge_calls = ground arith;
    locks = λ t f app h.
        get-claim_other env (thread_key e) (deploy_lock_key f app) ts ttl t w h
          (thread_key-==-lock_key e f app);
  }

  SameDeploys-delete_thread :
      (e : String) (w : World K) → SameDeploys env (delete_thread_ts env e w) w
  unfolding delete_thread_ts
  SameDeploys-delete_thread e w = record {
    pending = ground arith;
    history = ground arith;
    now = ground arith;
    merge_calls = ground arith;
    locks = λ t f app h. ground (
      arith,
      get-release env (thread_key e) (deploy_lock_key f app) t w,
      thread_key-==-lock_key e f app,
    );
  }

  SameDeploys-update_thread :
      (e ts : String) (ttl : ℕ) (w : World K) → SameDeploys env (update_thread_ts env e ts ttl w) w
  unfolding update_thread_ts
  SameDeploys-update_thread e ts ttl w = record {
    pending = ground arith;
    history = ground arith;
    now = ground arith;
    merge_calls = ground arith;
    locks = λ t f app h. ground (
      arith,
      env.redis.get-set w.keys w.now t (thread_key e) (deploy_lock_key f app) ts ttl,
      thread_key-==-lock_key e f app,
    );
  }

  SameDeploys-send : (x : Effect) (w : World K) → SameDeploys env (send x w) w
  unfolding send
  SameDeploys-send x w = record {
    pending = refl;
    history = refl;
    now = refl;
    merge_calls = refl;
    locks = λ t e app h. refl;
  }

  SameDeploys-open :
      (o : Option String) (e : String) (w : World K) → SameDeploys env (open_thread env o e w).1 w
  unfolding open_thread
  SameDeploys-open none e w = SameDeploys-delete_thread e w
  SameDeploys-open (some ts) e w = SameDeploys-update_thread e ts thread_ttl w

  SameDeploys-claimed :
      (r : Result Bool) (e : String) (w : World K) → SameDeploys env (claimed_thread env r e w).1 w
  unfolding claimed_thread
  SameDeploys-claimed (err x) e w = SameDeploys-refl w
  SameDeploys-claimed (ok true) e w =
      SameDeploys-trans (SameDeploys-open env.posted_parent e _) (SameDeploys-send _ w)
  SameDeploys-claimed (ok false) e w = SameDeploys-refl w

  SameDeploys-claim : (e : String) (w : World K) → SameDeploys env (claim_thread env e w).1 w
  unfolding claim_thread
  SameDeploys-claim e w =
      SameDeploys-trans (SameDeploys-claimed (set_thread_ts env e "pending" thread_ttl w).0 e _)
        (SameDeploys-set_thread e "pending" thread_ttl w)

  SameDeploys-if :
      (b : Bool) (x y : String × World K) (w : World K)
      → SameDeploys env x.1 w
      → SameDeploys env y.1 w
      → SameDeploys env (if b then x else y).1 w
  SameDeploys-if true x y w p q = p
  SameDeploys-if false x y w p q = q

  SameDeploys-existing :
      (r : Result String) (n : ℤ) (e : String) (w : World K)
      → SameDeploys env (existing_thread env r n e w).1 w
  unfolding existing_thread
  SameDeploys-existing (err x) n e w = SameDeploys-refl w
  SameDeploys-existing (ok ts) n e w =
      SameDeploys-if (not (ts == "")) _ _ w (SameDeploys-refl w) (
        SameDeploys-if (thread_wanted env n e w) _ _ w (SameDeploys-claim e w) (SameDeploys-refl w))

  SameDeploys-unless_negative :
      (n : ℤ) (e : String) (w : World K) → SameDeploys env (unless_negative env n e w).1 w
  unfolding unless_negative
  SameDeploys-unless_negative (negsuc n) e w = SameDeploys-refl w
  SameDeploys-unless_negative (pos n) e w = SameDeploys-existing (get_thread_ts env e w) (pos n) e w

  -- Looking up, claiming and opening a thread touches no deploy, no history and no deploy lock.
  pub SameDeploys-thread_ts : (e : String) (w : World K) → SameDeploys env (thread_ts env e w).1 w
  unfolding thread_ts
  SameDeploys-thread_ts e w = SameDeploys-unless_negative (effective_thread_threshold env.cfg) e w
