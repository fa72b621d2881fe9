-- ===== src/Bot/Tasks/Order.antt =====
-- The goroutines of one handler may finish in any order.
use mathlib.Core.List.{Permᴰ}
use mathlib.Core.List.Permᴰ
use deploy_bot.Prelude.{ℕ, ◌≤◌, String, ◌≡◌, refl, sym, ◌∙◌, ap, Bool, List, arith, some_of}
use mathlib.Core.List.{append_assoc}
use deploy_bot.Store.Types.{Key}
use deploy_bot.Store.Table.{find_row}
use deploy_bot.Store.Locks.{deploy_lock_key}
use deploy_bot.World.{Env, World}
use deploy_bot.Bot.Tasks.{Task, run_all}
use deploy_bot.Bot.Tasks.Effects.{
  removes, frees, pushed_by, pushed, find-run_all, history-run_all, lock-run_all,
}

some_of-Permᴰ {ℓ} :
    {A : Type ℓ} (p : A → Bool) {xs ys : List A} → Permᴰ xs ys → some_of p xs ≡ some_of p ys
unfolding some_of
some_of-Permᴰ p Permᴰ.nil = refl
some_of-Permᴰ p (Permᴰ.cons e h) = ground (arith, ap p e, some_of-Permᴰ p h)
some_of-Permᴰ p (Permᴰ.swap e f) = ground (arith, ap p e, ap p f)
some_of-Permᴰ p (Permᴰ.trans h k) = some_of-Permᴰ p h ∙ some_of-Permᴰ p k

module _ {K : Type 0} (env : Env K) where
  pushed-Permᴰ : {xs ys : List Task} → Permᴰ xs ys → Permᴰ (pushed env xs) (pushed env ys)
  pushed-Permᴰ Permᴰ.nil = Permᴰ.nil
  pushed-Permᴰ (Permᴰ.cons {a = a} {b = b} {l₁ = xs} {l₂ = ys} e h) =
      rw e (Permᴰ.append_left (pushed_by env b) (pushed-Permᴰ h))
  pushed-Permᴰ (Permᴰ.swap {a = a} {b = b} {a' = a'} {b' = b'} {l = l} e f) =
      rw
        (
          e,
          f,
          ← append_assoc (pushed_by env b') (pushed_by env a') (pushed env l),
          ← append_assoc (pushed_by env a') (pushed_by env b') (pushed env l),
        )
        (Permᴰ.append_right (pushed env l)
          (Permᴰ.append_comm (pushed_by env b') (pushed_by env a')))
  pushed-Permᴰ (Permᴰ.trans h k) = Permᴰ.trans (pushed-Permᴰ h) (pushed-Permᴰ k)

  -- Whatever order the goroutines run in, each row, each deploy lock and, up to order, the
  -- history is the same afterwards.
  pub run_all-order :
      (ts us : List Task) (w : World K)
      → Permᴰ ts us
      → ((k : Key) → find_row k (run_all env ts w).pending ≡ find_row k (run_all env us w).pending)
        × Permᴰ (run_all env ts w).history (run_all env us w).history
        × ((t : ℕ) (e app : String)
            → w.now ≤ t
            → env.redis.get (run_all env ts w).keys t (deploy_lock_key e app)
              ≡ env.redis.get (run_all env us w).keys t (deploy_lock_key e app))
  run_all-order ts us w h = (
    λ k.
        find-run_all env k ts w
        ∙ rw (some_of-Permᴰ (removes env k) h) (sym (find-run_all env k us w)),
    rw (history-run_all, history-run_all) (Permᴰ.append_left w.history (pushed-Permᴰ h)),
    λ t e app le.
        lock-run_all env e app t ts w le
        ∙ rw (some_of-Permᴰ (frees env (deploy_lock_key e app)) h)
            (sym (lock-run_all env e app t us w le)),
  )
