-- ===== src/Bot/Thread.antt =====
pub mod Frame
-- internal/bot/thread.go. Another worker may write the slot while this one polls for it, so what
-- each poll reads comes from the environment; the second that the polls take is not added to the clock.
use deploy_bot.Prelude.{
  Option, ℕ, zero, suc, ◌+◌, String, Bool, true, false, not, ◌||◌, none, some, ◌==◌, ltb, length,
  select, if◌then◌else◌,
}
use deploy_bot.Prelude.Int.{ℤ, pos, negsuc}
use deploy_bot.Config.{Config}
use deploy_bot.Store.Pending.{Result, ok, err, get_all}
use deploy_bot.Store.Locks.{get_thread_ts, set_thread_ts, update_thread_ts, delete_thread_ts}
use deploy_bot.World.{Env, World, send, post_slack}

abbrev pub thread_ttl : ℕ
thread_ttl = 600_000

-- EffectiveThreadThreshold
unfoldable pub effective_thread_threshold : Config → ℤ
effective_thread_threshold c = elim c.thread_threshold [ none ↦ pos 4 | some n ↦ n ]

module _ {K : Type 0} (env : Env K) where
  -- The poll loop, with so many rounds left.
  poll_thread : ℕ → ℕ → String
  poll_thread zero i = ""
  poll_thread (suc left) i = elim (env.thread_poll i) [
    | none ↦ poll_thread left (i + 1)
    | some ts ↦ elim (ts == "" || ts == "pending") [ true ↦ poll_thread left (i + 1) | false ↦ ts ]
  ]

  -- What posting the parent message gave.
  open_thread : Option String → String → World K → String × World K
  unfolding delete_thread_ts update_thread_ts
  open_thread none e w = ("", delete_thread_ts env e w)
  open_thread (some ts) e w = (ts, update_thread_ts env e ts thread_ttl w)

  -- What claiming the slot gave.
  claimed_thread : Result Bool → String → World K → String × World K
  unfolding open_thread poll_thread send
  claimed_thread (err _) e w = ("", w)
  claimed_thread (ok true) e w =
      open_thread env.posted_parent e (send (post_slack "thread parent" e (pos 0)) w)
  claimed_thread (ok false) e w = (poll_thread 5 0, w)

  claim_thread : String → World K → String × World K
  unfolding set_thread_ts claimed_thread
  claim_thread e w = let r = set_thread_ts env e "pending" thread_ttl w in claimed_thread r.0 e r.1

  -- `threshold > 1`: the pending deploys of the environment are counted first.
  thread_wanted : ℤ → String → World K → Bool
  unfolding get_all select
  thread_wanted (negsuc n) e w = false
  thread_wanted (pos zero) e w = true
  thread_wanted (pos (suc zero)) e w = true
  thread_wanted (pos (suc (suc n))) e w = elim (get_all env w) [
    | err _ ↦ false
    | ok all ↦ not (ltb (length (select (λ d. d.environment == e) all)) (suc (suc n)))
  ]

  -- What reading the slot gave.
  existing_thread : Result String → ℤ → String → World K → String × World K
  unfolding thread_wanted claim_thread
  existing_thread (err _) threshold e w = ("", w)
  existing_thread (ok ts) threshold e w =
      if not (ts == "")
      then (ts, w)
      else if thread_wanted threshold e w
      then claim_thread e w
      else ("", w)

  unless_negative : ℤ → String → World K → String × World K
  unfolding existing_thread get_thread_ts
  unless_negative (negsuc n) e w = ("", w)
  unless_negative (pos n) e w = existing_thread (get_thread_ts env e w) (pos n) e w

  -- getThreadTS
  unfoldable pub thread_ts : String → World K → String × World K
  unfolding effective_thread_threshold unless_negative
  thread_ts e w = unless_negative (effective_thread_threshold env.cfg) e w
