-- ===== src/Bot/Submit/Steps.antt =====
-- The steps of a request that gets as far as the pull request.
use deploy_bot.Prelude.{
  ℕ, ◌≤◌, ℤ, String, ◌≡◌, refl, ◌∙◌, ap, true, false, none, some, Option, Bool, arith,
  if◌then◌else◌, ◌==◌, some_of,
}
use mathlib.Core.List.{append-nil}
use mathlib.Core.Option
use deploy_bot.Store.Types.{Key, PendingDeploy, key_eq}
use deploy_bot.Store.Table.{find_row}
use deploy_bot.Store.Pending.{set, set_slack_handle, normalized}
use deploy_bot.Store.Pending.Laws.{
  OnlyRows, find-set, set-OnlyRows, find-set_slack_handle, set_slack_handle-OnlyRows,
}
use deploy_bot.Store.Locks.{acquire_lock, claim, deploy_lock_key}
use deploy_bot.World.{Env, World, send, record_deploy, pg_set, pg_set_slack_handle}
use deploy_bot.Bot.Tasks.{run_all}
use deploy_bot.Bot.Tasks.Effects.{find-run_all, history-run_all, lock-run_all, now-run_all}
use deploy_bot.Bot.Approve.{config_key}
use deploy_bot.Bot.Approve.Effects.{lock_at}
use deploy_bot.Bot.Submit.{Submission, app_value, submitted_deploy, submit_tasks, submit_handle}

-- The row with the handle of the approval request, where posting it gave one.
abbrev pub with_handle : Option (String × String) → PendingDeploy → PendingDeploy
with_handle none d = d
with_handle (some (channel, ts)) d =
    if ts == "" then d else record d { slack_channel = channel; slack_message_ts = ts }

map_same :
    (r : Option PendingDeploy) (b : Bool)
    → r ≡ (if b then Option.map {A = PendingDeploy} (λ d. d) r else r)
map_same none true = refl
map_same (some d) true = refl
map_same r false = refl

module _ {K : Type 0} (env : Env K) where
  pub find-submit_handle :
      (o : Option (String × String)) (pr : ℤ) (k : Key) (w : World K)
      → env.fails (pg_set_slack_handle (config_key env pr)) ≡ false
      → find_row k (submit_handle env o pr w).pending ≡ (
          if key_eq k (config_key env pr)
          then Option.map (with_handle o) (find_row k w.pending)
          else find_row k w.pending)
  unfolding submit_handle
  find-submit_handle none pr k w h = map_same (find_row k w.pending) (key_eq k (config_key env pr))
  find-submit_handle (some (channel, ts)) pr k w h = handled (ts == "")
    where
      handled :
          (b : Bool)
          → find_row k
              (if b then w else (set_slack_handle env (config_key env pr) channel ts w).1).pending
            ≡ (if key_eq k (config_key env pr)
                then Option.map {A = PendingDeploy}
                    (λ d.
                      if b then d else record d { slack_channel = channel; slack_message_ts = ts })
                    (find_row k w.pending)
                else find_row k w.pending)
      handled true = map_same (find_row k w.pending) (key_eq k (config_key env pr))
      handled false = find-set_slack_handle env k (config_key env pr) channel ts w h

  pub submit_handle-OnlyRows :
      (o : Option (String × String)) (pr : ℤ) (w : World K) → OnlyRows (submit_handle env o pr w) w
  unfolding submit_handle
  submit_handle-OnlyRows none pr w = ground arith
  submit_handle-OnlyRows (some (channel, ts)) pr w =
      ground (arith, set_slack_handle-OnlyRows env (config_key env pr) channel ts w)

module _ {K : Type 0} (env : Env K) (s : Submission) where
  abbrev pub lock_key : String
  lock_key = deploy_lock_key s.environment (app_value s)

  -- The world once the lock is taken.
  abbrev pub acquired : World K → World K
  acquired w = (acquire_lock env s.environment (app_value s) s.requester_id env.cfg.lock_ttl w).1

  pub acquired-elsewhere :
      (w : World K)
      → ((acquired w).pending ≡ w.pending)
        × ((acquired w).history ≡ w.history)
        × ((acquired w).now ≡ w.now)
  unfolding acquire_lock claim
  acquired-elsewhere w = ground arith

  -- A new request is written as it is.
  normalized-submitted :
      (pr : ℤ) (url : String) (now : ℕ)
      → normalized now env.cfg.stale_duration (submitted_deploy env s pr url now)
        ≡ submitted_deploy env s pr url now
  unfolding normalized submitted_deploy
  normalized-submitted pr url now = ground arith

  -- The row is written, and then the goroutines run.
  abbrev stored : ℤ → String → World K → World K
  stored pr url w = (set env (submitted_deploy env s pr url w.now) env.cfg.stale_duration w).1

  abbrev pub announced : ℤ → String → World K → World K
  announced pr url w =
      run_all env (submit_tasks env s pr url)
        (send (record_deploy (app_value s) "requested") (stored pr url w))

  pub find-announced :
      (pr : ℤ) (url : String) (k : Key) (w : World K)
      → env.fails (pg_set (config_key env pr)) ≡ false
      → find_row k (announced pr url w).pending ≡ (
          if key_eq k (config_key env pr)
          then some (submitted_deploy env s pr url w.now)
          else find_row k w.pending)
  unfolding submit_tasks some_of send submitted_deploy
  find-announced pr url k w h =
      find-run_all env k (submit_tasks env s pr url) _
      ∙ find-set env k (submitted_deploy env s pr url w.now) env.cfg.stale_duration w h
      ∙ rw (normalized-submitted pr url w.now) refl

  pub announced-OnlyRows :
      (pr : ℤ) (url : String) (w : World K)
      → ((announced pr url w).history ≡ w.history) × ((announced pr url w).now ≡ w.now)
  unfolding submit_tasks send
  announced-OnlyRows pr url w =
      let same = set-OnlyRows env (submitted_deploy env s pr url w.now) env.cfg.stale_duration w in
      (
        history-run_all env (submit_tasks env s pr url) _ ∙ append-nil _ ∙ same.history,
        now-run_all env (submit_tasks env s pr url) _ ∙ same.now,
      )

  pub lock-announced :
      (pr : ℤ) (url : String) (t : ℕ) (w : World K)
      → w.now ≤ t
      → lock_at env (announced pr url w) t s.environment (app_value s)
        ≡ lock_at env w t s.environment (app_value s)
  unfolding submit_tasks some_of send
  lock-announced pr url t w h =
      let same = set-OnlyRows env (submitted_deploy env s pr url w.now) env.cfg.stale_duration w in
      lock-run_all env s.environment (app_value s) t (submit_tasks env s pr url) _ (rw same.now h)
      ∙ ap (λ keys. env.redis.get keys t lock_key) same.keys
