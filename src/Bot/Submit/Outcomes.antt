-- ===== src/Bot/Submit/Outcomes.antt =====
-- Requests that get as far as the pull request: what each outcome leaves behind.
use deploy_bot.Prelude.{
  ℕ, ◌≤◌, ℤ, String, ◌≡◌, refl, ◌∙◌, ap, true, false, none, some, arith, if◌then◌else◌, eq_refl,
}
use deploy_bot.Config.{AppConfig, app_by_name}
use deploy_bot.Store.Types.{Key, key_eq}
use deploy_bot.Store.Table.{find_row, key_eq_refl}
use deploy_bot.Store.Redis.{live}
use deploy_bot.Store.Pending.{ok}
use deploy_bot.Store.Locks.{acquire_lock, deploy_lock_key, release_lock, release}
use deploy_bot.Store.Locks.Laws.{get-claim_granted, claim-granted_iff_free, release_lock-get}
use deploy_bot.Bot.Member.{remember}
use deploy_bot.World.{
  Env, World, GithubError, no_change, rate_limited, Outcome, done, failed, Identity, membership,
  send, pg_set, pg_set_slack_handle, redis_set_nx, redis_del,
}
use deploy_bot.Bot.Approve.{config_key}
use deploy_bot.Bot.Approve.Effects.{Untouched, Untouched-gauge, lock_at}
use deploy_bot.Bot.Submit.{
  Submission, app_value, tag_of, submit_params, submitted_deploy, submit_handle, submit_created,
  submit_failure, submit_pr, submit_branch, submit_locked, unlocked, submit_app, submit_tag,
  submit_approver, handle_deploy_submit,
}
use deploy_bot.Bot.Submit.Steps.{
  with_handle, lock_key, acquired, announced, acquired-elsewhere, find-submit_handle,
  submit_handle-OnlyRows, find-announced, announced-OnlyRows, lock-announced,
}

-- The approver is confirmed, the tag is in the registry, the app is configured, and its deploy
-- lock is free.
pub record IsAccepted {K : Type 0} (env : Env K) (s : Submission) (i : Identity) (a : AppConfig)
    (w : World K) : Type 0 where
  pub approver : env.is_member s.approver_id ≡ membership true i
  pub tag : env.validate_tag (app_value s) (tag_of s) ≡ some true
  pub configured : app_by_name env.cfg (app_value s) ≡ some a
  pub free : lock_at env w w.now s.environment (app_value s) ≡ none
  pub lockable : env.fails (redis_set_nx (deploy_lock_key s.environment (app_value s))) ≡ false

module _ {K : Type 0} (env : Env K) (s : Submission) where
  -- What a request leaves behind: its own row, with the handle of the approval request, no other
  -- change of a row, no entry in the history, and the deploy lock until its time to live is over.
  pub record IsRequested (pr : ℤ) (url : String) (v w : World K) : Type 0 where
    pub row :
        find_row (config_key env pr) v.pending
        ≡ some (with_handle (env.posted pr) (submitted_deploy env s pr url w.now))
    pub others :
        (k : Key)
        → key_eq k (config_key env pr) ≡ false
        → find_row k v.pending ≡ find_row k w.pending
    pub history : v.history ≡ w.history
    pub locked :
        (t : ℕ)
        → v.now ≤ t
        → lock_at env v t s.environment (app_value s)
          ≡ (if live w.now env.cfg.lock_ttl t then some s.requester_id else none)

  module _ (pr : ℤ) (url : String) where
    find-created :
        (k : Key) (u : World K)
        → env.fails (pg_set (config_key env pr)) ≡ false
        → env.fails (pg_set_slack_handle (config_key env pr)) ≡ false
        → find_row k (submit_created env s pr url u).pending ≡ (
            if key_eq k (config_key env pr)
            then some (with_handle (env.posted pr) (submitted_deploy env s pr url u.now))
            else find_row k u.pending)
    unfolding submit_created
    find-created k u ins handle =
        ap (find_row k) (Untouched-gauge env _).pending
        ∙ find-submit_handle env (env.posted pr) pr k _ handle
        ∙ rw (find-announced env s pr url k u ins) (ground arith)

    created-elsewhere :
        (u : World K)
        → ((submit_created env s pr url u).history ≡ u.history)
          × ((submit_created env s pr url u).now ≡ u.now)
    unfolding submit_created
    created-elsewhere u =
        let same =
          Untouched-gauge env (submit_handle env (env.posted pr) pr (announced env s pr url u)) in
        let handled = submit_handle-OnlyRows env (env.posted pr) pr (announced env s pr url u) in
        let a = announced-OnlyRows env s pr url u in
        (same.history ∙ handled.history ∙ a.0, same.now ∙ handled.now ∙ a.1)

    lock-created :
        (t : ℕ) (u : World K)
        → u.now ≤ t
        → lock_at env (submit_created env s pr url u) t s.environment (app_value s)
          ≡ lock_at env u t s.environment (app_value s)
    unfolding submit_created
    lock-created t u h =
        let same =
          Untouched-gauge env (submit_handle env (env.posted pr) pr (announced env s pr url u)) in
        let handled = submit_handle-OnlyRows env (env.posted pr) pr (announced env s pr url u) in
        ap (λ keys. env.redis.get keys t (lock_key env s)) (same.keys ∙ handled.keys)
        ∙ lock-announced env s pr url t u h

  module _ (i : Identity) (a : AppConfig) (w : World K) (h : IsAccepted env s i a w) where
    -- The approver has been asked about.
    abbrev asked : World K
    asked = remember env s.approver_id w

    granted :
        (acquire_lock env s.environment (app_value s) s.requester_id env.cfg.lock_ttl asked).0
        ≡ ok true
    unfolding acquire_lock
    granted =
        claim-granted_iff_free env (lock_key env s) s.requester_id env.cfg.lock_ttl asked h.lockable
        ∙ rw h.free refl

    lock-acquired :
        (t : ℕ)
        → w.now ≤ t
        → lock_at env (acquired env s asked) t s.environment (app_value s)
          ≡ (if live w.now env.cfg.lock_ttl t then some s.requester_id else none)
    lock-acquired t le =
        unfold acquire_lock in
        get-claim_granted env (lock_key env s) s.requester_id env.cfg.lock_ttl t asked le
          (unfold acquire_lock in granted)

    -- The world when the pull request is asked for.
    abbrev prepared : World K
    prepared = remember env s.requester_id (acquired env s asked)

    prepared-elsewhere :
        (prepared.pending ≡ w.pending) × (prepared.history ≡ w.history) × (prepared.now ≡ w.now)
    prepared-elsewhere = acquired-elsewhere env s asked

    reached : handle_deploy_submit env s w ≡ submit_branch env s env.default_branch a prepared
    unfolding handle_deploy_submit submit_approver submit_tag submit_app submit_locked
    reached = rw (h.approver, h.tag, h.configured, granted) refl

    answered :
        (base : String) (o : Outcome (ℤ × String))
        → env.default_branch ≡ done base
        → env.create_pr (submit_params s a (env.resolve_identity s.requester_id) base) ≡ o
        → handle_deploy_submit env s w ≡ submit_pr env s o prepared
    unfolding submit_branch
    answered base o branch created =
        reached
        ∙ ap (λ b. submit_branch env s b a prepared) branch
        ∙ ap (λ r. submit_pr env s r prepared) created

    -- When an accepted request's pull request is created and no statement on its row fails, the
    -- request is pending: its row holds what was asked for with the handle of the approval
    -- request, every other row, one of the same app included, and the history are unchanged, and the
    -- deploy lock is held by the requester until its time to live is over.
    pub handle_deploy_submit-IsRequested :
        (base : String) (pr : ℤ) (url : String)
        → env.default_branch ≡ done base
        → env.create_pr (submit_params s a (env.resolve_identity s.requester_id) base)
          ≡ done (pr, url)
        → env.fails (pg_set (config_key env pr)) ≡ false
        → env.fails (pg_set_slack_handle (config_key env pr)) ≡ false
        → IsRequested pr url (handle_deploy_submit env s w) w
    unfolding submit_pr
    handle_deploy_submit-IsRequested base pr url branch created ins handle =
        let u = prepared in
        let same = prepared-elsewhere in
        rw (answered base (done (pr, url)) branch created) (record {
          row =
              find-created pr url (config_key env pr) u ins handle
              ∙ rw (key_eq_refl (config_key env pr), same.2) refl;
          others = λ k ne. find-created pr url k u ins handle ∙ rw ne (ap (find_row k) same.0);
          history = (created-elsewhere pr url u).0 ∙ same.1;
          locked = λ t le.
              let later = rw (created-elsewhere pr url u).1 at le in
              lock-created pr url t u later ∙ lock-acquired t (rw same.2 at later);
        })

    released :
        (v : World K)
        → ((unlocked env s v).pending ≡ v.pending) × ((unlocked env s v).history ≡ v.history)
    unfolding release_lock release
    released v = ground arith

    submit_failure-Untouched :
        (e : GithubError) (v : World K) → Untouched (submit_failure env s e v) v
    unfolding submit_failure send
    submit_failure-Untouched no_change v = ground arith
    submit_failure-Untouched rate_limited v = ground arith
    submit_failure-Untouched e v = ground arith

    -- When the default branch is known, an accepted request's pull request cannot be created, for
    -- whatever reason, and Redis obeys, no row and no entry of the history changes and the deploy
    -- lock is free again.
    pub handle_deploy_submit-no_pr :
        (base : String) (e : GithubError)
        → env.default_branch ≡ done base
        → env.create_pr (submit_params s a (env.resolve_identity s.requester_id) base) ≡ failed e
        → env.fails (redis_del (deploy_lock_key s.environment (app_value s))) ≡ false
        → ((handle_deploy_submit env s w).pending ≡ w.pending)
          × ((handle_deploy_submit env s w).history ≡ w.history)
          × ((t : ℕ)
              → lock_at env (handle_deploy_submit env s w) t s.environment (app_value s) ≡ none)
    unfolding submit_pr
    handle_deploy_submit-no_pr base e branch refused unlock =
        let u = prepared in
        let v = unlocked env s u in
        let same = submit_failure-Untouched e v in
        let lock = prepared-elsewhere in
        let freed = released u in
        rw (answered base (failed e) branch refused) (
          same.pending ∙ freed.0 ∙ lock.0,
          same.history ∙ freed.1 ∙ lock.1,
          λ t.
              ap (λ keys. env.redis.get keys t (lock_key env s)) same.keys
              ∙ release_lock-get env s.environment (app_value s) s.environment (app_value s) t u
                  unlock
              ∙ rw (eq_refl (lock_key env s)) refl,
        )
