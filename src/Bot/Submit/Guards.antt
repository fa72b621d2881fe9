-- ===== src/Bot/Submit/Guards.antt =====
-- Requests that are refused before a pull request is created.
use deploy_bot.Prelude.{
  String, ◌≡◌, refl, ◌≢◌, true, false, none, some, Option, Bool, arith, ◌∙◌, ◌⊎◌, inl, inr,
}
use deploy_bot.Config.{AppConfig}
use deploy_bot.Store.Pending.{Result, ok, err}
use deploy_bot.Store.Locks.{acquire_lock, claim, deploy_lock_key}
use deploy_bot.Bot.Member.{remember}
use deploy_bot.World.{Env, World, Identity, Membership, member_error, membership, send}
use deploy_bot.Bot.Approve.Effects.{Untouched-remember, Untouched, lock_at}
use deploy_bot.Bot.Submit.{
  Submission, app_value, tag_of, submit_locked, submit_app, submit_tag, submit_approver,
  handle_deploy_submit,
}

module _ {K : Type 0} (env : Env K) (s : Submission) where
  bad_tag : (v : Option Bool) (w : World K) → v ≢ some true → Untouched (submit_tag env s v w) w
  unfolding submit_tag send
  bad_tag none w h = ground arith
  bad_tag (some false) w h = ground arith
  bad_tag (some true) w h = absurd (h refl)

  bad_approver :
      (m : Membership) (w : World K)
      → ((ident : Identity) → m ≢ membership true ident)
      → Untouched (submit_approver env s m w) w
  unfolding submit_approver send
  bad_approver member_error w h = ground arith
  bad_approver (membership false i) w h = ground arith
  bad_approver (membership true i) w h = absurd (h i refl)

  bad_tag_after :
      (m : Membership) (w : World K)
      → env.validate_tag (app_value s) (tag_of s) ≢ some true
      → Untouched (submit_approver env s m w) w
  unfolding submit_approver send
  bad_tag_after member_error w h = ground arith
  bad_tag_after (membership false i) w h = ground arith
  bad_tag_after (membership true i) w h = bad_tag (env.validate_tag (app_value s) (tag_of s)) w h

  -- A request whose approver the validator does not confirm, or whose tag is not found, changes
  -- no row, no history and no lock.
  handle_deploy_submit-invalid :
      (w : World K)
      → ((ident : Identity) → env.is_member s.approver_id ≢ membership true ident)
        ⊎ (env.validate_tag (app_value s) (tag_of s) ≢ some true)
      → Untouched (handle_deploy_submit env s w) w
  unfolding handle_deploy_submit
  handle_deploy_submit-invalid w (inl h) =
      Untouched-remember env s.approver_id
        (bad_approver (env.is_member s.approver_id) (remember env s.approver_id w) h)
  handle_deploy_submit-invalid w (inr h) =
      Untouched-remember env s.approver_id
        (bad_tag_after (env.is_member s.approver_id) (remember env s.approver_id w) h)

  not_acquired :
      (r : Result Bool) (a : AppConfig) (w : World K)
      → r ≢ ok true
      → Untouched (submit_locked env s r a w) w
  unfolding submit_locked send
  not_acquired (err e) a w h = ground arith
  not_acquired (ok false) a w h = ground arith
  not_acquired (ok true) a w h = absurd (h refl)

  abbrev Held : String → World K → Type 0
  Held holder w = lock_at env w w.now s.environment (app_value s) ≡ some holder

  taken :
      (holder : String) (w : World K)
      → Held holder w
      → let r = acquire_lock env s.environment (app_value s) s.requester_id env.cfg.lock_ttl w in
        (r.0 ≢ ok true) × Untouched r.1 w
  unfolding acquire_lock claim
  taken holder w h =
      let nx =
        env.redis.set_nx_taken w.keys w.now (deploy_lock_key s.environment (app_value s))
          s.requester_id env.cfg.lock_ttl h in
      rw nx (ground arith)

  busy_app :
      (o : Option AppConfig) (holder : String) (w : World K)
      → Held holder w
      → Untouched (submit_app env s o w) w
  unfolding submit_app
  busy_app none holder w h = ground arith
  busy_app (some a) holder w h =
      let t = taken holder w h in
      let u = not_acquired _ a _ t.0 in
      record {
        pending = u.pending ∙ t.1.pending;
        history = u.history ∙ t.1.history;
        keys = u.keys ∙ t.1.keys;
        now = u.now ∙ t.1.now;
      }

  -- A request for an app whose deploy lock is held changes no row, no history and no lock.
  pub handle_deploy_submit-busy :
      (holder : String) (w : World K)
      → env.redis.get w.keys w.now (deploy_lock_key s.environment (app_value s)) ≡ some holder
      → Untouched (handle_deploy_submit env s w) w
  unfolding handle_deploy_submit
  handle_deploy_submit-busy holder w h =
      Untouched-remember env s.approver_id (approver (env.is_member s.approver_id))
    where
      asked : World K
      asked = remember env s.approver_id w

      tag : (v : Option Bool) → Untouched (submit_tag env s v asked) asked
      tag none = unfold submit_tag send in ground arith
      tag (some false) = unfold submit_tag send in ground arith
      tag (some true) = unfold submit_tag in busy_app _ holder asked h

      approver : (m : Membership) → Untouched (submit_approver env s m asked) asked
      approver member_error = unfold submit_approver send in ground arith
      approver (membership false i) = unfold submit_approver send in ground arith
      approver (membership true i) =
          unfold submit_approver in tag (env.validate_tag (app_value s) (tag_of s))
