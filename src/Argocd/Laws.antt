-- ===== src/Argocd/Laws.antt =====
-- A notification is enqueued once, and what is lost when neither the stream nor the buffer takes it.
use deploy_bot.Prelude.{
  ℕ, ◌+◌, ◌≤◌, ◌<◌, String, ◌≡◌, refl, ◌∙◌, ap, Bool, true, false, not, Option, none, some, [], ◌∷◌,
  ◌++◌, ◌==◌, arith, length,
}
use deploy_bot.Store.Redis.{live}
use deploy_bot.Store.Pending.{Result, ok}
use deploy_bot.Store.Locks.{claim}
use deploy_bot.Store.Locks.Laws.{claim-claim, claim-granted_iff_free}
use deploy_bot.World.{Env, World, redis_set_nx}
use deploy_bot.Argocd.{
  Payload, Event, Inbox, dedupe_key, dedupe_ttl, is_recognized_trigger, buffer_add, accept,
  buffer_refused, enqueue, outcome, accepted, process,
}

abbrev marker : Payload → String
marker p = dedupe_key p.argocd_app p.sync_result_revision p.trigger

-- The trigger is one that is enqueued.
abbrev pub IsWanted : Payload → Type 0
IsWanted p = (is_recognized_trigger p.trigger ≡ true) × ((p.trigger == "on-sync-running") ≡ false)

module _ {K : Type 0} (env : Env K) (stream_fails : Event → Bool) (capacity : Option ℕ)
    (p : Payload) (wanted : IsWanted p) where
  reached :
      (w : World K) (i : Inbox)
      → process env stream_fails capacity p w i
        ≡ accepted env stream_fails capacity (accept env stream_fails capacity p w) p i
  unfolding process
  reached w i = rw (wanted.0, wanted.1) refl

  accepted-refused :
      (r : Result Bool × World K) (i : Inbox)
      → r.0 ≡ ok false
      → accepted env stream_fails capacity r p i ≡ (ok (outcome true true false), r.1, i)
  unfolding accepted
  accepted-refused (o, w) i h = ap (λ o. accepted env stream_fails capacity (o, w) p i) h

  accepted-granted :
      (r : Result Bool × World K) (i : Inbox)
      → r.0 ≡ ok true
      → accepted env stream_fails capacity r p i ≡ (
        ok (outcome true false true),
        r.1,
        enqueue env stream_fails capacity (record { payload = p; received_at = r.1.now }) i,
      )
  unfolding accepted
  accepted-granted (o, w) i h = ap (λ o. accepted env stream_fails capacity (o, w) p i) h

  now-accept : (w : World K) → (accept env stream_fails capacity p w).1.now ≡ w.now
  unfolding accept claim
  now-accept w = ground arith

  free-granted :
      (w : World K)
      → env.fails (redis_set_nx (marker p)) ≡ false
      → env.redis.get w.keys w.now (marker p) ≡ none
      → (accept env stream_fails capacity p w).0 ≡ ok true
  unfolding accept
  free-granted w answers free =
      claim-granted_iff_free env (marker p) "1" dedupe_ttl w answers ∙ rw free refl

  -- A wanted notification that was not seen before is put on the stream once, with the time of its
  -- receipt, when Redis answers and takes it.
  process-enqueue :
      (w : World K) (i : Inbox)
      → env.fails (redis_set_nx (marker p)) ≡ false
      → env.redis.get w.keys w.now (marker p) ≡ none
      → stream_fails (record { payload = p; received_at = w.now }) ≡ false
      → (process env stream_fails capacity p w i).2
        ≡ record i { stream = i.stream ++ (record { payload = p; received_at = w.now }) ∷ [] }
  unfolding enqueue
  process-enqueue w i answers free takes =
      let r = accept env stream_fails capacity p w in
      ap (λ x. x.2) (reached w i ∙ accepted-granted r i (free-granted w answers free))
      ∙ ap (λ now. enqueue env stream_fails capacity (record { payload = p; received_at = now }) i)
          (now-accept w)
      ∙ rw takes refl

-- After a wanted notification that was not seen before, and while its marker lives and nobody else
-- writes the keys, a second one for the same app, revision and trigger, whatever else it says, is
-- answered as a duplicate, and neither the stream nor the buffer changes.
pub process-process :
    {K : Type 0} (env : Env K) (stream_fails : Event → Bool) (capacity : Option ℕ) (p q : Payload)
    → IsWanted p
    → q.argocd_app ≡ p.argocd_app
    → q.sync_result_revision ≡ p.sync_result_revision
    → q.trigger ≡ p.trigger
    → (w : World K) (i j : Inbox) (t : ℕ) → env.fails (redis_set_nx (marker p)) ≡ false
    → env.redis.get w.keys w.now (marker p) ≡ none
    → w.now ≤ t
    → t < w.now + dedupe_ttl
    → let second =
        process env stream_fails capacity q
          (record (process env stream_fails capacity p w i).1 { now = t })
          j in
      (second.0 ≡ ok (outcome true true false)) × (second.2 ≡ j)
unfolding accept
process-process env stream_fails capacity p q wanted app sha trigger w i j t answers free later
      soon =
    let wanted_q : IsWanted q = (
      ap is_recognized_trigger trigger ∙ wanted.0,
      ap (λ x. x == "on-sync-running") trigger ∙ wanted.1,
    ) in
    let r = accept env stream_fails capacity p w in
    let granted = free-granted env stream_fails capacity p wanted w answers free in
    let again = accept env stream_fails capacity p (record r.1 { now = t }) in
    let first : (process env stream_fails capacity p w i).1 ≡ r.1 =
      ap (λ x. x.1)
        (reached env stream_fails capacity p wanted w i
          ∙ accepted-granted env stream_fails capacity p wanted r i granted) in
    let lives : live w.now dedupe_ttl t ≡ true = ground (arith, soon) in
    let refused : again.0 ≡ ok false =
      claim-claim env (marker p) "1" "1" dedupe_ttl dedupe_ttl t w answers later
        (unfold accept in granted)
      ∙ ap (λ b. ok (not b)) lives in
    let same_key : marker q ≡ marker p = unfold dedupe_key in rw (app, sha, trigger) refl in
    let refused_q : (accept env stream_fails capacity q (record r.1 { now = t })).0 ≡ ok false =
      ap (λ key. (claim env key "1" dedupe_ttl (record r.1 { now = t })).0) same_key ∙ refused in
    let second =
      reached env stream_fails capacity q wanted_q (record r.1 { now = t }) j
      ∙ accepted-refused env stream_fails capacity q wanted_q
          (accept env stream_fails capacity q (record r.1 { now = t })) j refused_q in
    rw first (ap (λ x. x.0) second, ap (λ x. x.2) second)

-- Where the stream refuses an event and the buffer is full, the event is lost, and the result says
-- that it was enqueued.
pub process-buffer_add :
    {K : Type 0} (env : Env K) (stream_fails : Event → Bool) (size : ℕ) (p : Payload) (w : World K)
    (i : Inbox)
    → IsWanted p
    → env.fails (redis_set_nx (marker p)) ≡ false
    → env.redis.get w.keys w.now (marker p) ≡ none
    → stream_fails (record { payload = p; received_at = w.now }) ≡ true
    → size ≤ length i.buffered
    → ((process env stream_fails (some size) p w i).0 ≡ ok (outcome true false true))
      × ((process env stream_fails (some size) p w i).2 ≡ i)
unfolding enqueue buffer_refused buffer_add
process-buffer_add env stream_fails size p w i wanted answers free refuses full =
    let r = accept env stream_fails (some size) p w in
    let reach =
      reached env stream_fails (some size) p wanted w i
      ∙ accepted-granted env stream_fails (some size) p wanted r i
          (free-granted env stream_fails (some size) p wanted w answers free) in
    (
      ap (λ x. x.0) reach,
      ap (λ x. x.2) reach
          ∙ ap
              (λ now.
                enqueue env stream_fails (some size) (record { payload = p; received_at = now }) i)
              (now-accept env stream_fails (some size) p wanted w)
          ∙ rw refuses (ground (arith, full)),
    )
