-- ===== src/Argocd.antt =====
pub mod Laws
-- The receiver of ArgoCD notifications: internal/argocd (dedupe.go, payload.go, handler.go), and
-- the bounded buffer of internal/buffer/buffer.go that takes an event when the stream does not.
use deploy_bot.Prelude.{
  ℕ, String, Bool, true, false, ◌||◌, not, Option, none, some, List, [], ◌∷◌, ◌++◌, ◌==◌, ltb,
  length, if◌then◌else◌,
}
use Prim.Native.String.{◌++◌ as append}
use deploy_bot.Store.Pending.{Result, ok, err}
use deploy_bot.Store.Locks.{claim}
use deploy_bot.World.{Env, World}

-- 24 hours
abbrev pub dedupe_ttl : ℕ
dedupe_ttl = 86_400_000

pub dedupe_key : String → String → String → String
dedupe_key app sha trigger =
    append "argocd:seen:" (append app (append ":" (append sha (append ":" trigger))))

-- WebhookPayload, as far as `Process` reads it. `resources` is the raw text.
pub record Payload : Type 0 where
  pub trigger : String
  pub argocd_app : String
  pub namespace : String
  pub repo_url : String
  pub sync_result_revision : String
  pub sync_status : String
  pub health_status : String
  pub phase : String
  pub message : String
  pub resources : String

-- ArgoCDNotificationEvent, which is the payload and the time of its receipt.
pub record Event : Type 0 where
  pub payload : Payload
  pub received_at : ℕ

pub record ProcessResult : Type 0 where
  recognized : Bool
  deduped : Bool
  pub enqueued : Bool

-- What the receiver keeps besides the Redis keys: the stream and the buffer.
pub record Inbox : Type 0 where
  pub stream : List Event
  pub buffered : List Event

-- IsRecognizedTrigger
unfoldable pub is_recognized_trigger : String → Bool
is_recognized_trigger t =
    t == "on-sync-succeeded"
    || t == "on-sync-failed"
    || t == "on-health-degraded"
    || t == "on-sync-running"

-- Buffer.Add, of a buffer of the given capacity. A full buffer drops the event.
pub buffer_add : ℕ → Event → Inbox → Bool × Inbox
buffer_add capacity e i =
    if ltb (length i.buffered) capacity
    then (true, record i { buffered = i.buffered ++ e ∷ [] })
    else (false, i)

abbrev pub outcome : Bool → Bool → Bool → ProcessResult
outcome recognized deduped enqueued = record {
  recognized = recognized;
  deduped = deduped;
  enqueued = enqueued;
}

module _ {K : Type 0} (env : Env K) (stream_fails : Event → Bool) (capacity : Option ℕ) where
  -- Deduper.Accept
  pub accept : Payload → World K → Result Bool × World K
  accept p w = claim env (dedupe_key p.argocd_app p.sync_result_revision p.trigger) "1" dedupe_ttl w

  -- What becomes of an event that the stream refused. There may be no buffer.
  pub buffer_refused : Option ℕ → Event → Inbox → Inbox
  buffer_refused none e i = i
  buffer_refused (some size) e i = (buffer_add size e i).1

  pub enqueue : Event → Inbox → Inbox
  enqueue e i =
      if stream_fails e
      then buffer_refused capacity e i
      else record i { stream = i.stream ++ e ∷ [] }

  -- What the deduper answered. After an error the caller reads no result.
  pub accepted : Result Bool × World K → Payload → Inbox → Result ProcessResult × World K × Inbox
  accepted (err e, w) p i = (err e, w, i)
  accepted (ok false, w) p i = (ok (outcome true true false), w, i)
  accepted (ok true, w) p i =
      (ok (outcome true false true), w, enqueue (record { payload = p; received_at = w.now }) i)

  -- Processor.Process
  pub process : Payload → World K → Inbox → Result ProcessResult × World K × Inbox
  process p w i =
      if not (is_recognized_trigger p.trigger)
      then (ok (outcome false false false), w, i)
      else if p.trigger == "on-sync-running"
      then (ok (outcome true false false), w, i)
      else accepted (accept p w) p i
