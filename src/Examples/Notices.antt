-- ===== src/Examples/Notices.antt =====
-- Notifications of ArgoCD.
use deploy_bot.Prelude.{◌≡◌, refl, false, true, some, none, [], ◌∷◌, arith}
use deploy_bot.Store.Pending.{ok}
use deploy_bot.World.{Env, World, done}
use deploy_bot.Argocd.{Payload, Event, Inbox, outcome, is_recognized_trigger, process}
use deploy_bot.Argocd.Laws.{IsWanted, process-process, process-buffer_add}
use deploy_bot.Examples.Samples.{Keys, env_with, start}

abbrev hook_env : Env Keys
hook_env = env_with (λ n. done "abc") (λ t. false)

abbrev synced : Payload
synced = record {
  trigger = "on-sync-succeeded";
  argocd_app = "shop-dev";
  namespace = "argocd";
  repo_url = "https://github.test/gitops";
  sync_result_revision = "abc";
  sync_status = "Synced";
  health_status = "Healthy";
  phase = "Succeeded";
  message = "";
  resources = "[]";
}

abbrev fresh : World Keys
fresh = record start { keys = λ k. none }

abbrev quiet : Inbox
quiet = record { stream = []; buffered = [] }

abbrev first_event : Event
first_event = record { payload = synced; received_at = 1_000 }

abbrev full : Inbox
full = record { stream = []; buffered = first_event ∷ [] }

synced-IsWanted : IsWanted synced
unfolding is_recognized_trigger
synced-IsWanted = (refl, refl)

-- The same sync, reported once more with another message.
abbrev repeated : Payload
repeated = record synced { message = "again"; health_status = "Degraded" }

process-process_example :
    let second =
      process hook_env
        (λ e. false)
        (some 1)
        repeated
        (record (process hook_env (λ e. false) (some 1) synced fresh quiet).1 { now = 60_000 })
        quiet in
    (second.0 ≡ ok (outcome true true false)) × (second.2 ≡ quiet)
process-process_example =
    process-process hook_env (λ e. false) (some 1) synced repeated synced-IsWanted refl refl refl
      fresh quiet quiet 60_000 refl refl (omega arith) (omega arith)

process-buffer_add_example :
    ((process hook_env (λ e. true) (some 1) synced fresh full).0 ≡ ok (outcome true false true))
    × ((process hook_env (λ e. true) (some 1) synced fresh full).2 ≡ full)
process-buffer_add_example =
    process-buffer_add hook_env (λ e. true) 1 synced fresh full synced-IsWanted refl refl refl
      (omega arith)
