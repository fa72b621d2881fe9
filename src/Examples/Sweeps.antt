-- ===== src/Examples/Sweeps.antt =====
-- Passes of the sweeper.
use deploy_bot.Prelude.{
  ℕ, pos, String, ◌≡◌, refl, sym, ◌∙◌, ap, inl, inr, List, false, Option, none, some, [], ◌∷◌, ◌++◌,
  ◌==◌, ◌≤◌, map, some_of, if◌then◌else◌,
}
use mathlib.Core.List.Memᴰ.{head, tail, not-nil}
use deploy_bot.Store.Types.{Key, key_eq, key_of}
use deploy_bot.Store.Table.{find_row, holds_of}
use deploy_bot.Store.Locks.{deploy_lock_key}
use deploy_bot.Store.Pending.{get_expired}
use deploy_bot.World.{Env, World, done}
use deploy_bot.Bot.Approve.{config_key}
use deploy_bot.Bot.Approve.Effects.{lock_of, lock_at}
use deploy_bot.Sweeper.Expiry.{expire_all}
use deploy_bot.Sweeper.Expiry.Laws.{expired_entry, unless_expired, expire_all-get_expired}
use deploy_bot.Sweeper.Reconcile.{Issue, PrMeta, reconcile_from_github}
use deploy_bot.Sweeper.Reconcile.Laws.{Found, Listed, reconcile_from_github-Found}
use deploy_bot.Sweeper.Pass.{run_once, run_once-keeps}
use deploy_bot.Sweeper.Recovery.{recover_stuck}
use deploy_bot.Sweeper.Recovery.Laws.{is_merging, find_row-recover_stuck}
use deploy_bot.Examples.Samples.{Keys, env_with, start, request}

abbrev night_env : Env Keys
night_env = env_with (λ n. done "abc") (λ t. false)

-- The sample request is past its time.
abbrev late : World Keys
late = record start { now = 9_000_000 }

-- The sample request was left in the state `merging`.
abbrev stuck : World Keys
stuck = record start { pending = record request { state = "merging" } ∷ [] }

abbrev meta : String → Option PrMeta
meta body =
    some (record { requester_slack_id = "U2"; app = "shop-dev"; environment = "dev"; tag = "v3" })

abbrev orphan : Issue
orphan = record {
  number = pos 9;
  body = "meta";
  created_at = 500;
  html_url = "https://github.test/9";
}

abbrev own_key : Key
own_key = key_of request

expire_all-get_expired_example :
    ((k : Key)
      → find_row k (expire_all night_env (request ∷ []) late).pending
        ≡ unless_expired 9_000_000 (find_row k late.pending))
    × ((expire_all night_env (request ∷ []) late).history
        ≡ late.history ++ map (expired_entry night_env 9_000_000) (request ∷ []))
    × ((e app : String) (t : ℕ)
        → 9_000_000 ≤ t
        → lock_at night_env (expire_all night_env (request ∷ []) late) t e app ≡ (
            if some_of (λ d. lock_of night_env d == deploy_lock_key e app) (request ∷ [])
            then none
            else lock_at night_env late t e app))
unfolding get_expired find_row
expire_all-get_expired_example =
    expire_all-get_expired night_env (λ op. refl) (request ∷ []) late (refl, tt) refl

abbrev both_labels : String → Option (List Issue)
both_labels label = some (orphan ∷ [])

abbrev alone : {j : Issue} → Listed night_env both_labels j → j ≡ orphan
alone (inl (head same)) = same
alone (inl (tail m)) = absurd (not-nil m)
alone (inr (head same)) = same
alone (inr (tail m)) = absurd (not-nil m)

reconcile_from_github-Found_example :
    Found (config_key night_env (pos 9)) (reconcile_from_github night_env meta both_labels start)
reconcile_from_github-Found_example =
    reconcile_from_github-Found night_env meta both_labels orphan start (λ op. refl)
      (λ a b p q same. ap (λ x. x.body) (alone p ∙ sym (alone q))) (inl (head refl)) refl

run_once-keeps_example :
    find_row own_key (run_once night_env meta (λ label. some (orphan ∷ [])) start).pending
    ≡ some request
unfolding find_row key_eq
run_once-keeps_example =
    run_once-keeps night_env meta (λ label. some (orphan ∷ [])) own_key request start (λ op. refl)
      (refl, tt) refl refl

find_row-recover_stuck_example : find_row own_key (recover_stuck night_env stuck).pending ≡ (
    if holds_of is_merging (find_row own_key stuck.pending)
    then none
    else find_row own_key stuck.pending)
unfolding find_row
find_row-recover_stuck_example =
    find_row-recover_stuck night_env (λ op. refl) (λ pr n. ("abc", refl)) own_key stuck (refl, tt)
