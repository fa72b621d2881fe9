-- ===== src/Bot/Tasks.antt =====
-- The goroutines that a handler of internal/bot starts side by side and waits for. Each is one
-- task; `run_all` runs them one after another. That the order does not matter to the durable
-- state is proved in Bot/Tasks/Order.antt.
pub mod Effects
pub mod Order
use deploy_bot.Prelude.{ℤ, String, List, [], ◌∷◌}
use deploy_bot.Store.Types.{Key, HistoryEntry}
use deploy_bot.Store.Pending.{delete}
use deploy_bot.Store.History.{push_history}
use deploy_bot.Store.Locks.{release_lock}
use deploy_bot.World.{Env, World, Effect, post_slack, send}
use deploy_bot.Bot.Thread.{thread_ts}

pub data Task : Type 0 where
  sends : Effect → Task
  releases_lock : String → String → Task
  deletes : Key → Task
  pushes : HistoryEntry → Task
  posts_threaded : String → String → ℤ → Task

module _ {K : Type 0} (env : Env K) where
  unfoldable pub run_task : Task → World K → World K
  unfolding send delete push_history release_lock thread_ts
  run_task (sends e) w = send e w
  run_task (releases_lock e app) w = release_lock env e app w
  run_task (deletes k) w = (delete env k w).1
  run_task (pushes h) w = push_history env h w
  run_task (posts_threaded kind e pr) w =
      let (ts, w1) = thread_ts env e w in send (post_slack kind ts pr) w1

  unfoldable pub run_all : List Task → World K → World K
  unfolding run_task
  run_all [] w = w
  run_all (t ∷ ts) w = run_all ts (run_task t w)
