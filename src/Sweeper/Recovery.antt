-- ===== src/Sweeper/Recovery.antt =====
pub mod Frame
pub mod Laws
-- `RecoverStuck` of internal/sweeper/sweeper.go: rows that were left in the state `merging`.
use deploy_bot.Prelude.{String, Bool, true, false, List, [], ◌∷◌, ◌==◌}
use deploy_bot.Config.{pending_label}
use deploy_bot.Store.Types.{PendingDeploy, key_of, state_merging}
use deploy_bot.Store.Pending.{Result, ok, err, get_all, delete}
use deploy_bot.Store.Locks.{release_lock}
use deploy_bot.World.{Env, World, Outcome, done, failed, send, remove_label}
use deploy_bot.Github.Merge.{merge_pr}

module _ {K : Type 0} (env : Env K) where
  -- A merge that fails leaves the row for the next start.
  pub recovered : PendingDeploy → Outcome String × World K → World K
  recovered d (failed _, w) = w
  recovered d (done _, w) =
      (delete env (key_of d) (
        release_lock env d.environment d.app
          (send (remove_label d.pr_number (pending_label env.cfg)) w))).1

  pub recover_if : Bool → PendingDeploy → World K → World K
  recover_if false d w = w
  recover_if true d w = recovered d (merge_pr env d.pr_number w)

  pub recover : PendingDeploy → World K → World K
  recover d w = recover_if (d.state == state_merging) d w

  pub recover_all : List PendingDeploy → World K → World K
  recover_all [] w = w
  recover_all (d ∷ ds) w = recover_all ds (recover d w)

  pub recover_from : Result (List PendingDeploy) → World K → World K
  recover_from (err _) w = w
  recover_from (ok ds) w = recover_all ds w

  -- RecoverStuck
  pub recover_stuck : World K → World K
  recover_stuck w = recover_from (get_all env w) w
