-- ===== src/Sweeper/Reconstruct.antt =====
-- `ReconstructHistory` of internal/sweeper/sweeper.go: an empty history is filled from the commits of
-- the deploys. What GitHub answers is a parameter: the commits of a path, `none` where the request
-- fails, and the pull request of a commit.
use deploy_bot.Prelude.{
  ℕ, zero, suc, ◌-◌, ℤ, String, Option, none, some, List, [], ◌∷◌, ◌++◌, leb, length, sort_by,
}
use deploy_bot.Prelude.Int.{pos}
use deploy_bot.Config.{AppConfig}
use deploy_bot.Store.Types.{HistoryEntry}
use deploy_bot.Store.Pending.{Result, ok, err}
use deploy_bot.Store.History.{default_history_limit, get_history, push_history}
use deploy_bot.World.{Env, World}
use deploy_bot.Bot.Frame.{Advances, Advances-refl, Advances-trans, Advances-push}

-- github.DeployCommit
pub record DeployCommit : Type 0 where
  pub app : String
  pub tag : String
  pub sha : String
  pub committed_at : ℕ

-- The commits of every app. A request that fails adds none.
pub collected : (String → Option (List DeployCommit)) → List AppConfig → List DeployCommit
collected commits [] = []
collected commits (a ∷ apps) = elim (commits a.kustomize_path) [
  | none ↦ collected commits apps
  | some cs ↦ cs ++ collected commits apps
]

without_first : ℕ → List DeployCommit → List DeployCommit
without_first zero cs = cs
without_first (suc n) [] = []
without_first (suc n) (c ∷ cs) = without_first n cs

-- The oldest first, and the newest hundred of them.
pub latest_commits : List DeployCommit → List DeployCommit
unfolding without_first sort_by
latest_commits cs =
    without_first (length cs - default_history_limit)
      (sort_by (λ a b. leb a.committed_at b.committed_at) cs)

pub commit_entry : DeployCommit → ℤ × String → HistoryEntry
commit_entry c pr = record {
  github_org = "";
  github_repo = "";
  event_type = "approved";
  app = c.app;
  environment = "";
  tag = c.tag;
  pr_number = pr.0;
  pr_url = pr.1;
  approver_id = "";
  requester_id = "";
  completed_at = c.committed_at;
  gitops_commit_sha = "";
  slack_channel = "";
  slack_message_ts = "";
}

module _ {K : Type 0} (env : Env K) (commits : String → Option (List DeployCommit))
    (pr_for_commit : String → ℤ × String) where
  push_commits : List DeployCommit → World K → World K
  unfolding push_history
  push_commits [] w = w
  push_commits (c ∷ cs) w =
      push_commits cs (push_history env (commit_entry c (pr_for_commit c.sha)) w)

  reconstruct_from : Result (List HistoryEntry) → World K → World K
  reconstruct_from (err _) w = w
  reconstruct_from (ok (e ∷ es)) w = w
  reconstruct_from (ok []) w = push_commits (latest_commits (collected commits env.cfg.apps)) w

  -- ReconstructHistory
  pub reconstruct_history : World K → World K
  reconstruct_history w = reconstruct_from (get_history env "" (pos 1) w) w

  push_commits-Advances :
      (cs : List DeployCommit) (w : World K)
      → Advances env.cfg.org env.cfg.repo (push_commits cs w) w
  unfolding push_commits
  push_commits-Advances [] w = Advances-refl w
  push_commits-Advances (c ∷ cs) w =
      Advances-trans (push_commits-Advances cs _)
        (Advances-push env (commit_entry c (pr_for_commit c.sha)) w)

  pub Advances-reconstruct_history :
      (w : World K) → Advances env.cfg.org env.cfg.repo (reconstruct_history w) w
  unfolding reconstruct_history
  Advances-reconstruct_history w = from (get_history env "" (pos 1) w)
    where
      from :
          (r : Result (List HistoryEntry))
          → Advances env.cfg.org env.cfg.repo (reconstruct_from r w) w
      from (err e) = unfold reconstruct_from in Advances-refl w
      from (ok (e ∷ es)) = unfold reconstruct_from in Advances-refl w
      from (ok []) =
          unfold reconstruct_from in
          push_commits-Advances (latest_commits (collected commits env.cfg.apps)) w
