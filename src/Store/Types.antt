-- ===== src/Store/Types.antt =====
-- internal/store/types.go: the two durable records. A time is a number of milliseconds; 0 is Go's zero
-- time (`IsZero`). A state is the text that the column holds.
use deploy_bot.Prelude.{
  ℕ, ℤ, String, ◌≡◌, ◌↔◌, Bool, true, ◌&&◌, ◌==◌, eq_iff, arith, int_eq, int_eq_iff,
}

abbrev pub state_pending : String
state_pending = "pending"

abbrev pub state_merging : String
state_merging = "merging"

-- The composite primary key of `pending_deploys`.
pub record Key : Type 0 where
  pub org : String
  pub repo : String
  pub number : ℤ

pub record PendingDeploy : Type 0 where
  pub github_org : String
  pub github_repo : String
  pub app : String
  pub environment : String
  pub tag : String
  pub pr_number : ℤ
  pub pr_url : String
  pub requester : String
  pub requester_id : String
  pub approver_id : String
  pub reason : String
  pub requested_at : ℕ
  pub expires_at : ℕ
  pub state : String
  pub slack_channel : String
  pub slack_message_ts : String

pub record HistoryEntry : Type 0 where
  pub github_org : String
  pub github_repo : String
  pub event_type : String
  pub app : String
  pub environment : String
  pub tag : String
  pub pr_number : ℤ
  pub pr_url : String
  pub approver_id : String
  pub requester_id : String
  pub completed_at : ℕ
  pub gitops_commit_sha : String
  pub slack_channel : String
  pub slack_message_ts : String

-- The fields that the source leaves out of its literal are Go's zero values.
unfoldable pub history_from_pending : ℕ → PendingDeploy → String → HistoryEntry
history_from_pending now d event_type = record {
  github_org = "";
  github_repo = "";
  event_type = event_type;
  app = d.app;
  environment = d.environment;
  tag = d.tag;
  pr_number = d.pr_number;
  pr_url = d.pr_url;
  approver_id = "";
  requester_id = d.requester_id;
  completed_at = now;
  gitops_commit_sha = "";
  slack_channel = d.slack_channel;
  slack_message_ts = d.slack_message_ts;
}

abbrev pub key_of : PendingDeploy → Key
key_of d = record { org = d.github_org; repo = d.github_repo; number = d.pr_number }

unfoldable pub key_eq : Key → Key → Bool
unfolding int_eq
key_eq a b = a.org == b.org && a.repo == b.repo && int_eq a.number b.number

pub key_eq_iff : (a b : Key) → (key_eq a b ≡ true) ↔ (a ≡ b)
unfolding key_eq
key_eq_iff a b =
    ground (arith, eq_iff a.org b.org, eq_iff a.repo b.repo, int_eq_iff a.number b.number)
