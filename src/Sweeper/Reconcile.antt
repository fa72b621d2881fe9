-- ===== src/Sweeper/Reconcile.antt =====
pub mod Frame
pub mod Laws
-- `ReconcileFromGitHub` of internal/sweeper/sweeper.go. What GitHub lists under a label, and the
-- metadata that the regular expression and the JSON decoder find in a body, are parameters.
use deploy_bot.Prelude.{
  ℕ, ◌+◌, ◌-◌, ℤ, int_eq, String, Bool, true, false, Option, none, some, List, [], ◌∷◌, ◌++◌, ltb,
  leb, some_of, if◌then◌else◌,
}
use deploy_bot.Config.{deploy_label, pending_label}
use deploy_bot.Store.Types.{PendingDeploy, state_pending}
use deploy_bot.Store.Pending.{Result, ok, err, get, set}
use deploy_bot.World.{Env, World, send, add_labels}
use deploy_bot.Bot.Approve.{config_key}

pub record Issue : Type 0 where
  pub number : ℤ
  pub body : String
  pub created_at : ℕ
  pub html_url : String

-- github.PRMeta
pub record PrMeta : Type 0 where
  pub requester_slack_id : String
  pub app : String
  pub environment : String
  pub tag : String

-- The issues whose number was not seen before.
pub unseen : List ℤ → List Issue → List Issue
unfolding some_of
unseen seen [] = []
unseen seen (i ∷ is) = elim (some_of (int_eq i.number) seen) [
  | true ↦ unseen seen is
  | false ↦ i ∷ unseen (i.number ∷ seen) is
]

-- A listing that fails adds nothing.
abbrev pub listed : Option (List Issue) → List Issue
listed none = []
listed (some is) = is

-- When a recovered deploy expires: not before now.
recovered_expiry : ℕ → ℕ → ℕ → ℕ
recovered_expiry stale created now =
    if ltb (created + stale) now then now + 60_000 else created + stale

pub recovered_ttl : ℕ → ℕ → ℕ
recovered_ttl expires now = if leb expires now then 60_000 else expires - now

module _ {K : Type 0} (env : Env K) (parse_meta : String → Option PrMeta) where
  pub recovered_deploy : Issue → PrMeta → ℕ → PendingDeploy
  recovered_deploy i m now = record {
    github_org = env.cfg.org;
    github_repo = env.cfg.repo;
    app = m.app;
    environment = m.environment;
    tag = m.tag;
    pr_number = i.number;
    pr_url = i.html_url;
    requester = m.requester_slack_id;
    requester_id = m.requester_slack_id;
    approver_id = "";
    reason = "recovered by reconciler";
    requested_at = i.created_at;
    expires_at = recovered_expiry env.cfg.stale_duration i.created_at now;
    state = state_pending;
    slack_channel = "";
    slack_message_ts = "";
  }

  -- The pending label is added to what was written.
  pub labelled : Issue → Result (Unit {0}) × World K → World K
  labelled i (err _, w) = w
  labelled i (ok _, w) = send (add_labels i.number (pending_label env.cfg ∷ [])) w

  pub rehydrate : Issue → Option PrMeta → World K → World K
  rehydrate i none w = w
  rehydrate i (some m) w =
      let d = recovered_deploy i m w.now in
      labelled i (set env d (recovered_ttl d.expires_at w.now) w)

  pub reconcile_missing : Result (Option PendingDeploy) → Issue → World K → World K
  reconcile_missing (err _) i w = w
  reconcile_missing (ok (some d)) i w = w
  reconcile_missing (ok none) i w = rehydrate i (parse_meta i.body) w

  pub reconcile_issue : Issue → World K → World K
  reconcile_issue i w = reconcile_missing (get env (config_key env i.number) w) i w

  pub reconcile_all : List Issue → World K → World K
  reconcile_all [] w = w
  reconcile_all (i ∷ is) w = reconcile_all is (reconcile_issue i w)

  -- ReconcileFromGitHub
  unfoldable pub reconcile_from_github : (String → Option (List Issue)) → World K → World K
  reconcile_from_github issues w =
      reconcile_all
        (unseen []
          (listed (issues (pending_label env.cfg)) ++ listed (issues (deploy_label env.cfg))))
        w
