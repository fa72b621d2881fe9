-- ===== src/Examples/Samples.antt =====
-- A key space that satisfies the laws of Redis, an environment and a world.
use deploy_bot.Prelude.{
  ℕ, pos, String, ◌≡◌, refl, Bool, true, false, Option, none, some, [], ◌∷◌, ◌==◌, if◌then◌else◌,
}
use deploy_bot.Config.{AppConfig, Config}
use deploy_bot.Store.Types.{PendingDeploy}
use deploy_bot.Store.Redis.{Redis, live}
use deploy_bot.World.{Env, World, Identity, Membership, membership, Outcome, done, resolved}

pub record Cell : Type 0 where
  pub value : String
  pub at : ℕ
  pub ttl : ℕ

abbrev pub Keys : Type 0
Keys = String → Option Cell

abbrev pub read : Option Cell → ℕ → Option String
read none now = none
read (some c) now = if live c.at c.ttl now then some c.value else none

abbrev pub write : Keys → ℕ → String → String → ℕ → Keys
write s now k v ttl j = if k == j then some (record { value = v; at = now; ttl = ttl }) else s j

abbrev claim_free : Option String → Keys → ℕ → String → String → ℕ → Keys × Bool
claim_free none s now k v ttl = (write s now k v ttl, true)
claim_free (some u) s now k v ttl = (s, false)

pub read-write :
    (s : Keys) (at now : ℕ) (k j v : String) (ttl : ℕ)
    → read (write s at k v ttl j) now
      ≡ (if k == j then (if live at ttl now then some v else none) else read (s j) now)
read-write s at now k j v ttl = by_key (k == j)
  where
    by_key :
        (b : Bool)
        → read (if b then some (record { value = v; at = at; ttl = ttl }) else s j) now
          ≡ (if b then (if live at ttl now then some v else none) else read (s j) now)
    by_key true = refl
    by_key false = refl

pub read-erase :
    (s : Keys) (now : ℕ) (k j : String)
    → read (if k == j then none else s j) now ≡ (if k == j then none else read (s j) now)
read-erase s now k j = by_key (k == j)
  where
    by_key : (b : Bool) → read (if b then none else s j) now ≡ (if b then none else read (s j) now)
    by_key true = refl
    by_key false = refl

abbrev pub memory : Redis Keys
memory = record {
  get = λ s now k. read (s k) now;
  set = write;
  set_nx = λ s now k v ttl. claim_free (read (s k) now) s now k v ttl;
  del = λ s k j. if k == j then none else s j;
  get-set = λ s at now k j v ttl h. read-write s at now k j v ttl;
  set_nx_free = λ s now k v ttl h. rw h;
  set_nx_taken = λ s now k v ttl h. rw h;
  get-del = λ s now k j. read-erase s now k j;
}

abbrev pub shop : AppConfig
shop = record {
  app = "shop";
  environment = "dev";
  kustomize_path = "dev/shop/kustomization.yaml";
  ecr_repo = "registry/shop";
  auto_deploy = false;
  source_repo = "";
}

abbrev pub config : Config
config = record {
  org = "acme";
  repo = "gitops";
  deploy_channel = "C1";
  merge_method = "squash";
  label = "";
  lock_ttl = 300_000;
  stale_duration = 7_200_000;
  thread_threshold = none;
  allow_prod_auto_deploy = false;
  apps = shop ∷ [];
}

abbrev pub ada : Identity
ada = record { github_login = "ada"; email = "ada@acme.test"; name = "Ada" }

abbrev members : String → Membership
members user = if user == "U1" then membership true ada else membership false ada

-- Everything answers; the merge is answered by `merges`.
abbrev pub env_with : (ℕ → Outcome String) → (ℕ → Bool) → Env Keys
env_with merges stops = record {
  redis = memory;
  fails = λ op. false;
  cfg = config;
  ctx_done = stops;
  max_retries = 3;
  retry_wait = 120_000;
  merge_api = λ pr n. merges n;
  default_branch = done "main";
  rebase = λ params. done tt;
  create_pr = λ params. done (pos 8, "https://github.test/8");
  is_member = members;
  resolve_identity = λ user. resolved ada;
  identity_text = λ user. some "ada";
  validate_tag = λ app tag. some true;
  posted = λ pr. some ("C1", "ts");
  posted_parent = some "parent";
  thread_poll = λ i. none;
}

abbrev pub request : PendingDeploy
request = record {
  github_org = "acme";
  github_repo = "gitops";
  app = "shop-dev";
  environment = "dev";
  tag = "v2";
  pr_number = pos 7;
  pr_url = "https://github.test/7";
  requester = "bob";
  requester_id = "U2";
  approver_id = "U1";
  reason = "release";
  requested_at = 10;
  expires_at = 7_200_010;
  state = "pending";
  slack_channel = "C1";
  slack_message_ts = "ts7";
}

abbrev pub start : World Keys
start = record {
  pending = request ∷ [];
  history = [];
  keys = write (λ k. none) 10 "lock:dev/shop-dev" "U2" 300_000;
  now = 1_000;
  merge_calls = 0;
  identities = λ k. none;
  outbox = [];
}
