-- ===== src/Store/Redis.antt =====
-- The commands of the Redis server that internal/store/store.go and internal/argocd/dedupe.go
-- send. The server is not code of the repository: it is an interface over an abstract key space,
-- with the documented behaviour of the commands as laws.
use deploy_bot.Prelude.{
  ℕ, zero, suc, ◌+◌, ◌≤◌, String, ◌≡◌, Bool, true, false, Option, none, some, ◌==◌, ltb,
  if◌then◌else◌,
}

-- A key written at `at` with a time to live is there until `at + ttl`; without one (TTL 0 in
-- go-redis) it stays.
abbrev pub live : ℕ → ℕ → ℕ → Bool
live at ttl now = elim ttl [ zero ↦ true | suc n ↦ ltb now (at + suc n) ]

pub record Redis (K : Type 0) : Type 0 where
  pub get : K → ℕ → String → Option String
  pub set : K → ℕ → String → String → ℕ → K
  pub set_nx : K → ℕ → String → String → ℕ → K × Bool
  pub del : K → String → K
  pub get-set :
      (s : K) (at now : ℕ) (k j v : String) (ttl : ℕ)
      → at ≤ now
      → get (set s at k v ttl) now j
        ≡ (if k == j then (if live at ttl now then some v else none) else get s now j)
  pub set_nx_free :
      (s : K) (now : ℕ) (k v : String) (ttl : ℕ)
      → get s now k ≡ none
      → set_nx s now k v ttl ≡ (set s now k v ttl, true)
  pub set_nx_taken :
      (s : K) (now : ℕ) (k v : String) (ttl : ℕ) {u : String}
      → get s now k ≡ some u
      → set_nx s now k v ttl ≡ (s, false)
  pub get-del :
      (s : K) (now : ℕ) (k j : String)
      → get (del s k) now j ≡ (if k == j then none else get s now j)
