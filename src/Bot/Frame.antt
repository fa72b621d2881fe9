-- ===== src/Bot/Frame.antt =====
-- What every write of the bot keeps: the table stays well formed, the history only grows.
use mathlib.Core.List.{append-nil, append_assoc}
use deploy_bot.Prelude.{
  ℕ, String, ◌≡◌, refl, sym, ◌∙◌, ap, ◌⊎◌, inl, List, [], ◌∷◌, ◌++◌, arith, Bool, true, false,
  if◌then◌else◌, ◌==◌,
}
use deploy_bot.Store.Types.{Key, PendingDeploy, HistoryEntry, key_of, state_pending, state_merging}
use deploy_bot.Store.Table.{
  UniqueKeys, upsert-UniqueKeys, delete-UniqueKeys, update-UniqueKeys, upsert_row, delete_row,
  update_row,
}
use deploy_bot.Store.Pending.{Result, set, delete, set_slack_handle, update_state, normalized}
use deploy_bot.Store.History.{push_history, stored_entry}
use deploy_bot.Store.Locks.{release_lock, release, acquire_lock, claim}
use deploy_bot.Bot.Member.{remember}
use deploy_bot.World.{
  Env, World, Effect, send, pg_set, pg_delete, pg_update_state, pg_set_slack_handle,
  pg_push_history,
}
use deploy_bot.Bot.Thread.Frame.{SameDeploys-thread_ts}
use deploy_bot.Bot.Tasks.{
  Task, sends, releases_lock, deletes, pushes, posts_threaded, run_task, run_all,
}
use deploy_bot.Bot.Approve.{update_pending_gauge}
use deploy_bot.Bot.Approve.Effects.{Untouched-gauge}

module _ (org repo : String) where
  -- A row belongs to the configured repository and is in one of the two states.
  pub record IsOwn (d : PendingDeploy) : Type 0 where
    pub own_org : d.github_org ≡ org
    pub own_repo : d.github_repo ≡ repo
    pub known_state : (d.state ≡ state_pending) ⊎ (d.state ≡ state_merging)

  abbrev AllOwn : List PendingDeploy → Type 0
  AllOwn [] = Unit {0}
  AllOwn (d ∷ t) = IsOwn d × AllOwn t

  pub record IsWellFormed (t : List PendingDeploy) : Type 0 where
    pub unique : UniqueKeys t
    pub own : AllOwn t

  -- From `w` to `v` a well-formed table stays one, and entries are added to the history's end.
  pub record Advances {K : Type 0} (v w : World K) : Type 0 where
    pub table : IsWellFormed w.pending → IsWellFormed v.pending
    pub added : (entries : List HistoryEntry) × (v.history ≡ w.history ++ entries)

  own-upsert :
      (d : PendingDeploy) (t : List PendingDeploy) → IsOwn d → AllOwn t → AllOwn (upsert_row d t)
  unfolding upsert_row
  own-upsert d [] h a = (h, tt)
  own-upsert d (e ∷ t) h a = ground (arith, own-upsert d t h a.1)

  own-delete : (k : Key) (t : List PendingDeploy) → AllOwn t → AllOwn (delete_row k t)
  unfolding delete_row
  own-delete k [] a = tt
  own-delete k (e ∷ t) a = ground (arith, own-delete k t a.1)

  own-update :
      (k : Key) (f : PendingDeploy → PendingDeploy) (t : List PendingDeploy)
      → ((d : PendingDeploy) → IsOwn d → IsOwn (f d))
      → AllOwn t
      → AllOwn (update_row k f t)
  unfolding update_row
  own-update k f [] h a = tt
  own-update k f (e ∷ t) h a = ground (arith, own-update k f t h a.1, h e)

module _ {org repo : String} where
  module _ {K : Type 0} where
    pub Advances-refl : (w : World K) → Advances org repo w w
    Advances-refl w = record { table = λ h. h; added = ([], sym (append-nil w.history)) }

    pub Advances-trans :
        {u v w : World K} → Advances org repo u v → Advances org repo v w → Advances org repo u w
    Advances-trans a b = record {
      table = λ h. a.table (b.table h);
      added = (
        b.added.0 ++ a.added.0,
        a.added.1 ∙ ap (λ h. h ++ a.added.0) b.added.1 ∙ append_assoc _ b.added.0 a.added.0,
      );
    }

    -- Neither the table nor the history differs.
    pub Advances-same :
        {v w : World K} → v.pending ≡ w.pending → v.history ≡ w.history → Advances org repo v w
    Advances-same p h = record { table = λ t. rw p t; added = ([], h ∙ sym (append-nil _)) }

    -- The cache of identities counts for nothing.
    pub Advances-remember :
        (env : Env K) (user : String) {v w : World K}
        → Advances org repo v (remember env user w)
        → Advances org repo v w
    Advances-remember env user a = record { table = a.table; added = a.added }

    -- Only the table differs.
    Advances-table :
        {v w : World K}
        → (IsWellFormed org repo w.pending → IsWellFormed org repo v.pending)
        → v.history ≡ w.history
        → Advances org repo v w
    Advances-table t h = record { table = t; added = ([], h ∙ sym (append-nil _)) }

    -- A statement that fails, and one that does not.
    Advances-if :
        (b : Bool) (x y : Result (Unit {0}) × World K) {w : World K}
        → Advances org repo x.1 w
        → Advances org repo y.1 w
        → Advances org repo (if b then x else y).1 w
    Advances-if true x y p q = p
    Advances-if false x y p q = q

    module _ (env : Env K) where
      -- `normalized` puts the state `pending` where there is none, and keeps a known one.
      IsOwn-normalized :
          (now ttl : ℕ) (d : PendingDeploy)
          → IsOwn org repo d
          → IsOwn org repo (normalized now ttl d)
      unfolding normalized
      IsOwn-normalized now ttl d h = record {
        own_org = h.own_org;
        own_repo = h.own_repo;
        known_state = named (d.state == "") refl;
      }
        where
          named :
              (b : Bool)
              → (d.state == "") ≡ b
              → ((if b then state_pending else d.state) ≡ state_pending)
                ⊎ ((if b then state_pending else d.state) ≡ state_merging)
          named true e = inl refl
          named false e = h.known_state

      pub Advances-set :
          (d : PendingDeploy) (ttl : ℕ) (w : World K)
          → IsOwn org repo d
          → Advances org repo (set env d ttl w).1 w
      unfolding set
      Advances-set d ttl w h =
          let row = normalized w.now ttl d in
          Advances-if (env.fails (pg_set (key_of d))) _ _ (Advances-refl w) (
            Advances-table
              (λ t. record {
                unique = upsert-UniqueKeys row w.pending t.unique;
                own = own-upsert org repo row w.pending (IsOwn-normalized w.now ttl d h) t.own;
              })
              refl)

      pub Advances-delete : (k : Key) (w : World K) → Advances org repo (delete env k w).1 w
      unfolding delete
      Advances-delete k w = Advances-if (env.fails (pg_delete k)) _ _ (Advances-refl w) (
          Advances-table
            (λ t. record {
              unique = delete-UniqueKeys k w.pending t.unique;
              own = own-delete org repo k w.pending t.own;
            })
            refl)

      pub Advances-update_state :
          (k : Key) (state : String) (w : World K)
          → (state ≡ state_pending) ⊎ (state ≡ state_merging)
          → Advances org repo (update_state env k state w).1 w
      unfolding update_state
      Advances-update_state k state w h =
          Advances-if (env.fails (pg_update_state k state)) _ _ (Advances-refl w) (
            Advances-table
              (λ t. record {
                unique =
                    update-UniqueKeys k (λ d. record d { state = state }) w.pending (λ d. refl)
                      t.unique;
                own =
                    own-update org repo k (λ d. record d { state = state }) w.pending
                      (λ d o. record {
                        own_org = o.own_org;
                        own_repo = o.own_repo;
                        known_state = h;
                      })
                      t.own;
              })
              refl)

      pub Advances-set_slack_handle :
          (k : Key) (channel ts : String) (w : World K)
          → Advances org repo (set_slack_handle env k channel ts w).1 w
      unfolding set_slack_handle
      Advances-set_slack_handle k channel ts w =
          Advances-if (env.fails (pg_set_slack_handle k)) _ _ (Advances-refl w) (
            Advances-table
              (λ t. record {
                unique =
                    update-UniqueKeys k
                      (λ d. record d { slack_channel = channel; slack_message_ts = ts }) w.pending
                      (λ d. refl) t.unique;
                own =
                    own-update org repo k
                      (λ d. record d { slack_channel = channel; slack_message_ts = ts }) w.pending
                      (λ d o. record {
                        own_org = o.own_org;
                        own_repo = o.own_repo;
                        known_state = o.known_state;
                      })
                      t.own;
              })
              refl)

      pub Advances-push :
          (e : HistoryEntry) (w : World K) → Advances org repo (push_history env e w) w
      unfolding push_history
      Advances-push e w = pushed_if (env.fails (pg_push_history e.pr_number))
        where
          pushed_if :
              (b : Bool)
              → Advances org repo
                  (if b then w else record w { history = w.history ++ stored_entry e ∷ [] })
                  w
          pushed_if true = Advances-refl w
          pushed_if false = record { table = λ t. t; added = (stored_entry e ∷ [], refl) }

      pub Advances-send : (e : Effect) (w : World K) → Advances org repo (send e w) w
      unfolding send
      Advances-send e w = Advances-same refl refl

      pub Advances-release :
          (e app : String) (w : World K) → Advances org repo (release_lock env e app w) w
      unfolding release_lock release
      Advances-release e app w = Advances-same (ground arith) (ground arith)

      pub Advances-acquire :
          (e app holder : String) (ttl : ℕ) (w : World K)
          → Advances org repo (acquire_lock env e app holder ttl w).1 w
      unfolding acquire_lock claim
      Advances-acquire e app holder ttl w = Advances-same (ground arith) (ground arith)

      pub Advances-gauge : (w : World K) → Advances org repo (update_pending_gauge env w) w
      Advances-gauge w = let same = Untouched-gauge env w in Advances-same same.pending same.history

      Advances-run_task : (t : Task) (w : World K) → Advances org repo (run_task env t w) w
      unfolding run_task
      Advances-run_task (sends e) w = Advances-send e w
      Advances-run_task (releases_lock e app) w = Advances-release e app w
      Advances-run_task (deletes k) w = Advances-delete k w
      Advances-run_task (pushes h) w = Advances-push h w
      Advances-run_task (posts_threaded kind e pr) w =
          let same = SameDeploys-thread_ts env e w in
          unfold send in Advances-same same.pending same.history

      pub Advances-run_all : (ts : List Task) (w : World K) → Advances org repo (run_all env ts w) w
      unfolding run_all
      Advances-run_all [] w = Advances-refl w
      Advances-run_all (t ∷ ts) w =
          Advances-trans (Advances-run_all ts (run_task env t w)) (Advances-run_task t w)
