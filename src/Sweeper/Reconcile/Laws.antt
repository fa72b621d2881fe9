-- ===== src/Sweeper/Reconcile/Laws.antt =====
-- Reconciling only adds rows, and adds one for every open pull request that has metadata.
use deploy_bot.Prelude.{
  String, ◌≡◌, refl, sym, ◌∙◌, ap, Bool, ◌++◌, some_of, ℤ, int_eq, int_eq_iff, true, false, Option,
  none, some, List, [], ◌∷◌, arith, if◌then◌else◌, Option-cases, inl, inr, ◌⊎◌,
}
use mathlib.Core.List.{Memᴰ}
use mathlib.Core.List.Memᴰ.{head, tail, not-nil}
use deploy_bot.Store.Types.{Key, PendingDeploy, key_eq, key_eq_iff}
use deploy_bot.Store.Table.{find_row, key_eq_refl}
use deploy_bot.Store.Pending.{Result, ok, err, get, set, database, normalized}
use deploy_bot.Store.Pending.Laws.{find-set_other, find-set}
use deploy_bot.World.{Env, World, send, pg_get, pg_set}
use deploy_bot.Config.{pending_label, deploy_label}
use deploy_bot.Bot.Approve.{config_key}
use deploy_bot.Sweeper.Expiry.Laws.{AllSucceed}
use deploy_bot.Sweeper.Reconcile.{
  Issue, PrMeta, recovered_deploy, recovered_ttl, labelled, rehydrate, reconcile_missing,
  reconcile_issue, reconcile_all, reconcile_from_github, unseen, listed,
}

-- The table has a row with the key.
abbrev pub Found : {K : Type 0} → Key → World K → Type 0
Found k w = (d : PendingDeploy) × (find_row k w.pending ≡ some d)

module _ {K : Type 0} (env : Env K) (parse_meta : String → Option PrMeta) where
  find-labelled :
      (i : Issue) (k : Key) (r : Result (Unit {0}) × World K)
      → find_row k (labelled env parse_meta i r).pending ≡ find_row k r.1.pending
  unfolding labelled send
  find-labelled i k (err e, w) = refl
  find-labelled i k (ok u, w) = refl

  -- A key with a row is not a key without one.
  differs :
      (j k : Key) (w : World K) {d : PendingDeploy}
      → find_row j w.pending ≡ some d
      → find_row k w.pending ≡ none
      → key_eq j k ≡ false
  differs j k w {d} h free = ground (arith, key_eq_iff j k)

  rehydrate-keeps :
      (i : Issue) (o : Option PrMeta) (k : Key) (w : World K)
      → key_eq k (config_key env i.number) ≡ false
      → find_row k (rehydrate env parse_meta i o w).pending ≡ find_row k w.pending
  unfolding rehydrate recovered_deploy
  rehydrate-keeps i none k w h = refl
  rehydrate-keeps i (some m) k w h = find-labelled i k _ ∙ find-set_other env k _ _ w h

  issue-keeps :
      (i : Issue) (k : Key) (w : World K) {d : PendingDeploy}
      → find_row k w.pending ≡ some d
      → find_row k (reconcile_issue env parse_meta i w).pending ≡ some d
  unfolding reconcile_issue get
  issue-keeps i k w {d} h =
      checked (env.fails (pg_get (config_key env i.number)))
        (Option-cases (find_row (config_key env i.number) w.pending))
    where
      checked :
          (b : Bool)
          → (find_row (config_key env i.number) w.pending ≡ none)
            ⊎ ((x : PendingDeploy) × (find_row (config_key env i.number) w.pending ≡ some x))
          → find_row k
              (reconcile_missing env parse_meta
                (if b then err database else ok (find_row (config_key env i.number) w.pending))
                i
                w).pending
            ≡ some d
      checked true c = unfold reconcile_missing in h
      checked false (inl e) =
          unfold reconcile_missing in
          rw e (
            rehydrate-keeps i (parse_meta i.body) k w
              (differs k (config_key env i.number) w {d = d} h e)
            ∙ h)
      checked false (inr (x, e)) = unfold reconcile_missing in rw e h

  -- Reconciling changes no row that is there, whatever fails and whatever GitHub lists.
  pub reconcile_all-keeps :
      (is : List Issue) (k : Key) (w : World K) {d : PendingDeploy}
      → find_row k w.pending ≡ some d
      → find_row k (reconcile_all env parse_meta is w).pending ≡ some d
  unfolding reconcile_all
  reconcile_all-keeps [] k w h = h
  reconcile_all-keeps (i ∷ is) k w {d} h =
      reconcile_all-keeps is k (reconcile_issue env parse_meta i w) {d = d}
        (issue-keeps i k w {d = d} h)

  find-rehydrate :
      (i : Issue) (m : PrMeta) (w : World K)
      → env.fails (pg_set (config_key env i.number)) ≡ false
      → Found (config_key env i.number) (rehydrate env parse_meta i (some m) w)
  unfolding rehydrate recovered_deploy
  find-rehydrate i m w h =
      let d = recovered_deploy env parse_meta i m w.now in
      let ttl = recovered_ttl d.expires_at w.now in
      let row : find_row (config_key env i.number) (set env d ttl w).1.pending
          ≡ some (normalized w.now ttl d) =
        find-set env (config_key env i.number) d ttl w h
        ∙ rw (key_eq_refl (config_key env i.number)) refl in
      (normalized w.now ttl d, find-labelled i (config_key env i.number) _ ∙ row)

  issue-Found :
      (i : Issue) {m : PrMeta} (w : World K)
      → AllSucceed env
      → parse_meta i.body ≡ some m
      → Found (config_key env i.number) (reconcile_issue env parse_meta i w)
  unfolding reconcile_issue get
  issue-Found i {m} w ok_all e =
      elim (Option-cases (find_row (config_key env i.number) w.pending)) [
        | inl free ↦
            unfold reconcile_missing in
            rw (ok_all (pg_get (config_key env i.number)), free, e)
              (find-rehydrate i m w (ok_all (pg_set (config_key env i.number))))
        | inr (d, there) ↦
            unfold reconcile_missing in
            rw (ok_all (pg_get (config_key env i.number)), there) (d, there)
      ]

  -- When no store operation fails, every open pull request that GitHub lists and whose body holds
  -- metadata has a row afterwards.
  reconcile_all-Found :
      (is : List Issue) (i : Issue) {m : PrMeta} (w : World K)
      → AllSucceed env
      → Memᴰ i is
      → parse_meta i.body ≡ some m
      → Found (config_key env i.number) (reconcile_all env parse_meta is w)
  unfolding reconcile_all
  reconcile_all-Found [] i w ok_all at e = absurd (not-nil at)
  reconcile_all-Found (j ∷ is) i {m} w ok_all (head same) e =
      let r = issue-Found j {m = m} w ok_all (rw⁻¹ same e) in
      (
        r.0,
        reconcile_all-keeps is (config_key env i.number) (reconcile_issue env parse_meta j w)
            {d = r.0} (rw same r.1),
      )
  reconcile_all-Found (j ∷ is) i {m} w ok_all (tail at) e =
      reconcile_all-Found is i {m = m} (reconcile_issue env parse_meta j w) ok_all at e

-- The first listed issue with the number of a listed one is kept, when the number was not seen.
unseen-Memᴰ :
    (seen : List ℤ) (is : List Issue) {i : Issue}
    → Memᴰ i is
    → some_of (int_eq i.number) seen ≡ false
    → (j : Issue) × Memᴰ j (unseen seen is) × Memᴰ j is × (int_eq i.number j.number ≡ true)
unfolding unseen some_of
unseen-Memᴰ seen [] m free = absurd (not-nil m)
unseen-Memᴰ seen (x ∷ is) {i} (head same) free =
    first (some_of (int_eq x.number) seen)
      (sym (ap (λ y. some_of (int_eq y.number) seen) same) ∙ free)
  where
    first :
        (b : Bool)
        → b ≡ false
        → (j : Issue) × Memᴰ j
            (elim b [ true ↦ unseen seen is | false ↦ x ∷ unseen (x.number ∷ seen) is ])
          × Memᴰ j (x ∷ is)
          × (int_eq i.number j.number ≡ true)
    first true e = cc
    first false e =
        (x, head refl, head refl, (int_eq_iff i.number x.number).1 (ap (λ y. y.number) same))
unseen-Memᴰ seen (x ∷ is) {i} (tail m) free =
    placed (some_of (int_eq x.number) seen) (int_eq i.number x.number) refl
      (unseen-Memᴰ seen is {i = i} m free)
      (λ other. unseen-Memᴰ (x.number ∷ seen) is {i = i} m (ground (arith, other, free)))
  where
    Kept : List Issue → List Issue → Type 0
    Kept kept all = (j : Issue) × Memᴰ j kept × Memᴰ j all × (int_eq i.number j.number ≡ true)

    placed :
        (b c : Bool)
        → int_eq i.number x.number ≡ c
        → Kept (unseen seen is) is
        → (int_eq i.number x.number ≡ false → Kept (unseen (x.number ∷ seen) is) is)
        → Kept (elim b [ true ↦ unseen seen is | false ↦ x ∷ unseen (x.number ∷ seen) is ]) (x ∷ is)
    placed true c e skip fresh = (skip.0, skip.1, tail skip.2, skip.3)
    placed false true e skip fresh = (x, head refl, head refl, e)
    placed false false e skip fresh = let r = fresh e in (r.0, tail r.1, tail r.2, r.3)

append-left : (xs ys : List Issue) {i : Issue} → Memᴰ i xs → Memᴰ i (xs ++ ys)
append-left [] ys m = absurd (not-nil m)
append-left (x ∷ xs) ys (head same) = head same
append-left (x ∷ xs) ys (tail m) = tail (append-left xs ys m)

append-right : (xs ys : List Issue) {i : Issue} → Memᴰ i ys → Memᴰ i (xs ++ ys)
append-right [] ys m = m
append-right (x ∷ xs) ys m = tail (append-right xs ys m)

-- What GitHub lists under the pending label or under the deploy label.
abbrev pub Listed : {K : Type 0} → Env K → (String → Option (List Issue)) → Issue → Type 0
Listed env issues i =
    Memᴰ i (listed (issues (pending_label env.cfg)))
    ⊎ Memᴰ i (listed (issues (deploy_label env.cfg)))

-- When no store operation fails, every open pull request that GitHub lists under the pending label or
-- under the deploy label, and whose body holds metadata, has a row after the reconciliation. GitHub
-- gives one number one body.
pub reconcile_from_github-Found :
    {K : Type 0} (env : Env K) (parse_meta : String → Option PrMeta)
    (issues : String → Option (List Issue)) (i : Issue) {m : PrMeta} (w : World K)
    → AllSucceed env
    → ((a b : Issue)
        → Listed env issues a
        → Listed env issues b
        → a.number ≡ b.number
        → a.body ≡ b.body)
    → Listed env issues i
    → parse_meta i.body ≡ some m
    → Found (config_key env i.number) (reconcile_from_github env parse_meta issues w)
unfolding reconcile_from_github some_of
reconcile_from_github-Found env parse_meta issues i {m} w ok_all one_body at e =
    let pending = listed (issues (pending_label env.cfg)) in
    let base = listed (issues (deploy_label env.cfg)) in
    let all = pending ++ base in
    let r = unseen-Memᴰ [] all {i = i} (everywhere pending base at) refl in
    let same = (int_eq_iff i.number r.0.number).0 r.3 in
    let body = one_body i r.0 at (either pending base r.2) same in
    let found =
      reconcile_all-Found env parse_meta (unseen [] all) r.0 {m = m} w ok_all r.1
        (ap parse_meta (sym body) ∙ e) in
    rw same found
  where
    everywhere : (xs ys : List Issue) {j : Issue} → Memᴰ j xs ⊎ Memᴰ j ys → Memᴰ j (xs ++ ys)
    everywhere xs ys (inl n) = append-left xs ys n
    everywhere xs ys (inr n) = append-right xs ys n

    either : (xs ys : List Issue) {j : Issue} → Memᴰ j (xs ++ ys) → Memᴰ j xs ⊎ Memᴰ j ys
    either [] ys n = inr n
    either (x ∷ xs) ys (head s) = inl (head s)
    either (x ∷ xs) ys {j} (tail n) = shifted (either xs ys {j = j} n)
      where
        shifted : Memᴰ j xs ⊎ Memᴰ j ys → Memᴰ j (x ∷ xs) ⊎ Memᴰ j ys
        shifted (inl k) = inl (tail k)
        shifted (inr k) = inr k
