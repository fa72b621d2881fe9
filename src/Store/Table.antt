-- ===== src/Store/Table.antt =====
-- The statements of internal/store/store.go on the table `pending_deploys`, a list of rows.
use deploy_bot.Prelude.{
  ◌≡◌, refl, Bool, true, false, not, some_of, Option, none, some, List, [], ◌∷◌, arith, select,
  find_first, if◌then◌else◌,
}
use mathlib.Core.Option
use deploy_bot.Store.Types.{Key, PendingDeploy, key_of, key_eq, key_eq_iff}

abbrev pub has_key : Key → PendingDeploy → Bool
has_key k d = key_eq k (key_of d)

-- SELECT … WHERE github_org = $1 AND github_repo = $2 AND pr_number = $3
unfoldable pub find_row : Key → List PendingDeploy → Option PendingDeploy
unfolding find_first
find_row k = find_first (has_key k)

-- INSERT … ON CONFLICT (github_org, github_repo, pr_number) DO UPDATE SET …
unfoldable pub upsert_row : PendingDeploy → List PendingDeploy → List PendingDeploy
upsert_row d [] = d ∷ []
upsert_row d (e ∷ t) = if has_key (key_of d) e then d ∷ t else e ∷ upsert_row d t

-- DELETE … WHERE the key
unfoldable pub delete_row : Key → List PendingDeploy → List PendingDeploy
unfolding select
delete_row k = select (λ d. not (has_key k d))

-- UPDATE … SET … WHERE the key
unfoldable pub update_row :
    Key → (PendingDeploy → PendingDeploy) → List PendingDeploy → List PendingDeploy
update_row k f [] = []
update_row k f (d ∷ t) = (if has_key k d then f d else d) ∷ update_row k f t

-- No two rows have one key: what the primary key keeps.
abbrev pub UniqueKeys : List PendingDeploy → Type 0
UniqueKeys [] = Unit {0}
UniqueKeys (d ∷ t) = (find_row (key_of d) t ≡ none) × UniqueKeys t

-- The statements change no key.
abbrev KeepsKey : (PendingDeploy → PendingDeploy) → Type 0
KeepsKey f = (d : PendingDeploy) → key_of (f d) ≡ key_of d

key_eq_sym : (j k : Key) → key_eq j k ≡ key_eq k j
key_eq_sym j k = ground (arith, key_eq_iff j k, key_eq_iff k j)

pub find-upsert :
    (k : Key) (d : PendingDeploy) (t : List PendingDeploy)
    → find_row k (upsert_row d t) ≡ (if key_eq k (key_of d) then some d else find_row k t)
unfolding find_row upsert_row
find-upsert k d [] = refl
find-upsert k d (e ∷ t) = ground (
  arith,
  find-upsert k d t,
  key_eq_iff k (key_of d),
  key_eq_iff k (key_of e),
  key_eq_iff (key_of d) (key_of e),
)

pub find-delete :
    (j k : Key) (t : List PendingDeploy)
    → find_row j (delete_row k t) ≡ (if key_eq j k then none else find_row j t)
unfolding find_row delete_row
find-delete j k [] = ground arith
find-delete j k (e ∷ t) =
    ground
      (arith, find-delete j k t, key_eq_iff j k, key_eq_iff j (key_of e), key_eq_iff k (key_of e))

pub find-update :
    (j k : Key) (f : PendingDeploy → PendingDeploy) (t : List PendingDeploy)
    → KeepsKey f
    → find_row j (update_row k f t)
      ≡ (if key_eq j k then Option.map f (find_row j t) else find_row j t)
unfolding find_row update_row
find-update j k f [] h = ground arith
find-update j k f (e ∷ t) h = ground (
  arith,
  h e,
  find-update j k f t h,
  key_eq_iff j k,
  key_eq_iff j (key_of e),
  key_eq_iff k (key_of e),
)

pub upsert-UniqueKeys :
    (d : PendingDeploy) (t : List PendingDeploy) → UniqueKeys t → UniqueKeys (upsert_row d t)
unfolding upsert_row
upsert-UniqueKeys d [] u = (unfold find_row in refl, tt)
upsert-UniqueKeys d (e ∷ t) u = ground (
  arith,
  upsert-UniqueKeys d t u.1,
  find-upsert (key_of e) d t,
  key_eq_sym (key_of e) (key_of d),
  key_eq_iff (key_of d) (key_of e),
)

pub delete-UniqueKeys :
    (k : Key) (t : List PendingDeploy) → UniqueKeys t → UniqueKeys (delete_row k t)
unfolding delete_row
delete-UniqueKeys k [] u = tt
delete-UniqueKeys k (e ∷ t) u =
    ground (arith, delete-UniqueKeys k t u.1, find-delete (key_of e) k t)

pub update-UniqueKeys :
    (k : Key) (f : PendingDeploy → PendingDeploy) (t : List PendingDeploy)
    → KeepsKey f
    → UniqueKeys t
    → UniqueKeys (update_row k f t)
unfolding update_row
update-UniqueKeys k f [] h u = tt
update-UniqueKeys k f (e ∷ t) h u =
    ground (arith, h e, update-UniqueKeys k f t h u.1, find-update (key_of e) k f t h)

pub find_row-key :
    (k : Key) (t : List PendingDeploy) {d : PendingDeploy} → find_row k t ≡ some d → key_of d ≡ k
unfolding find_row
find_row-key k [] h = cc
find_row-key k (e ∷ t) {d} h = ground (arith, find_row-key k t {d = d}, key_eq_iff k (key_of e))

pub key_eq_refl : (k : Key) → key_eq k k ≡ true
key_eq_refl k = (key_eq_iff k k).1 refl

-- Whether a row that was found passes a test.
abbrev pub holds_of : (PendingDeploy → Bool) → Option PendingDeploy → Bool
holds_of p none = false
holds_of p (some d) = p d

-- Where no two rows have one key, a row with the key is selected exactly when it passes the test.
pub some_of-select :
    (k : Key) (p : PendingDeploy → Bool) (t : List PendingDeploy)
    → UniqueKeys t
    → some_of (has_key k) (select p t) ≡ holds_of p (find_row k t)
unfolding some_of select find_row
some_of-select k p [] u = refl
some_of-select k p (d ∷ t) u =
    ground (arith, some_of-select k p t u.1, key_eq_iff k (key_of d), u.0)

-- Two updates of the columns of one row may be made in either order, where they commute and change
-- no key.
pub update_row-update_row :
    (k : Key) (f g : PendingDeploy → PendingDeploy) (t : List PendingDeploy)
    → KeepsKey f
    → KeepsKey g
    → ((d : PendingDeploy) → f (g d) ≡ g (f d))
    → update_row k f (update_row k g t) ≡ update_row k g (update_row k f t)
unfolding update_row
update_row-update_row k f g [] kf kg h = refl
update_row-update_row k f g (d ∷ t) kf kg h =
    ground (arith, update_row-update_row k f g t kf kg h, h d, kf d, kg d)
