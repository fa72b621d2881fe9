-- ===== src/Config/Merged.antt =====
-- Which app a name means once the discovered apps are merged in.
use deploy_bot.Prelude.{
  String, ◌≡◌, refl, ◌∙◌, Bool, true, false, ◌||◌, Option, none, some, List, [], ◌∷◌, ◌++◌, ◌==◌,
  arith, sym, ap, find_first, some_of, if◌then◌else◌, eq_iff,
}
use deploy_bot.Config.{AppConfig, Config, full_name, is_named, app_by_name, merge_from, merge_apps}

-- The first answer that is one.
abbrev pub first_of : Option AppConfig → Option AppConfig → Option AppConfig
first_of none o = o
first_of (some a) o = some a

find_first-append :
    (name : String) (xs ys : List AppConfig)
    → find_first (is_named name) (xs ++ ys)
      ≡ first_of (find_first (is_named name) xs) (find_first (is_named name) ys)
unfolding find_first
find_first-append name [] ys = refl
find_first-append name (x ∷ xs) ys = ground (arith, find_first-append name xs ys)

abbrev found : Option AppConfig → Bool
found none = false
found (some a) = true

-- A name is found exactly when some app has it.
find_first-some_of :
    (name : String) (xs : List AppConfig)
    → found (find_first (is_named name) xs) ≡ some_of (is_named name) xs
unfolding find_first some_of
find_first-some_of name [] = refl
find_first-some_of name (x ∷ xs) = ground (arith, find_first-some_of name xs)

first_of_assoc : (a b c : Option AppConfig) → first_of (first_of a b) c ≡ first_of a (first_of b c)
first_of_assoc none b c = refl
first_of_assoc (some x) b c = refl

first_of-none : (a : Option AppConfig) → first_of a none ≡ a
first_of-none none = refl
first_of-none (some x) = refl

first_of-found : (a b c : Option AppConfig) → found a ≡ true → first_of a b ≡ first_of a c
first_of-found none b c h = cc
first_of-found (some x) b c h = refl

-- One discovered app more: it counts for a name that no app had.
find_first-add :
    (name : String) (d : AppConfig) (xs ds : List AppConfig) (known : Bool)
    → some_of (is_named (full_name d)) xs ≡ known
    → first_of
        (find_first (is_named name) (if known then xs else xs ++ d ∷ []))
        (find_first (is_named name) ds)
      ≡ first_of (find_first (is_named name) xs) (find_first (is_named name) (d ∷ ds))
unfolding find_first full_name
find_first-add name d xs ds false h = rw (find_first-append name xs (d ∷ [])) (
    first_of_assoc (find_first (is_named name) xs) _ _
    ∙ ap (first_of (find_first (is_named name) xs)) (single (full_name d == name)))
  where
    single :
        (b : Bool)
        → first_of (if b then some d else none) (find_first (is_named name) ds)
          ≡ (if b then some d else find_first (is_named name) ds)
    single true = refl
    single false = refl
find_first-add name d xs ds true h = named (full_name d == name) refl
  where
    named :
        (b : Bool)
        → (full_name d == name) ≡ b
        → first_of (find_first (is_named name) xs) (find_first (is_named name) ds)
          ≡ first_of
              (find_first (is_named name) xs)
              (if b then some d else find_first (is_named name) ds)
    named false e = refl
    named true e =
        let same = (eq_iff (full_name d) name).0 e in
        first_of-found (find_first (is_named name) xs) _ _
          (find_first-some_of name xs ∙ rw same at h)

find_first-merge_from :
    (name : String) (ds xs : List AppConfig)
    → find_first (is_named name) (merge_from xs ds)
      ≡ first_of (find_first (is_named name) xs) (find_first (is_named name) ds)
unfolding merge_from
find_first-merge_from name [] xs = unfold find_first in sym (first_of-none _)
find_first-merge_from name (d ∷ ds) xs =
    find_first-merge_from name ds (if some_of (is_named (full_name d)) xs then xs else xs ++ d ∷ [])
    ∙ find_first-add name d xs ds (some_of (is_named (full_name d)) xs) refl

-- A full name means the app of the primary configuration that has it, and the first
-- discovered app that has it where the primary configuration has none.
app_by_name-merge_apps :
    (c : Config) (name : String) (primary discovered : List AppConfig)
    → app_by_name (record c { apps = merge_apps primary discovered }) name
      ≡ first_of
          (app_by_name (record c { apps = primary }) name)
          (app_by_name (record c { apps = discovered }) name)
unfolding app_by_name merge_apps
app_by_name-merge_apps c name primary discovered = find_first-merge_from name discovered primary

-- No two apps have one full name.
abbrev pub UniqueNames : List AppConfig → Type 0
UniqueNames [] = Unit {0}
UniqueNames (a ∷ rest) = (some_of (is_named (full_name a)) rest ≡ false) × UniqueNames rest

some_of-add :
    (name : String) (d : AppConfig) (xs : List AppConfig)
    → some_of (is_named name) (xs ++ d ∷ []) ≡ (some_of (is_named name) xs || (full_name d == name))
unfolding some_of
some_of-add name d [] = ground arith
some_of-add name d (x ∷ xs) = ground (arith, some_of-add name d xs)

UniqueNames-add :
    (d : AppConfig) (xs : List AppConfig)
    → UniqueNames xs
    → some_of (is_named (full_name d)) xs ≡ false
    → UniqueNames (xs ++ d ∷ [])
unfolding some_of
UniqueNames-add d [] u h = (refl, tt)
UniqueNames-add d (x ∷ xs) u h = (
  some_of-add (full_name x) d xs
      ∙ ground
          (arith, u.0, h, eq_iff (full_name d) (full_name x), eq_iff (full_name x) (full_name d)),
  UniqueNames-add d xs u.1 (ground (arith, h)),
)

merge_from-UniqueNames : (ds xs : List AppConfig) → UniqueNames xs → UniqueNames (merge_from xs ds)
unfolding merge_from
merge_from-UniqueNames [] xs u = u
merge_from-UniqueNames (d ∷ ds) xs u =
    merge_from-UniqueNames ds (if some_of (is_named (full_name d)) xs then xs else xs ++ d ∷ [])
      (step (some_of (is_named (full_name d)) xs) refl)
  where
    step :
        (b : Bool)
        → some_of (is_named (full_name d)) xs ≡ b
        → UniqueNames (if b then xs else xs ++ d ∷ [])
    step true h = u
    step false h = UniqueNames-add d xs u h

-- Merging discovered apps never gives two apps one full name, where the primary configuration has
-- none such; and a full name then means the app of the primary configuration that has it, and the
-- first discovered app that has it where the primary configuration has none.
pub merge_apps-UniqueNames :
    (primary discovered : List AppConfig)
    → UniqueNames primary
    → UniqueNames (merge_apps primary discovered)
      × ((c : Config) (name : String)
          → app_by_name (record c { apps = merge_apps primary discovered }) name
            ≡ first_of
                (app_by_name (record c { apps = primary }) name)
                (app_by_name (record c { apps = discovered }) name))
unfolding merge_apps
merge_apps-UniqueNames primary discovered u = (
  merge_from-UniqueNames discovered primary u,
  λ c name. app_by_name-merge_apps c name primary discovered,
)
