-- ===== src/Prelude/Lists.antt =====
-- Lists over the native numbers, with Boolean tests.
use Prim.Native.Nat.{ℕ, suc, ◌+◌, ◌≤◌}
use mathlib.Core.Path.{◌≡◌, refl, ap}
use mathlib.Core.Bool.{Bool, true, false, ◌&&◌, ◌||◌}
use mathlib.Core.Option.{Option, none, some}
use mathlib.Core.List.{List, [], ◌∷◌, ◌++◌}
use mathlib.Core.List.Memᴰ.{head, tail, not-nil}
use mathlib.Core.List.{Memᴰ}
use native.Mathlib.Omega.{arith}
use deploy_bot.Prelude.Tests.{if◌then◌else◌}

module _ {ℓ} {A : Type ℓ} where
  abbrev pub length : List A → ℕ
  length [] = 0
  length (x ∷ xs) = suc (length xs)

  pub length-append : (xs ys : List A) → length (xs ++ ys) ≡ length xs + length ys
  length-append [] ys = omega arith
  length-append (x ∷ xs) ys = omega (arith, length-append xs ys)

  -- The rows that pass a test, as a SQL `WHERE` selects them.
  unfoldable pub select : (A → Bool) → List A → List A
  select p [] = []
  select p (x ∷ xs) = let rest = select p xs in if p x then x ∷ rest else rest

  unfoldable pub find_first : (A → Bool) → List A → Option A
  find_first p [] = none
  find_first p (x ∷ xs) = let rest = find_first p xs in if p x then some x else rest

  unfoldable pub some_of : (A → Bool) → List A → Bool
  some_of p [] = false
  some_of p (x ∷ xs) = p x || some_of p xs

  unfoldable pub every : (A → Bool) → List A → Bool
  every p [] = true
  every p (x ∷ xs) = p x && every p xs

  pub select-append :
      (p : A → Bool) (xs ys : List A) → select p (xs ++ ys) ≡ select p xs ++ select p ys
  unfolding select
  select-append p [] ys = refl
  select-append p (x ∷ xs) ys = ground (arith, select-append p xs ys)

  pub every-select : (p : A → Bool) (xs : List A) → every p (select p xs) ≡ true
  unfolding every select
  every-select p [] = refl
  every-select p (x ∷ xs) = ground (arith, every-select p xs)

  pub length-select-le : (p : A → Bool) (xs : List A) → length (select p xs) ≤ length xs
  unfolding select
  length-select-le p [] = omega arith
  length-select-le p (x ∷ xs) = ground (arith, length-select-le p xs)

  abbrev pub head? : List A → Option A
  head? [] = none
  head? (x ∷ xs) = some x

  -- SQL's ORDER BY, as an insertion sort: `before x y` puts `x` first.
  unfoldable pub insert_by : (A → A → Bool) → A → List A → List A
  insert_by before x [] = x ∷ []
  insert_by before x (y ∷ ys) = if before x y then x ∷ y ∷ ys else y ∷ insert_by before x ys

  unfoldable pub sort_by : (A → A → Bool) → List A → List A
  unfolding insert_by
  sort_by before [] = []
  sort_by before (x ∷ xs) = insert_by before x (sort_by before xs)

  pub some_of-insert_by :
      (before : A → A → Bool) (p : A → Bool) (x : A) (ys : List A)
      → some_of p (insert_by before x ys) ≡ (p x || some_of p ys)
  unfolding some_of insert_by
  some_of-insert_by before p x [] = refl
  some_of-insert_by before p x (y ∷ ys) = ground (arith, some_of-insert_by before p x ys)

  -- Sorting neither loses nor adds an element.
  pub some_of-sort_by :
      (before : A → A → Bool) (p : A → Bool) (xs : List A)
      → some_of p (sort_by before xs) ≡ some_of p xs
  unfolding some_of sort_by
  some_of-sort_by before p [] = refl
  some_of-sort_by before p (x ∷ xs) =
      ground (arith, some_of-sort_by before p xs, some_of-insert_by before p x (sort_by before xs))

  pub some_of-select_and :
      (p q : A → Bool) (xs : List A) → some_of q (select p xs) ≡ some_of (λ x. p x && q x) xs
  unfolding some_of select
  some_of-select_and p q [] = refl
  some_of-select_and p q (x ∷ xs) = ground (arith, some_of-select_and p q xs)

  -- What a positive test of a list stands on.
  pub some_of-witness :
      (p : A → Bool) (xs : List A) → some_of p xs ≡ true → (x : A) × Memᴰ x xs × (p x ≡ true)
  unfolding some_of
  some_of-witness p [] h = cc
  some_of-witness p (x ∷ xs) h = tested (p x) refl (some_of-witness p xs)
    where
      tested :
          (b : Bool)
          → p x ≡ b
          → (some_of p xs ≡ true → (y : A) × Memᴰ y xs × (p y ≡ true))
          → (y : A) × Memᴰ y (x ∷ xs) × (p y ≡ true)
      tested true e rest = (x, head refl, e)
      tested false e rest = let r = rest (ground (arith, h, e)) in (r.0, tail r.1, r.2)

  pub some_of-Memᴰ :
      (p : A → Bool) {x : A} (xs : List A) → Memᴰ x xs → p x ≡ true → some_of p xs ≡ true
  unfolding some_of
  some_of-Memᴰ p [] m h = absurd (not-nil m)
  some_of-Memᴰ p (y ∷ xs) (head e) h = ground (arith, h, ap p e)
  some_of-Memᴰ p (y ∷ xs) (tail m) h = ground (arith, some_of-Memᴰ p xs m h)
