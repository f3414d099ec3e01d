-- ===== src/Prelude/Lists.antt =====
-- Vectors and slices as lists that are measured and indexed by native numbers.
use Prim.Native.Nat.{ℕ, zero, suc, ◌+◌, ◌≤◌, ◌<◌}
use mathlib.Core.Path.{◌≡◌, refl, ap}
use mathlib.Core.List.{List, [], ◌∷◌, ◌++◌}
use mathlib.Core.Logic.{◌⊎◌, inl, inr}
use mathlib.Core.Option.{Option, none, some}
use native.Mathlib.Omega.{arith}

module _ {ℓ} {A : Type ℓ} where
  abbrev pub length : List A → ℕ
  length [] = 0
  length (x ∷ xs) = suc (length xs)

  abbrev pub get_elem? : List A → ℕ → Option A
  get_elem? [] i = none
  get_elem? (x ∷ xs) zero = some x
  get_elem? (x ∷ xs) (suc i) = get_elem? xs i

  -- A write out of bounds changes nothing.
  abbrev pub set : List A → ℕ → A → List A
  set [] i v = []
  set (x ∷ xs) zero v = v ∷ xs
  set (x ∷ xs) (suc i) v = x ∷ set xs i v

  abbrev pub take : ℕ → List A → List A
  take zero xs = []
  take (suc n) [] = []
  take (suc n) (x ∷ xs) = x ∷ take n xs

  abbrev pub drop : ℕ → List A → List A
  drop zero xs = xs
  drop (suc n) [] = []
  drop (suc n) (x ∷ xs) = drop n xs

  -- `Vec::remove`, on an index in range.
  abbrev pub remove_at : ℕ → List A → List A
  remove_at i [] = []
  remove_at zero (x ∷ xs) = xs
  remove_at (suc i) (x ∷ xs) = x ∷ remove_at i xs

  -- `Vec::insert`, on an index up to the length.
  abbrev pub insert_at : ℕ → A → List A → List A
  insert_at zero v xs = v ∷ xs
  insert_at (suc i) v [] = v ∷ []
  insert_at (suc i) v (x ∷ xs) = x ∷ insert_at i v xs

  pub length-append : (xs ys : List A) → length (xs ++ ys) ≡ length xs + length ys
  length-append [] ys = omega arith
  length-append (x ∷ xs) ys = omega (arith, length-append xs ys)

  pub length-set : (xs : List A) (i : ℕ) (v : A) → length (set xs i v) ≡ length xs
  length-set [] i v = refl
  length-set (x ∷ xs) zero v = refl
  length-set (x ∷ xs) (suc i) v = ap suc (length-set xs i v)

  pub length-remove_at :
      (i : ℕ) (xs : List A) → i < length xs → length (remove_at i xs) + 1 ≡ length xs
  length-remove_at i [] h = absurd (omega arith)
  length-remove_at zero (x ∷ xs) h = omega arith
  length-remove_at (suc i) (x ∷ xs) h = omega (arith, length-remove_at i xs (omega arith))

  pub get_elem?-lt : (xs : List A) (i : ℕ) → i < length xs → (x : A) × (get_elem? xs i ≡ some x)
  get_elem?-lt [] i h = absurd (omega arith)
  get_elem?-lt (x ∷ xs) zero h = (x, refl)
  get_elem?-lt (x ∷ xs) (suc i) h = get_elem?-lt xs i (omega arith)

  pub take_all_but_last : (xs : List A) (x : A) → take (length xs) (xs ++ x ∷ []) ≡ xs
  take_all_but_last [] x = refl
  take_all_but_last (y ∷ xs) x = ap (◌∷◌ y) (take_all_but_last xs x)

  pub get_elem?-set :
      (xs : List A) (i : ℕ) (v : A) → i < length xs → get_elem? (set xs i v) i ≡ some v
  get_elem?-set [] i v h = absurd (omega arith)
  get_elem?-set (x ∷ xs) zero v h = refl
  get_elem?-set (x ∷ xs) (suc i) v h = get_elem?-set xs i v (omega arith)

  pub get_elem?-below : (xs : List A) (i : ℕ) {x : A} → get_elem? xs i ≡ some x → i < length xs
  get_elem?-below [] i h = cc
  get_elem?-below (y ∷ xs) zero h = omega arith
  get_elem?-below (y ∷ xs) (suc i) h = omega (arith, get_elem?-below xs i h)

  pub get_elem?-append :
      (xs ys : List A) (i : ℕ) {x : A} → get_elem? xs i ≡ some x → get_elem? (xs ++ ys) i ≡ some x
  get_elem?-append [] ys i h = cc
  get_elem?-append (y ∷ xs) ys zero h = h
  get_elem?-append (y ∷ xs) ys (suc i) h = get_elem?-append xs ys i h

  pub get_elem?-last : (xs : List A) (x : A) → get_elem? (xs ++ x ∷ []) (length xs) ≡ some x
  get_elem?-last [] x = refl
  get_elem?-last (y ∷ xs) x = get_elem?-last xs x

  -- What a list with one more entry holds, it held before, or it is that entry.
  pub get_elem?-last_cases :
      (xs : List A) (x : A) (i : ℕ) {y : A}
      → get_elem? (xs ++ x ∷ []) i ≡ some y
      → (get_elem? xs i ≡ some y) ⊎ ((i ≡ length xs) × (x ≡ y))
  get_elem?-last_cases [] x zero h = inr (refl, ground arith)
  get_elem?-last_cases [] x (suc i) h = cc
  get_elem?-last_cases (z ∷ xs) x zero h = inl h
  get_elem?-last_cases (z ∷ xs) x (suc i) h = elim (get_elem?-last_cases xs x i h) [
    | inl old ↦ inl old
    | inr new ↦ inr (ground arith)
  ]

  pub take-drop : (n : ℕ) (xs : List A) → take n xs ++ drop n xs ≡ xs
  take-drop zero xs = refl
  take-drop (suc n) [] = refl
  take-drop (suc n) (x ∷ xs) = ap (◌∷◌ x) (take-drop n xs)

  pub length-halves :
      (n : ℕ) (xs : List A)
      → n ≤ length xs
      → (length (take n xs) ≡ n) × (n + length (drop n xs) ≡ length xs)
  length-halves zero xs h = (refl, omega arith)
  length-halves (suc n) [] h = absurd (omega arith)
  length-halves (suc n) (x ∷ xs) h =
      let (front, back) = length-halves n xs (omega arith) in (ap suc front, omega (arith, back))

  pub length-insert_at : (i : ℕ) (v : A) (xs : List A) → length (insert_at i v xs) ≡ suc (length xs)
  length-insert_at zero v xs = refl
  length-insert_at (suc i) v [] = refl
  length-insert_at (suc i) v (x ∷ xs) = ap suc (length-insert_at i v xs)

  pub insert_at-front :
      (i : ℕ) (v : A) (xs ys : List A)
      → i ≤ length xs
      → insert_at i v xs ++ ys ≡ insert_at i v (xs ++ ys)
  insert_at-front zero v xs ys h = refl
  insert_at-front (suc i) v [] ys h = absurd (omega arith)
  insert_at-front (suc i) v (x ∷ xs) ys h = ap (◌∷◌ x) (insert_at-front i v xs ys (omega arith))

  pub insert_at-back :
      (i k : ℕ) (v : A) (xs ys : List A)
      → length xs + i ≡ k
      → xs ++ insert_at i v ys ≡ insert_at k v (xs ++ ys)
  insert_at-back i k v [] ys h = ap (λ j. insert_at j v ys) (omega arith)
  insert_at-back i zero v (x ∷ xs) ys h = absurd (omega arith)
  insert_at-back i (suc k) v (x ∷ xs) ys h = ap (◌∷◌ x) (insert_at-back i k v xs ys (omega arith))
