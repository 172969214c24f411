-- ===== src/Prelude/Tables.antt =====
-- Database tables as lists of rows in insertion order: the queries and writes of a session.
use Prim.Native.Nat.{ℕ}
use mathlib.Core.Path.{◌≡◌, sym, subst, ◌∙◌}
use mathlib.Core.Bool.{false, Bool, true}
use mathlib.Core.Option.{Option, none, some}
use mathlib.Core.List.{List, [], ◌∷◌, ◌++◌}
use native.Mathlib.Omega.{arith}
use etl_agent.Prelude.Tests.{==_iff, ◌==◌, if◌then◌else◌, map_option, or_else}

module _ {ℓ} {A : Type ℓ} where
  -- `select(...).where(p)`, the first row
  unfoldable pub find : (A → Bool) → List A → Option A
  find p [] = none
  find p (x ∷ xs) = if p x then some x else find p xs

  -- `session.get(Model, id)`
  unfoldable pub by : (A → ℕ) → ℕ → List A → Option A
  by key k [] = none
  by key k (x ∷ xs) = if key x == k then some x else by key k xs

  -- the flush of a changed row
  unfoldable pub save : (A → ℕ) → A → List A → List A
  save key row [] = []
  save key row (x ∷ xs) = (if key x == key row then row else x) ∷ save key row xs

  -- `session.add(row)`
  unfoldable pub insert : A → List A → List A
  insert row xs = xs ++ row ∷ []

  pub by-key : (key : A → ℕ) (k : ℕ) (xs : List A) {x : A} → by key k xs ≡ some x → key x ≡ k
  unfolding by
  by-key key k [] h = ground arith
  by-key key k (y ∷ xs) {x} h = ground (arith, by-key key k xs {x = x})

  pub by-save :
      (key : A → ℕ) (row : A) (k : ℕ) (xs : List A)
      → by key k (save key row xs)
        ≡ (if key row == k then map_option (λ _. row) (by key k xs) else by key k xs)
  unfolding by save
  by-save key row k [] = ground arith
  by-save key row k (x ∷ xs) = ground (arith, by-save key row k xs)

  pub by-insert :
      (key : A → ℕ) (row : A) (k : ℕ) (xs : List A)
      → by key k (insert row xs) ≡ or_else (by key k xs) (if key row == k then some row else none)
  unfolding by insert
  by-insert key row k [] = ground arith
  by-insert key row k (x ∷ xs) = ground (arith, by-insert key row k xs)

  -- A row that `find` returns meets the condition.
  pub find_holds : (p : A → Bool) (xs : List A) {x : A} → find p xs ≡ some x → p x ≡ true
  unfolding find
  find_holds p [] h = ground arith
  find_holds p (y ∷ xs) {x} h = ground (arith, find_holds p xs {x = x})

  pub by_self :
      (key : A → ℕ) (k : ℕ) (xs : List A) {x : A}
      → by key k xs ≡ some x
      → by key (key x) xs ≡ some x
  by_self key k xs {x} h = subst (λ j. by key j xs ≡ some x) (sym (by-key key k xs h)) h

  -- a row that is in the table is read back as it was written
  pub by-save_self :
      (key : A → ℕ) (row : A) (k : ℕ) (xs : List A) {x : A}
      → by key k xs ≡ some x
      → key row ≡ key x
      → by key (key x) (save key row xs) ≡ some row
  by-save_self key row k xs {x} h same =
      rw (by-save key row (key x) xs) (rw (by_self key k xs h, (==_iff (key row) (key x)).1 same))

  -- a write to another row is not seen
  pub by-save_ne :
      (key : A → ℕ) (row : A) (k : ℕ) (xs : List A)
      → (key row == k) ≡ false
      → by key k (save key row xs) ≡ by key k xs
  by-save_ne key row k xs differs = rw (by-save key row k xs) (rw differs)

  -- the first row of a table after an insertion
  pub find-insert :
      (p : A → Bool) (row : A) (xs : List A)
      → find p (insert row xs) ≡ or_else (find p xs) (if p row then some row else none)
  unfolding find insert
  find-insert p row [] = ground arith
  find-insert p row (x ∷ xs) = ground (arith, find-insert p row xs)

  pub by-save_at :
      (key : A → ℕ) (row : A) (k : ℕ) (xs : List A) {x : A}
      → by key k xs ≡ some x
      → key row ≡ key x
      → by key k (save key row xs) ≡ some row
  by-save_at key row k xs {x} h same =
      rw (by-save key row k xs) (rw (h, (==_iff (key row) k).1 (same ∙ by-key key k xs h)))
