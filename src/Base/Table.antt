-- ===== src/Base/Table.antt =====
-- Database tables as lists of rows, with the queries that the services make.
use Prim.Native.Nat.{ℕ, suc, ◌+◌, ◌≤◌}
use mathlib.Core.Path.{◌≡◌, refl, subst}
use mathlib.Core.Logic.{inl, inr}
use mathlib.Core.Bool.{Bool, true, false}
use mathlib.Core.Option.{Option, none, some, some-injective}
use mathlib.Core.List.{List, [], ◌∷◌}
use native.Mathlib.Omega.{arith}
use saas_frontend.Base.Tests.{if◌then◌else◌, Bool-cases}

module _ {ℓ} {A : Type ℓ} where
  -- Whether a query has found a row.
  abbrev pub is_some : Option A → Bool
  is_some none = false
  is_some (some x) = true

  -- `findOne({ where })`: the first row that meets the condition.
  abbrev pub find_one : (A → Bool) → List A → Option A
  find_one p [] = none
  find_one p (x ∷ xs) = if p x then some x else find_one p xs

  -- `update(values, { where })`
  abbrev pub update_where : (A → Bool) → (A → A) → List A → List A
  update_where p f [] = []
  update_where p f (x ∷ xs) = (if p x then f x else x) ∷ update_where p f xs

  -- `count({ where })`
  abbrev pub count_where : (A → Bool) → List A → ℕ
  count_where p [] = 0
  count_where p (x ∷ xs) = (if p x then 1 else 0) + count_where p xs

  abbrev pub All {κ} : (A → Type κ) → List A → Type κ
  All P [] = Unit
  All P (x ∷ xs) = P x × All P xs

  -- A row that was found is a row of the table, and meets the condition.
  pub find_one-All {κ} :
      (P : A → Type κ) (p : A → Bool) (xs : List A) {x : A}
      → find_one p xs ≡ some x
      → All P xs
      → P x × (p x ≡ true)
  find_one-All P p [] e h = cc
  find_one-All P p (y ∷ xs) {x} e h = elim (Bool-cases (p y)) [
    | inl hit ↦ subst (λ z. P z × (p z ≡ true)) (some-injective y x (rw hit at e)) (h.0, hit)
    | inr miss ↦ find_one-All P p xs (rw miss at e) h.1
  ]

  pub find_one-holds : (p : A → Bool) (xs : List A) {x : A} → find_one p xs ≡ some x → p x ≡ true
  find_one-holds p [] e = cc
  find_one-holds p (y ∷ xs) {x} e = elim (Bool-cases (p y)) [
    | inl hit ↦ subst (λ z. p z ≡ true) (some-injective y x (rw hit at e)) hit
    | inr miss ↦ find_one-holds p xs (rw miss at e)
  ]

  -- A property of every row after an update: of the rows that it writes, and of those it leaves.
  pub update_where-All {κ} :
      (P Q : A → Type κ) (p : A → Bool) (f : A → A) (xs : List A)
      → ((x : A) → P x → p x ≡ true → Q (f x))
      → ((x : A) → P x → p x ≡ false → Q x)
      → All P xs
      → All Q (update_where p f xs)
  update_where-All P Q p f [] hit miss h = tt
  update_where-All P Q p f (x ∷ xs) hit miss h = (
    elim (Bool-cases (p x)) [ inl e ↦ rw e (hit x h.0 e) | inr e ↦ rw e (miss x h.0 e) ],
    update_where-All P Q p f xs hit miss h.1,
  )

  pub map-All {κ} : (P Q : A → Type κ) (xs : List A) → ((x : A) → P x → Q x) → All P xs → All Q xs
  map-All P Q [] f h = tt
  map-All P Q (x ∷ xs) f h = (f x h.0, map-All P Q xs f h.1)

  -- A query that an update does not touch: the rows it writes keep their answer to the query.
  pub find_one-update_where :
      (q p : A → Bool) (f : A → A) (xs : List A) {x : A}
      → ((y : A) → q (f y) ≡ q y)
      → find_one q xs ≡ some x
      → find_one q (update_where p f xs) ≡ some (if p x then f x else x)
  find_one-update_where q p f [] keep e = cc
  find_one-update_where q p f (y ∷ xs) {x} keep e = elim (Bool-cases (p y)) [
    | inl hit ↦ ground (arith, keep y, hit, find_one-update_where q p f xs {x = x} keep)
    | inr miss ↦ ground (arith, miss, find_one-update_where q p f xs {x = x} keep)
  ]

  -- Rows that the update's condition leaves out are found as before.
  pub find_one-update_where_other :
      (q p : A → Bool) (f : A → A) (xs : List A)
      → ((y : A) → q (f y) ≡ q y)
      → ((y : A) → q y ≡ true → p y ≡ false)
      → find_one q (update_where p f xs) ≡ find_one q xs
  find_one-update_where_other q p f [] keep apart = refl
  find_one-update_where_other q p f (y ∷ xs) keep apart = elim (Bool-cases (q y)) [
    | inl hit ↦ rw (apart y hit, hit) refl
    | inr miss ↦ elim (Bool-cases (p y)) [
      | inl w ↦ rw (w, keep y, miss) (find_one-update_where_other q p f xs keep apart)
      | inr w ↦ rw (w, miss) (find_one-update_where_other q p f xs keep apart)
    ]
  ]

  -- `xs.includes(x)`
  abbrev pub contains : (A → A → Bool) → List A → A → Bool
  contains eq [] a = false
  contains eq (x ∷ xs) a = if eq a x then true else contains eq xs a

  abbrev pub length : List A → ℕ
  length [] = 0
  length (x ∷ xs) = suc (length xs)

  -- An update that writes no new row of a condition makes the rows that meet it no more.
  pub count_where-update_where :
      (p q : A → Bool) (f : A → A) (xs : List A)
      → ((y : A) → q y ≡ true → p (f y) ≡ true → p y ≡ true)
      → count_where p (update_where q f xs) ≤ count_where p xs
  count_where-update_where p q f [] old = ground arith
  count_where-update_where p q f (y ∷ xs) old =
      ground (arith, old y, count_where-update_where p q f xs old)

  pub count_where-none : (p : A → Bool) (xs : List A) → find_one p xs ≡ none → count_where p xs ≡ 0
  count_where-none p [] e = refl
  count_where-none p (y ∷ xs) e = ground (arith, count_where-none p xs)

  pub find_one-none : (p : A → Bool) (xs : List A) → count_where p xs ≡ 0 → find_one p xs ≡ none
  find_one-none p [] e = refl
  find_one-none p (y ∷ xs) e = ground (arith, find_one-none p xs)

  -- An update of all the rows of a condition that takes them out of it.
  pub find_one-update_where_out :
      (p : A → Bool) (f : A → A) (xs : List A)
      → ((y : A) → p (f y) ≡ false)
      → find_one p (update_where p f xs) ≡ none
  find_one-update_where_out p f [] out = refl
  find_one-update_where_out p f (y ∷ xs) out =
      ground (arith, out y, find_one-update_where_out p f xs out)
