-- ===== src/Prelude/Lists.antt =====
-- Lists measured by native numbers, with tests and searches by Boolean predicates.
use Prim.Native.Nat.{ℕ, zero, suc, ◌+◌}
use mathlib.Core.Path.{◌≡◌, refl}
use mathlib.Core.Logic.{inl, inr}
use mathlib.Core.Bool.{Bool, true, false, not, ◌||◌, ◌&&◌}
use mathlib.Core.Option.{Option, none, some}
use mathlib.Core.List.{List, [], ◌∷◌, ◌++◌}
use native.Mathlib.Omega.{arith}
use feishu_shadow_agent.Prelude.Tests.{Bool-cases, if◌then◌else◌}

module _ {ℓ} {A : Type ℓ} where
  abbrev pub length : List A → ℕ
  length [] = 0
  length (x ∷ xs) = suc (length xs)

  abbrev pub take : ℕ → List A → List A
  take zero xs = []
  take (suc n) [] = []
  take (suc n) (x ∷ xs) = x ∷ take n xs

  abbrev pub any : (A → Bool) → List A → Bool
  any p [] = false
  any p (x ∷ xs) = p x || any p xs

  abbrev pub all : (A → Bool) → List A → Bool
  all p [] = true
  all p (x ∷ xs) = p x && all p xs

  abbrev pub filter : (A → Bool) → List A → List A
  filter p [] = []
  filter p (x ∷ xs) = let rest = filter p xs in if p x then x ∷ rest else rest

  abbrev pub find? : (A → Bool) → List A → Option A
  find? p [] = none
  find? p (x ∷ xs) = if p x then some x else find? p xs

  -- the only item of a list
  abbrev pub single : List A → Option A
  single (x ∷ []) = some x
  single _ = none

  abbrev pub is_empty : List A → Bool
  is_empty [] = true
  is_empty (x ∷ xs) = false

  pub length-append : (xs ys : List A) → length (xs ++ ys) ≡ length xs + length ys
  length-append [] ys = omega arith
  length-append (x ∷ xs) ys = omega (arith, length-append xs ys)

-- A predicate of every item computes to tuples, which the tactics read and build.
abbrev pub All {ℓ κ} : {A : Type ℓ} → (A → Type κ) → List A → Type κ
All P [] = Unit
All P (x ∷ xs) = P x × All P xs

module _ {ℓ} {A : Type ℓ} where
  -- ORDER BY: a stable insertion sort by a test that the first may stand before the second.
  unfoldable pub insert_by : (A → A → Bool) → A → List A → List A
  insert_by before x [] = x ∷ []
  insert_by before x (y ∷ ys) = if before x y then x ∷ (y ∷ ys) else y ∷ insert_by before x ys

  unfoldable pub sort_by : (A → A → Bool) → List A → List A
  unfolding insert_by
  sort_by before [] = []
  sort_by before (x ∷ xs) = insert_by before x (sort_by before xs)

  -- UPDATE ... SET f WHERE p
  unfoldable pub update_where : (A → Bool) → (A → A) → List A → List A
  update_where p f [] = []
  update_where p f (x ∷ xs) = (if p x then f x else x) ∷ update_where p f xs

  -- how many rows a statement's WHERE clause selects
  unfoldable pub count_where : (A → Bool) → List A → ℕ
  count_where p [] = 0
  count_where p (x ∷ xs) = (if p x then 1 else 0) + count_where p xs

-- what holds of all rows holds of those that a query selects
module _ {ℓ} {A : Type ℓ} where
  all-insert_by :
      (p : A → Bool) (before : A → A → Bool) (x : A) (xs : List A)
      → p x ≡ true
      → all p xs ≡ true
      → all p (insert_by before x xs) ≡ true
  unfolding insert_by
  all-insert_by p before x [] h hs = ground arith
  all-insert_by p before x (y ∷ ys) h hs = ground (arith, all-insert_by p before x ys)

  pub all-sort_by :
      (p : A → Bool) (before : A → A → Bool) (xs : List A)
      → all p xs ≡ true
      → all p (sort_by before xs) ≡ true
  unfolding sort_by
  all-sort_by p before [] h = refl
  all-sort_by p before (x ∷ xs) h =
      all-insert_by p before x (sort_by before xs) (ground arith)
        (all-sort_by p before xs (ground arith))

  pub all-filter : (p : A → Bool) (xs : List A) → all p (filter p xs) ≡ true
  all-filter p [] = refl
  all-filter p (x ∷ xs) = ground (arith, all-filter p xs)

  pub filter-all : (p q : A → Bool) (xs : List A) → all q xs ≡ true → all q (filter p xs) ≡ true
  filter-all p q [] h = refl
  filter-all p q (x ∷ xs) h = ground (arith, filter-all p q xs)

  pub all-single :
      (q : A → Bool) (xs : List A) (x : A) → all q xs ≡ true → single xs ≡ some x → q x ≡ true
  all-single q [] x h e = cc
  all-single q (y ∷ []) x h e = ground arith
  all-single q (y ∷ (z ∷ zs)) x h e = cc

  find?-holds : (p : A → Bool) (xs : List A) (x : A) → find? p xs ≡ some x → p x ≡ true
  find?-holds p [] x e = cc
  find?-holds p (y ∷ ys) x e = ground (arith, find?-holds p ys x)

  all-unless-any : (p : A → Bool) (xs : List A) → any p xs ≡ false → all (λ x. not (p x)) xs ≡ true
  all-unless-any p [] h = refl
  all-unless-any p (x ∷ xs) h = ground (arith, all-unless-any p xs)

  -- The item is one of the list: what a test finds of all of them, it finds of this one.
  abbrev pub Among : A → List A → Type ℓ
  Among x xs = (p : A → Bool) → all p xs ≡ true → p x ≡ true

  pub any-Among : (q : A → Bool) (xs : List A) (x : A) → q x ≡ true → Among x xs → any q xs ≡ true
  any-Among q xs x h m = elim (Bool-cases (any q xs)) [
    | inl t ↦ t
    | inr t ↦
        let absent : not (q x) ≡ true = m (λ y. not (q y)) (all-unless-any q xs t) in ground arith
  ]

  -- LIMIT 1 of a query
  pub find?-Among :
      (p : A → Bool) (xs : List A) (x : A) → find? p xs ≡ some x → (p x ≡ true) × Among x xs
  find?-Among p xs x e = (find?-holds p xs x e, λ q h. among q xs h e)
    where
      among : (q : A → Bool) (ys : List A) → all q ys ≡ true → find? p ys ≡ some x → q x ≡ true
      among q [] h e = cc
      among q (y ∷ ys) h e = ground (arith, among q ys)

  -- the first of a sorted query that passes a test
  pub find?-sorted :
      (p q : A → Bool) (before : A → A → Bool) (xs : List A) (x : A)
      → find? q (sort_by before (filter p xs)) ≡ some x
      → (p x ≡ true) × Among x xs
  find?-sorted p q before xs x e =
      let m = (find?-Among q (sort_by before (filter p xs)) x e).1 in
      (
        m p (all-sort_by p before _ (all-filter p xs)),
        λ r h. m r (all-sort_by r before _ (filter-all p r xs h)),
      )

  -- the only row of a sorted query
  pub single-Among :
      (p : A → Bool) (before : A → A → Bool) (xs : List A) (x : A)
      → single (sort_by before (filter p xs)) ≡ some x
      → (p x ≡ true) × Among x xs
  single-Among p before xs x e = (
    all-single p _ x (all-sort_by p before _ (all-filter p xs)) e,
    λ q h. all-single q _ x (all-sort_by q before _ (filter-all p q xs h)) e,
  )
