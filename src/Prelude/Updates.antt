-- ===== src/Prelude/Updates.antt =====
-- Lists through insertions and updates of rows.
use mathlib.Core.Path.{◌≡◌, refl}
use mathlib.Core.Logic.{inl, inr}
use mathlib.Core.Bool.{Bool, true, false, ◌&&◌}
use mathlib.Core.Option.{none, some}
use mathlib.Core.List.{List, [], ◌∷◌, ◌++◌}
use native.Mathlib.Omega.{arith}
use feishu_shadow_agent.Prelude.Tests.{Bool-cases}
use feishu_shadow_agent.Prelude.Lists.{any, find?, update_where, Among, any-Among}

module _ {ℓ} {A : Type ℓ} where
  -- an UPDATE after which no row of its WHERE clause is left
  pub none-update_where :
      (p : A → Bool) (f : A → A)
      → ((x : A) → p x ≡ true → p (f x) ≡ false)
      → (xs : List A) → any p (update_where p f xs) ≡ false
  unfolding update_where
  none-update_where p f h [] = refl
  none-update_where p f h (x ∷ xs) = elim (Bool-cases (p x)) [
    | inl t ↦ rw t (rw (h x t) (none-update_where p f h xs))
    | inr t ↦ rw t (rw t (none-update_where p f h xs))
  ]

  -- an UPDATE that brings no row to a WHERE clause
  pub none-after :
      (p q : A → Bool) (f : A → A)
      → ((x : A) → p (f x) ≡ false)
      → (xs : List A) → any p xs ≡ false
      → any p (update_where q f xs) ≡ false
  unfolding update_where
  none-after p q f h [] n = refl
  none-after p q f h (x ∷ xs) n = elim (Bool-cases (q x)) [
    | inl t ↦ rw t (rw (h x) (none-after p q f h xs (ground arith)))
    | inr t ↦ rw t (ground (arith, none-after p q f h xs))
  ]

  pub find?-append :
      (p : A → Bool) (xs : List A) (y x : A) → find? p xs ≡ some x → find? p (xs ++ y ∷ []) ≡ some x
  find?-append p [] y x h = cc
  find?-append p (z ∷ xs) y x h = ground (arith, find?-append p xs y x)

  pub find?-append_new :
      (p : A → Bool) (xs : List A) (y : A)
      → find? p xs ≡ none
      → p y ≡ true
      → find? p (xs ++ y ∷ []) ≡ some y
  find?-append_new p [] y h t = rw t refl
  find?-append_new p (z ∷ xs) y h t = ground (arith, find?-append_new p xs y)

  -- an UPDATE that leaves the row which is found
  pub find?-update_where :
      (p q : A → Bool) (f : A → A) (xs : List A) (x : A)
      → ((y : A) → p (f y) ≡ p y)
      → q x ≡ false
      → find? p xs ≡ some x
      → find? p (update_where q f xs) ≡ some x
  unfolding update_where
  find?-update_where p q f [] x same h e = cc
  find?-update_where p q f (y ∷ ys) x same h e = elim (Bool-cases (p y)) [
    | inl t ↦ ground arith
    | inr t ↦ elim (Bool-cases (q y)) [
      | inl u ↦ rw u (rw (same y) (rw t (find?-update_where p q f ys x same h (ground arith))))
      | inr u ↦ rw u (rw t (find?-update_where p q f ys x same h (ground arith)))
    ]
  ]

  -- an UPDATE that brings a row to a WHERE clause
  pub any-updated :
      (s p q : A → Bool) (f : A → A)
      → ((x : A) → s x ≡ true → (q x ≡ true) × (p (f x) ≡ true))
      → (xs : List A) → any s xs ≡ true
      → any p (update_where q f xs) ≡ true
  unfolding update_where
  any-updated s p q f h [] a = cc
  any-updated s p q f h (x ∷ xs) a = elim (Bool-cases (s x)) [
    | inl t ↦ rw ((h x t).0) (rw ((h x t).1) refl)
    | inr t ↦ let rest = any-updated s p q f h xs (ground arith) in ground arith
  ]

  pub any-update_where :
      (p q : A → Bool) (f : A → A) (xs : List A) (x : A)
      → Among x xs
      → q x ≡ true
      → p (f x) ≡ true
      → any p (update_where q f xs) ≡ true
  any-update_where p q f xs x m t h =
      any-updated (λ y. q y && p (f y)) p q f (λ y a. (ground arith, ground arith)) xs
        (any-Among (λ y. q y && p (f y)) xs x (ground arith) m)

  pub any-append_last :
      (p : A → Bool) (xs : List A) (y : A) → p y ≡ true → any p (xs ++ y ∷ []) ≡ true
  any-append_last p [] y h = ground arith
  any-append_last p (x ∷ xs) y h = ground (arith, any-append_last p xs y h)

  -- an UPDATE of all the rows that a test could pass, after which none does
  pub none-updated :
      (p q : A → Bool) (f : A → A)
      → ((x : A) → q x ≡ true → p (f x) ≡ false)
      → ((x : A) → q x ≡ false → p x ≡ false)
      → (xs : List A) → any p (update_where q f xs) ≡ false
  unfolding update_where
  none-updated p q f h u [] = refl
  none-updated p q f h u (x ∷ xs) = elim (Bool-cases (q x)) [
    | inl t ↦ rw t (rw (h x t) (none-updated p q f h u xs))
    | inr t ↦ rw t (rw (u x t) (none-updated p q f h u xs))
  ]
