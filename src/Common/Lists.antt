-- ===== src/Common/Lists.antt =====
-- Arrays and sets. A JavaScript `Set` is the list of its members in the order of insertion.
use Prim.Native.Nat.{ℕ, zero, suc, ◌≤◌}
use mathlib.Core.Path.{◌≡◌, refl, ap, subst}
use mathlib.Core.Logic.{inl, inr}
use mathlib.Core.Bool.{Bool, true, false, ◌&&◌, ◌||◌}
use mathlib.Core.List.{List, [], ◌∷◌, ◌++◌}
use native.Mathlib.Omega.{arith}
use proxora.Common.Tests.{Eq, ◌==◌, ==_refl, ||_true, if◌then◌else◌, Bool-cases}

module _ {ℓ} {A : Type ℓ} where
  abbrev pub length : List A → ℕ
  length [] = 0
  length (x ∷ xs) = suc (length xs)

  -- `array.some(p)`
  abbrev pub any : (A → Bool) → List A → Bool
  any p [] = false
  any p (x ∷ xs) = p x || any p xs

  -- `array.every(p)`
  abbrev pub all : (A → Bool) → List A → Bool
  all p [] = true
  all p (x ∷ xs) = p x && all p xs

  -- `array.filter(p)`
  abbrev pub filter : (A → Bool) → List A → List A
  filter p [] = []
  filter p (x ∷ xs) = if p x then x ∷ filter p xs else filter p xs

  abbrev pub All {κ} : (A → Type κ) → List A → Type κ
  All P [] = Unit
  All P (x ∷ xs) = P x × All P xs

  pub any-append : (p : A → Bool) (xs ys : List A) → any p (xs ++ ys) ≡ (any p xs || any p ys)
  any-append p [] ys = refl
  any-append p (x ∷ xs) ys = ground (arith, any-append p xs ys)

  pub any-filter : (p q : A → Bool) (xs : List A) → any q (filter p xs) ≡ any (λ x. p x && q x) xs
  any-filter p q [] = refl
  any-filter p q (x ∷ xs) = ground (arith, any-filter p q xs)

  pub filter-filter :
      (p q : A → Bool) (xs : List A) → filter p (filter q xs) ≡ filter (λ x. q x && p x) xs
  filter-filter p q [] = refl
  filter-filter p q (x ∷ xs) = ground (arith, filter-filter p q xs)

  pub filter-append :
      (p : A → Bool) (xs ys : List A) → filter p (xs ++ ys) ≡ filter p xs ++ filter p ys
  filter-append p [] ys = refl
  filter-append p (x ∷ xs) ys = ground (arith, filter-append p xs ys)

  pub length-filter-le : (p : A → Bool) (xs : List A) → length (filter p xs) ≤ length xs
  length-filter-le p [] = omega arith
  length-filter-le p (x ∷ xs) = ground (arith, length-filter-le p xs)

  pub filter_congr :
      (p q : A → Bool) (xs : List A) → All (λ x. p x ≡ q x) xs → filter p xs ≡ filter q xs
  filter_congr p q [] h = refl
  filter_congr p q (x ∷ xs) h = ground (arith, filter_congr p q xs h.1)

  pub All-test : (p : A → Bool) (xs : List A) → All (λ x. p x ≡ true) (filter p xs)
  All-test p [] = tt
  All-test p (x ∷ xs) = elim (Bool-cases (p x)) [
    | inl t ↦ rw t (t, All-test p xs)
    | inr f ↦ rw f (All-test p xs)
  ]

  pub All-mono {κ λ'} :
      (P : A → Type κ) (Q : A → Type λ') (xs : List A) → ((x : A) → P x → Q x) → All P xs → All Q xs
  All-mono P Q [] f h = tt
  All-mono P Q (x ∷ xs) f h = (f x h.0, All-mono P Q xs f h.1)

  pub All-of_all : (p : A → Bool) (xs : List A) → all p xs ≡ true → All (λ x. p x ≡ true) xs
  All-of_all p [] h = tt
  All-of_all p (x ∷ xs) h = (ground arith, All-of_all p xs (ground arith))

  pub All-of_forall {κ} : {P : A → Type κ} → ((x : A) → P x) → (xs : List A) → All P xs
  All-of_forall f [] = tt
  All-of_forall f (x ∷ xs) = (f x, All-of_forall f xs)

  pub All-filter {κ} :
      (P : A → Type κ) (p : A → Bool) (xs : List A) → All P xs → All P (filter p xs)
  All-filter P p [] h = tt
  All-filter P p (x ∷ xs) h = elim (Bool-cases (p x)) [
    | inl t ↦ rw t (h.0, All-filter P p xs h.1)
    | inr f ↦ rw f (All-filter P p xs h.1)
  ]

module _ {ℓ} {A : Type ℓ} ⦃e : Eq A⦄ where
  -- `array.includes(a)` and `set.has(a)`
  unfoldable pub includes : List A → A → Bool
  includes [] a = false
  includes (x ∷ xs) a = x == a || includes xs a

  -- `set.add(a)`
  unfoldable pub add : List A → A → List A
  add xs a = if includes xs a then xs else xs ++ a ∷ []

  -- `for (const a of ys) set.add(a)`
  unfoldable pub add_all : List A → List A → List A
  add_all xs [] = xs
  add_all xs (y ∷ ys) = add_all (add xs y) ys

  -- `[...new Set(ys)]`
  unfoldable pub unique : List A → List A
  unique ys = add_all [] ys

  pub includes-append :
      (xs ys : List A) (a : A) → includes (xs ++ ys) a ≡ (includes xs a || includes ys a)
  unfolding includes
  includes-append [] ys a = refl
  includes-append (x ∷ xs) ys a = ground (arith, includes-append xs ys a)

  pub includes-add : (xs : List A) (y a : A) → includes (add xs y) a ≡ (includes xs a || y == a)
  unfolding add includes
  includes-add xs y a = ground (arith, includes-append xs (y ∷ []) a, e.test_iff y a)

  pub includes-add_all :
      (xs ys : List A) (a : A) → includes (add_all xs ys) a ≡ (includes xs a || includes ys a)
  unfolding add_all includes
  includes-add_all xs [] a = ground arith
  includes-add_all xs (y ∷ ys) a =
      ground (arith, includes-add_all (add xs y) ys a, includes-add xs y a)

  pub includes-unique : (ys : List A) (a : A) → includes (unique ys) a ≡ includes ys a
  unfolding unique includes
  includes-unique ys a = includes-add_all [] ys a

  pub includes-filter :
      (p : A → Bool) (xs : List A) (a : A) → includes (filter p xs) a ≡ (includes xs a && p a)
  unfolding includes
  includes-filter p [] a = refl
  includes-filter p (x ∷ xs) a = ground (arith, includes-filter p xs a, e.test_iff x a)

  -- What holds of every member holds of a value that the list includes.
  pub All-includes {κ} :
      (P : A → Type κ) (xs : List A) (a : A) → All P xs → includes xs a ≡ true → P a
  unfolding includes
  All-includes P [] a h m = cc
  All-includes P (x ∷ xs) a h m = elim (Bool-cases (x == a)) [
    | inl same ↦ subst P ((e.test_iff x a).0 same) h.0
    | inr other ↦ All-includes P xs a h.1 (ground arith)
  ]

  -- A test that every member passes, at a value that the list includes.
  pub all-includes :
      (p : A → Bool) (xs : List A) (a : A) → all p xs ≡ true → includes xs a ≡ true → p a ≡ true
  unfolding includes
  all-includes p [] a h m = cc
  all-includes p (x ∷ xs) a h m = elim (Bool-cases (x == a)) [
    | inl same ↦ subst (λ y. p y ≡ true) ((e.test_iff x a).0 same) (ground arith)
    | inr other ↦ all-includes p xs a (ground arith) (ground arith)
  ]

  pub All-of_includes {κ} :
      (P : A → Type κ) (xs : List A) → ((a : A) → includes xs a ≡ true → P a) → All P xs
  unfolding includes
  All-of_includes P [] h = tt
  All-of_includes P (x ∷ xs) h =
      (h x (rw (==_refl x)), All-of_includes P xs (λ a m. h a (rw m (||_true (x == a)))))

module _ {ℓ} {A : Type ℓ} where
  unfoldable pub take : ℕ → List A → List A
  take zero xs = []
  take (suc n) [] = []
  take (suc n) (x ∷ xs) = x ∷ take n xs

  unfoldable pub drop : ℕ → List A → List A
  drop zero xs = xs
  drop (suc n) [] = []
  drop (suc n) (x ∷ xs) = drop n xs

  pub take-append : (xs ys : List A) → take (length xs) (xs ++ ys) ≡ xs
  unfolding take
  take-append [] ys = refl
  take-append (x ∷ xs) ys = ap (λ zs. x ∷ zs) (take-append xs ys)

  pub drop-append : (xs ys : List A) → drop (length xs) (xs ++ ys) ≡ ys
  unfolding drop
  drop-append [] ys = refl
  drop-append (x ∷ xs) ys = drop-append xs ys
