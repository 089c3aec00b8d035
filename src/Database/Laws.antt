-- ===== src/Database/Laws.antt =====
-- What a query returns.
use proxora.Common.{
  List, [], ◌∷◌, ◌++◌, Bool, true, none, some, ◌≡◌, subst, arith, All, Bool-cases, inl, inr,
}
use proxora.Database.{find_first}

-- What `find_first` finds passes the test, and stands in the list.
pub find_first-test {ℓ} :
    {A : Type ℓ} (p : A → Bool) (xs : List A) (x : A) → find_first p xs ≡ some x → p x ≡ true
unfolding find_first
find_first-test p [] x h = cc
find_first-test p (y ∷ xs) x h = elim (Bool-cases (p y)) [
  | inl t ↦ let same : y ≡ x = ground arith in subst (λ z. p z ≡ true) same t
  | inr f ↦ find_first-test p xs x (rw f at h)
]

pub find_first-All {ℓ κ} :
    {A : Type ℓ} (P : A → Type κ) (p : A → Bool) (xs : List A) (x : A)
    → All P xs
    → find_first p xs ≡ some x
    → P x
unfolding find_first
find_first-All P p [] x a h = cc
find_first-All P p (y ∷ xs) x a h = elim (Bool-cases (p y)) [
  | inl t ↦ let same : y ≡ x = ground arith in subst P same a.0
  | inr f ↦ find_first-All P p xs x a.1 (rw f at h)
]

-- A row that is appended is found if no earlier row passes.
pub find_first-append {ℓ} :
    {A : Type ℓ} (p : A → Bool) (xs : List A) (x : A)
    → find_first p xs ≡ none
    → p x ≡ true
    → find_first p (xs ++ x ∷ []) ≡ some x
unfolding find_first
find_first-append p [] x missing h = rw h
find_first-append p (y ∷ xs) x missing h = ground (arith, find_first-append p xs x)
