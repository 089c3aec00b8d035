-- ===== src/Common/Dict.antt =====
-- A JavaScript `Map`: its entries in the order of insertion. `insert` is `map.set`, which keeps the
-- place of a key that is there, and `remove` is `map.delete`.
use mathlib.Core.Path.{◌≡◌, refl, ap, subst, ◌∙◌}
use mathlib.Core.Logic.{inl, inr}
use mathlib.Core.Bool.{Bool, true, false}
use mathlib.Core.Bool.{Bool, true, false}
use mathlib.Core.Option.{Option, none, some}
use mathlib.Core.List.{List, [], ◌∷◌, map}
use native.Mathlib.Omega.{arith}
use proxora.Common.Tests.{Eq, ◌==◌, if◌then◌else◌, if_cases, Bool-cases}
use proxora.Common.Lists.{All}

module _ {ℓ κ} {Key : Type ℓ} {V : Type κ} ⦃e : Eq Key⦄ where
  unfoldable pub lookup : Key → List (Key × V) → Option V
  lookup key [] = none
  lookup key ((k, v) ∷ entries) = if k == key then some v else lookup key entries

  unfoldable pub remove : Key → List (Key × V) → List (Key × V)
  remove key [] = []
  remove key ((k, v) ∷ entries) =
      let rest = remove key entries in if k == key then rest else (k, v) ∷ rest

  unfoldable pub insert : Key → V → List (Key × V) → List (Key × V)
  insert key new [] = (key, new) ∷ []
  insert key new ((k, v) ∷ entries) =
      if k == key then (k, new) ∷ entries else (k, v) ∷ insert key new entries

  pub lookup-remove :
      (key other : Key) (entries : List (Key × V))
      → lookup other (remove key entries) ≡ (if key == other then none else lookup other entries)
  unfolding remove lookup
  lookup-remove key other [] = ground arith
  lookup-remove key other ((k, v) ∷ entries) = ground (
    arith,
    lookup-remove key other entries,
    e.test_iff key other,
    e.test_iff k other,
    e.test_iff k key,
  )

  pub lookup-insert :
      (key other : Key) (new : V) (entries : List (Key × V))
      → lookup other (insert key new entries)
        ≡ (if key == other then some new else lookup other entries)
  unfolding insert lookup
  lookup-insert key other new [] = refl
  lookup-insert key other new ((k, v) ∷ entries) = ground (
    arith,
    lookup-insert key other new entries,
    e.test_iff k other,
    e.test_iff key other,
    e.test_iff k key,
  )

abbrev pub values {ℓ κ} : {K : Type ℓ} {V : Type κ} → List (K × V) → List V
values m = map (λ kv. kv.1) m

-- `key in object` and `map.has(key)`
abbrev pub has_key {ℓ κ} : {K : Type ℓ} {V : Type κ} ⦃e : Eq K⦄ → K → List (K × V) → Bool
has_key k m = elim (lookup k m) [ none ↦ false | some _ ↦ true ]

module _ {ℓ κ μ} {Key : Type ℓ} {V : Type κ} ⦃e : Eq Key⦄ (P : Key × V → Type μ) where
  pub All-remove :
      (key : Key) (entries : List (Key × V)) → All P entries → All P (remove key entries)
  unfolding remove
  All-remove key [] h = tt
  All-remove key ((k, v) ∷ entries) h =
      if_cases (All P) (k == key) (remove key entries) ((k, v) ∷ remove key entries)
        (λ same. All-remove key entries h.1) (λ other. (h.0, All-remove key entries h.1))

  pub All-insert :
      (key : Key) (new : V) (entries : List (Key × V))
      → ((k : Key) → k ≡ key → P (k, new))
      → All P entries
      → All P (insert key new entries)
  unfolding insert
  All-insert key new [] p h = (p key refl, tt)
  All-insert key new ((k, v) ∷ entries) p h =
      if_cases (All P) (k == key) ((k, new) ∷ entries) ((k, v) ∷ insert key new entries)
        (λ same. (p k ((e.test_iff k key).0 same), h.1))
        (λ other. (h.0, All-insert key new entries p h.1))

  pub All-lookup :
      (key : Key) (v : V) (entries : List (Key × V))
      → All P entries
      → lookup key entries ≡ some v
      → P (key, v)
  unfolding lookup
  All-lookup key v [] h found = cc
  All-lookup key v ((k, w) ∷ entries) h found = elim (Bool-cases (k == key)) [
    | inl same ↦
        subst P (ap (λ x. (x, w)) ((e.test_iff k key).0 same) ∙ ap (λ x. (key, x)) (ground arith))
          h.0
    | inr other ↦ All-lookup key v entries h.1 (ground arith)
  ]
