-- ===== src/Common/Sorting.antt =====
-- Go's `sort.Strings` and `sort.Slice`, as insertion sort by a Boolean order.
use Prim.Native.Nat.{suc, ℕ, ◌+◌}
use mathlib.Core.Path.{◌≡◌, refl}
use mathlib.Core.Logic.{inl, inr}
use mathlib.Core.Bool.{Bool, true, false}
use native.Mathlib.Omega.{arith}
use mathlib.Core.List.{List, [], ◌∷◌}
use ingress_nginx_gateway_br.Common.Tests.{if◌then◌else◌, Bool-cases}
use ingress_nginx_gateway_br.Common.Lists.{All, All-map, length}

module _ {ℓ} {A : Type ℓ} (lt : A → A → Bool) where
  unfoldable pub insert_sorted : A → List A → List A
  insert_sorted a [] = a ∷ []
  insert_sorted a (x ∷ xs) = if lt x a then x ∷ insert_sorted a xs else a ∷ x ∷ xs

  unfoldable pub sort_by : List A → List A
  unfolding insert_sorted
  sort_by [] = []
  sort_by (x ∷ xs) = insert_sorted x (sort_by xs)

  length-insert_sorted : (a : A) (xs : List A) → length (insert_sorted a xs) ≡ suc (length xs)
  unfolding insert_sorted
  length-insert_sorted a [] = refl
  length-insert_sorted a (x ∷ xs) = ground (arith, length-insert_sorted a xs)

  pub length-sort_by : (xs : List A) → length (sort_by xs) ≡ length xs
  unfolding sort_by
  length-sort_by [] = refl
  length-sort_by (x ∷ xs) = omega (arith, length-insert_sorted x (sort_by xs), length-sort_by xs)

  -- What holds of all of the sorted list holds of all of the list, and the other way round.
  insert_sorted-All_from {κ} :
      (P : A → Type κ) (a : A) (xs : List A) → All P (insert_sorted a xs) → P a × All P xs
  unfolding insert_sorted
  insert_sorted-All_from P a [] h = h
  insert_sorted-All_from P a (x ∷ xs) h = elim (Bool-cases (lt x a)) [
    | inl before ↦
        let h' : All P (x ∷ insert_sorted a xs) = rw before at h in
        let (a_holds, xs_hold) = insert_sorted-All_from P a xs h'.1 in (a_holds, (h'.0, xs_hold))
    | inr behind ↦ rw behind at h
  ]

  insert_sorted-All_to {κ} :
      (P : A → Type κ) (a : A) (xs : List A) → P a → All P xs → All P (insert_sorted a xs)
  unfolding insert_sorted
  insert_sorted-All_to P a [] h k = (h, k)
  insert_sorted-All_to P a (x ∷ xs) h k = elim (Bool-cases (lt x a)) [
    | inl before ↦ rw before (k.0, insert_sorted-All_to P a xs h k.1)
    | inr behind ↦ rw behind (h, k)
  ]

  pub sort_by-All {κ} : (P : A → Type κ) (xs : List A) → All P (sort_by xs) → All P xs
  unfolding sort_by
  sort_by-All P [] h = h
  sort_by-All P (x ∷ xs) h =
      let (x_holds, rest) = insert_sorted-All_from P x (sort_by xs) h in
      (x_holds, sort_by-All P xs rest)

  pub All-sort_by {κ} : (P : A → Type κ) (xs : List A) → All P xs → All P (sort_by xs)
  unfolding sort_by
  All-sort_by P [] h = h
  All-sort_by P (x ∷ xs) h = insert_sorted-All_to P x (sort_by xs) h.0 (All-sort_by P xs h.1)

-- A count over all elements does not see the order.
module _ {ℓ} {A : Type ℓ} (n : A → ℕ) where
  unfoldable pub total : List A → ℕ
  total [] = 0
  total (x ∷ xs) = n x + total xs

  total-insert_sorted :
      (lt : A → A → Bool) (a : A) (xs : List A) → total (insert_sorted lt a xs) ≡ n a + total xs
  unfolding total insert_sorted
  total-insert_sorted lt a [] = refl
  total-insert_sorted lt a (x ∷ xs) = ground (arith, total-insert_sorted lt a xs)

  pub total-sort_by : (lt : A → A → Bool) (xs : List A) → total (sort_by lt xs) ≡ total xs
  unfolding total sort_by
  total-sort_by lt [] = refl
  total-sort_by lt (x ∷ xs) =
      omega (arith, total-insert_sorted lt x (sort_by lt xs), total-sort_by lt xs)

-- The first element of a sorted list is one that no element goes before, where the order is asymmetric
-- and not going before is transitive.
module _ {ℓ} {A : Type ℓ} (lt : A → A → Bool) where
  pub record IsWeakOrder : Type ℓ where
    pub asym : (x y : A) → lt x y ≡ true → lt y x ≡ false
    pub behind_trans : (x y z : A) → lt x y ≡ false → lt y z ≡ false → lt x z ≡ false

  module _ (order : IsWeakOrder) where
    irreflexive : (x : A) → lt x x ≡ false
    irreflexive x = elim (Bool-cases (lt x x)) [
      | inl before ↦ order.asym x x before
      | inr behind ↦ behind
    ]

    -- Nothing in a list goes before its first element.
    abbrev pub IsFirst : List A → Type 0
    IsFirst [] = Unit
    IsFirst (x ∷ xs) = All (λ y. lt y x ≡ false) (x ∷ xs)

    IsFirst-insert_sorted : (a : A) (xs : List A) → IsFirst xs → IsFirst (insert_sorted lt a xs)
    unfolding insert_sorted
    IsFirst-insert_sorted a [] h = (irreflexive a, tt)
    IsFirst-insert_sorted a (x ∷ xs) h = elim (Bool-cases (lt x a)) [
      | inl before ↦ rw before (
        irreflexive x,
        insert_sorted-All_to lt (λ y. lt y x ≡ false) a xs (order.asym x a before) h.1,
      )
      | inr behind ↦ rw behind (
        irreflexive a,
        All-map (λ y. lt y x ≡ false) (λ y. lt y a ≡ false) (x ∷ xs)
            (λ y y_behind. order.behind_trans y x a y_behind behind) h,
      )
    ]

    pub sort_by-IsFirst : (xs : List A) → IsFirst (sort_by lt xs)
    unfolding sort_by
    sort_by-IsFirst [] = tt
    sort_by-IsFirst (x ∷ xs) = IsFirst-insert_sorted x (sort_by lt xs) (sort_by-IsFirst xs)
