-- ===== src/Common/Sets.antt =====
-- Sets as lists: membership after an addition, and lists without duplicates.
use mathlib.Core.Path.{◌≡◌, refl, sym, ◌∙◌, subst}
use mathlib.Core.Bool.{Bool, true, false, ◌||◌}
use mathlib.Core.Option.{none, some}
use mathlib.Core.List.{List, [], ◌∷◌, ◌++◌}
use mathlib.Core.Logic.{inl, inr}
use native.Mathlib.Omega.{arith}
use ingress_nginx_gateway_br.Common.Tests.{Eq, ◌==◌, eq_iff, Bool-cases}
use ingress_nginx_gateway_br.Common.Lists.{contains, IsNodup}
use ingress_nginx_gateway_br.Common.Maps.{add, insert, keys}
use ingress_nginx_gateway_br.Common.Sorting.{insert_sorted, sort_by}

pub none-some {ℓ} : {A : Type ℓ} {a : A} → none ≡ some a → ⊥
none-some e = cc

pub some_inj {ℓ} : {A : Type ℓ} {a b : A} → some a ≡ some b → a ≡ b
some_inj e = cc

pub true-false : true ≡ false → ⊥
true-false e = cc

module _ {ℓ} {K : Type ℓ} ⦃key : Eq K⦄ where
  pub contains-append :
      (a : K) (xs ys : List K) → contains a (xs ++ ys) ≡ (contains a xs || contains a ys)
  unfolding contains
  contains-append a [] ys = refl
  contains-append a (x ∷ xs) ys = ground (arith, contains-append a xs ys)

  pub IsNodup-append_one :
      (a : K) (xs : List K) → contains a xs ≡ false → IsNodup xs → IsNodup (xs ++ a ∷ [])
  unfolding contains
  IsNodup-append_one a [] fresh distinct = ground arith
  IsNodup-append_one a (x ∷ xs) fresh (first, rest) = (
    contains-append x xs (a ∷ []) ∙ ground (arith, fresh, first, eq_iff x a, eq_iff a x),
    IsNodup-append_one a xs (ground (arith, fresh)) rest,
  )

  pub contains-add : (a b : K) (xs : List K) → contains a (add b xs) ≡ (contains a xs || (b == a))
  unfolding add contains
  contains-add a b xs = ground (arith, contains-append a xs (b ∷ []), eq_iff b a)

  pub IsNodup-add : (a : K) (xs : List K) → IsNodup xs → IsNodup (add a xs)
  unfolding add
  IsNodup-add a xs distinct = elim (Bool-cases (contains a xs)) [
    | inl known ↦ rw known distinct
    | inr fresh ↦ rw fresh (IsNodup-append_one a xs fresh distinct)
  ]

  -- Sorting keeps the members.
  contains-insert_sorted :
      (lt : K → K → Bool) (a x : K) (xs : List K)
      → contains a (insert_sorted lt x xs) ≡ ((x == a) || contains a xs)
  unfolding contains insert_sorted
  contains-insert_sorted lt a x [] = ground arith
  contains-insert_sorted lt a x (y ∷ ys) = ground (arith, contains-insert_sorted lt a x ys)

  pub contains-sort_by :
      (lt : K → K → Bool) (a : K) (xs : List K) → contains a (sort_by lt xs) ≡ contains a xs
  unfolding contains sort_by
  contains-sort_by lt a [] = refl
  contains-sort_by lt a (x ∷ xs) =
      ground (arith, contains-insert_sorted lt a x (sort_by lt xs), contains-sort_by lt a xs)

module _ {ℓ κ} {V : Type κ} {K : Type ℓ} ⦃key : Eq K⦄ where
  contains-keys-insert :
      (wanted stored : K) (value : V) (entries : List (K × V))
      → contains wanted (keys (insert stored value entries))
        ≡ (contains wanted (keys entries) || (stored == wanted))
  unfolding contains insert
  contains-keys-insert wanted stored value [] = ground arith
  contains-keys-insert wanted stored value ((found, old) ∷ entries) =
      ground (arith, contains-keys-insert wanted stored value entries, eq_iff found stored)

  -- A store keeps the keys of a map distinct.
  pub IsNodup-keys-insert :
      (stored : K) (value : V) (entries : List (K × V))
      → IsNodup (keys entries)
      → IsNodup (keys (insert stored value entries))
  unfolding contains insert
  IsNodup-keys-insert stored value [] distinct = ground arith
  IsNodup-keys-insert stored value ((found, old) ∷ entries) (first, rest) =
      elim (Bool-cases (found == stored)) [
        | inl same ↦
            let e : insert stored value ((found, old) ∷ entries) ≡ (found, value) ∷ entries =
              rw (insert, same) refl in
            subst (λ m. IsNodup (keys m)) (sym e) (first, rest)
        | inr other ↦
            let e : insert stored value ((found, old) ∷ entries)
                ≡ (found, old) ∷ insert stored value entries =
              rw (insert, other) refl in
            subst (λ m. IsNodup (keys m)) (sym e)
              (
                contains-keys-insert found stored value entries
                    ∙ ground (arith, first, other, eq_iff stored found, eq_iff found stored),
                IsNodup-keys-insert stored value entries rest,
              )
      ]
