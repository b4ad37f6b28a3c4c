-- ===== src/Common/Lists.antt =====
-- Lists measured by native numbers, predicates on all elements, and Boolean membership.
use Prim.Native.Nat.{ℕ, zero, suc, ◌+◌, ◌≤◌}
use mathlib.Core.Path.{◌≡◌, refl, sym, ap, ◌∙◌, subst}
use mathlib.Core.Logic.{inl, inr}
use mathlib.Core.Bool.{Bool, true, false, ◌||◌, ◌&&◌}
use mathlib.Core.List.{List, [], ◌∷◌, ◌++◌, Memᴰ}
use native.Mathlib.Omega.{arith}
use ingress_nginx_gateway_br.Common.Tests.{Eq, ◌==◌, if◌then◌else◌, Bool-cases}

module _ {ℓ} {A : Type ℓ} where
  abbrev pub length : List A → ℕ
  length [] = 0
  length (x ∷ xs) = suc (length xs)

  abbrev pub take : ℕ → List A → List A
  take zero xs = []
  take (suc n) [] = []
  take (suc n) (x ∷ xs) = x ∷ take n xs

  pub length-append : (xs ys : List A) → length (xs ++ ys) ≡ length xs + length ys
  length-append [] ys = omega arith
  length-append (x ∷ xs) ys = omega (arith, length-append xs ys)

  pub length-take_le : (n : ℕ) (xs : List A) → length (take n xs) ≤ n
  length-take_le zero xs = omega arith
  length-take_le (suc n) [] = omega arith
  length-take_le (suc n) (x ∷ xs) = omega (arith, length-take_le n xs)

  abbrev pub All {κ} : (A → Type κ) → List A → Type κ
  All P [] = Unit
  All P (x ∷ xs) = P x × All P xs

  pub All-append {κ} : (P : A → Type κ) (xs ys : List A) → All P xs → All P ys → All P (xs ++ ys)
  All-append P [] ys h k = k
  All-append P (x ∷ xs) ys h k = (h.0, All-append P xs ys h.1 k)

  pub All-left {κ} : (P : A → Type κ) (xs ys : List A) → All P (xs ++ ys) → All P xs
  All-left P [] ys h = tt
  All-left P (x ∷ xs) ys h = (h.0, All-left P xs ys h.1)

  pub All-right {κ} : (P : A → Type κ) (xs ys : List A) → All P (xs ++ ys) → All P ys
  All-right P [] ys h = h
  All-right P (x ∷ xs) ys h = All-right P xs ys h.1

  pub All-map {κ μ} :
      (P : A → Type κ) (Q : A → Type μ) (xs : List A) → ((x : A) → P x → Q x) → All P xs → All Q xs
  All-map P Q [] f h = tt
  All-map P Q (x ∷ xs) f h = (f x h.0, All-map P Q xs f h.1)

  pub All-mem {κ} : (P : A → Type κ) {x : A} {xs : List A} → Memᴰ x xs → All P xs → P x
  All-mem P (Memᴰ.head e) h = subst P (sym e) h.0
  All-mem P (Memᴰ.tail m) h = All-mem P m h.1

  -- `filter` by a Boolean test.
  unfoldable pub keep : (A → Bool) → List A → List A
  keep p [] = []
  keep p (x ∷ xs) = if p x then x ∷ keep p xs else keep p xs

  unfoldable pub any : (A → Bool) → List A → Bool
  any p [] = false
  any p (x ∷ xs) = p x || any p xs

  unfoldable pub all : (A → Bool) → List A → Bool
  all p [] = true
  all p (x ∷ xs) = p x && all p xs

module _ {ℓ} {A : Type ℓ} ⦃e : Eq A⦄ where
  unfoldable pub contains : A → List A → Bool
  contains a [] = false
  contains a (x ∷ xs) = x == a || contains a xs

  abbrev pub IsNodup : List A → Type 0
  IsNodup [] = Unit
  IsNodup (x ∷ xs) = (contains x xs ≡ false) × IsNodup xs

module _ {ℓ} {A : Type ℓ} where
  pub All-self : (xs ys : List A) → ((x : A) → Memᴰ x xs → Memᴰ x ys) → All (λ x. Memᴰ x ys) xs
  All-self [] ys f = tt
  All-self (x ∷ xs) ys f = (f x (Memᴰ.head refl), All-self xs ys (λ y m. f y (Memᴰ.tail m)))

  pub All-keep {κ μ} :
      (P : A → Type κ) (Q : A → Type μ) (p : A → Bool) (xs : List A)
      → ((x : A) → p x ≡ true → P x → Q x)
      → All P xs
      → All Q (keep p xs)
  unfolding keep
  All-keep P Q p [] f h = tt
  All-keep P Q p (x ∷ xs) f h = elim (Bool-cases (p x)) [
    | inl kept ↦ rw kept (f x kept h.0, All-keep P Q p xs f h.1)
    | inr dropped ↦ rw dropped (All-keep P Q p xs f h.1)
  ]

  pub Mem-keep : (p : A → Bool) (x : A) (xs : List A) → Memᴰ x xs → p x ≡ true → Memᴰ x (keep p xs)
  unfolding keep
  Mem-keep p x [] member kept = elim member [ ]
  Mem-keep p x (y ∷ ys) (Memᴰ.head e) kept =
      let kept' : p y ≡ true = sym (ap p e) ∙ kept in rw kept' (Memᴰ.head e)
  Mem-keep p x (y ∷ ys) (Memᴰ.tail m) kept = elim (Bool-cases (p y)) [
    | inl here ↦ rw here (Memᴰ.tail (Mem-keep p x ys m kept))
    | inr gone ↦ rw gone (Mem-keep p x ys m kept)
  ]

  pub Mem-append_left : (x : A) (xs ys : List A) → Memᴰ x xs → Memᴰ x (xs ++ ys)
  Mem-append_left x [] ys member = elim member [ ]
  Mem-append_left x (y ∷ xs) ys (Memᴰ.head e) = Memᴰ.head e
  Mem-append_left x (y ∷ xs) ys (Memᴰ.tail m) = Memᴰ.tail (Mem-append_left x xs ys m)

  pub Mem-append_last : (x : A) (xs : List A) → Memᴰ x (xs ++ x ∷ [])
  Mem-append_last x [] = Memᴰ.head refl
  Mem-append_last x (y ∷ xs) = Memᴰ.tail (Mem-append_last x xs)
