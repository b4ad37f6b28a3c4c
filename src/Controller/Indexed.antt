-- ===== src/Controller/Indexed.antt =====
-- `strconv.Atoi` reads back the index that `strconv.Itoa` writes into the label of a ListenerSet.
use ingress_nginx_gateway_br.Common.{
  ℕ, zero, suc, ◌+◌, ◌-◌, ◌*◌, ◌/◌, ◌%◌, ◌≡◌, ◌≤◌, ◌<◌, refl, sym, ap, ◌∙◌, true, false, Option,
  none, some, [], ◌∷◌, ◌++◌, arith, inl, inr, Bool-cases, ltb, nat_beq, none-some,
}
use ingress_nginx_gateway_br.Text.{Text}
use ingress_nginx_gateway_br.Gateway.Refs.{digits, itoa}
use ingress_nginx_gateway_br.Controller.Observed.{is_digit, digits_value, parse_index}

-- The value of a text with one more digit.
abbrev with_digit : ℕ → Option ℕ → Option ℕ
with_digit c none = none
with_digit c (some v) = some (v * 10 + (c - b'0'))

digits_value-append_one :
    (sum : ℕ) (s : Text) (c : ℕ)
    → is_digit c ≡ true
    → digits_value sum (s ++ c ∷ []) ≡ with_digit c (digits_value sum s)
unfolding digits_value
digits_value-append_one sum [] c digit = rw digit refl
digits_value-append_one sum (d ∷ s) c digit =
    let ih = digits_value-append_one (sum * 10 + (d - b'0')) s c digit in
    elim (Bool-cases (is_digit d)) [ inl known ↦ rw known ih | inr other ↦ rw other refl ]

not_below : (n : ℕ) → ltb n 10 ≡ false → 10 ≤ n
not_below n large = ground (arith, large)

digits_value-digits : (fuel n : ℕ) → n < fuel → digits_value 0 (digits fuel n) ≡ some n
unfolding digits digits_value
digits_value-digits zero n room = absurd (omega (arith, room))
digits_value-digits (suc fuel) n room = elim (Bool-cases (ltb n 10)) [
  | inl small ↦
      rw small
        (digits_value-append_one 0 [] (b'0' + n) (ground (arith, small)) ∙ ap some (omega arith))
  | inr large ↦
      let ih = digits_value-digits fuel (n / 10) (omega (arith, room, not_below n large)) in
      rw large (
        digits_value-append_one 0 (digits fuel (n / 10)) (b'0' + n % 10) (ground arith)
        ∙ rw ih (ap some (omega arith)))
]

zero_positive : (n : ℕ) → some 0 ≡ some n → 1 ≤ n → ⊥
zero_positive n e positive = ground (arith, e, positive)

not_plus : (c : ℕ) → is_digit c ≡ true → nat_beq c b'+' ≡ false
not_plus c digit = ground (arith, digit)

parse_index-digits :
    (s : Text) (n : ℕ)
    → digits_value 0 s ≡ some n
    → 1 ≤ n
    → n < 9223372036854775808
    → parse_index s ≡ some n
unfolding parse_index digits_value
parse_index-digits [] n value positive fits = absurd (zero_positive n value positive)
parse_index-digits (c ∷ s) n value positive fits = elim (Bool-cases (is_digit c)) [
  | inl digit ↦ rw (not_plus c digit, value) (ground (arith, positive, fits))
  | inr other ↦ absurd (none-some (sym (sym value ∙ rw other refl)))
]

pub parse_index-itoa : (n : ℕ) → 1 ≤ n → n < 9223372036854775808 → parse_index (itoa n) ≡ some n
unfolding itoa
parse_index-itoa n positive fits =
    parse_index-digits (digits (suc n) n) n (digits_value-digits (suc n) n (omega arith)) positive
      fits
