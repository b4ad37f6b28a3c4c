-- ===== src/Text/Order.antt =====
-- Go's order of strings.
use ingress_nginx_gateway_br.Common.{◌≡◌, refl, sym, true, false, [], ◌∷◌, arith, true-false}
use ingress_nginx_gateway_br.Text.{Text, text_lt}

pub text_lt-asym : (s t : Text) → text_lt s t ≡ true → text_lt t s ≡ false
unfolding text_lt
text_lt-asym [] [] h = absurd (true-false (sym h))
text_lt-asym [] (d ∷ t) h = refl
text_lt-asym (c ∷ s) [] h = absurd (true-false (sym h))
text_lt-asym (c ∷ s) (d ∷ t) h = ground (arith, h, text_lt-asym s t)

pub text_lt-behind_trans :
    (s t u : Text) → text_lt s t ≡ false → text_lt t u ≡ false → text_lt s u ≡ false
unfolding text_lt
text_lt-behind_trans s t [] h k = refl
text_lt-behind_trans [] [] (e ∷ u) h k = absurd (true-false k)
text_lt-behind_trans [] (d ∷ t) (e ∷ u) h k = absurd (true-false h)
text_lt-behind_trans (c ∷ s) [] (e ∷ u) h k = absurd (true-false k)
text_lt-behind_trans (c ∷ s) (d ∷ t) (e ∷ u) h k = ground (arith, h, k, text_lt-behind_trans s t u)
