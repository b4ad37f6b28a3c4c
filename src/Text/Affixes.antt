-- ===== src/Text/Affixes.antt =====
-- Laws of the text functions: trimming.
use ingress_nginx_gateway_br.Common.{ℕ, ◌≤◌, Bool, [], ◌∷◌, arith, length}
use ingress_nginx_gateway_br.Text.{Text, trim_right_by}

pub length-trim_right_le : (p : ℕ → Bool) (s : Text) → length (trim_right_by p s) ≤ length s
unfolding trim_right_by
length-trim_right_le p [] = omega arith
length-trim_right_le p (c ∷ s) = ground (arith, length-trim_right_le p s)
