-- ===== src/Naming.antt =====
-- internal/naming/naming.go: DNS labels made of joined parts and a hash.
-- `sha256` stands for `sha256.Sum256` of Go's crypto library: a parameter, of which the code needs
-- only that its digests have 32 bytes.
pub mod Label
use ingress_nginx_gateway_br.Common.{
  ℕ, suc, ◌+◌, ◌-◌, ◌/◌, ◌%◌, ◌<◌, ◌≡◌, Bool, true, false, not, ◌&&◌, ◌||◌, List, [], ◌∷◌, ◌++◌,
  arith, ltb, leb, nat_beq, if◌then◌else◌, take, length, All,
}
use ingress_nginx_gateway_br.Text.{
  Text, codes, join, to_lower, is_empty, trim_left_by, trim_right_by,
}

-- A function from texts to digests of 32 bytes.
pub record IsDigest (sha256 : Text → List ℕ) : Type 0 where
  pub size : (s : Text) → length (sha256 s) ≡ 32
  pub bytes : (s : Text) → All (λ b. b < 256) (sha256 s)

unfoldable pub hex_digit : ℕ → ℕ
hex_digit n = if ltb n 10 then b'0' + n else b'a' + (n - 10)

-- `hex.EncodeToString`
unfoldable pub hex_encode : List ℕ → Text
unfolding hex_digit
hex_encode [] = []
hex_encode (b ∷ bs) = hex_digit (b / 16) ∷ hex_digit (b % 16) ∷ hex_encode bs

-- `unicode.IsLetter(r) || unicode.IsDigit(r)`. Beyond ASCII a text is taken to have only letters and
-- digits, which are kept; other characters beyond ASCII are not modelled.
unfoldable pub is_alnum : ℕ → Bool
is_alnum c =
    leb b'a' c && leb c b'z'
    || (leb b'A' c && leb c b'Z' || (leb b'0' c && leb c b'9' || leb 128 c))

-- The string builder `b` and the flag `lastDash`.
pub record Builder : Type 0 where
  pub written : Text
  pub last_dash : Bool

-- One round of the loop over the runes of the lower-cased text.
unfoldable pub write_rune : Builder → ℕ → Builder
unfolding is_alnum is_empty
write_rune b r =
    if is_alnum r
    then record { written = b.written ++ r ∷ []; last_dash = false }
    else if not b.last_dash && not (is_empty b.written)
    then record { written = b.written ++ b'-' ∷ []; last_dash = true }
    else b

unfoldable pub write_runes : Builder → Text → Builder
unfolding write_rune
write_runes b [] = b
write_runes b (r ∷ s) = write_runes (write_rune b r) s

unfoldable pub is_dash : ℕ → Bool
is_dash c = nat_beq c b'-'

abbrev or_resource : Text → Text
or_resource [] = codes "resource"
or_resource (c ∷ s) = c ∷ s

-- The part of the label before the hash, cut to `max_base` bytes.
unfoldable pub label_base : ℕ → Text → Text
unfolding to_lower write_runes is_dash trim_left_by trim_right_by
label_base max_base raw =
    let slug = (write_runes (record { written = []; last_dash = false }) (to_lower raw)).written in
    let base = or_resource (trim_right_by is_dash (trim_left_by is_dash slug)) in
    if ltb max_base (length base) then trim_right_by is_dash (take max_base base) else base

module _ (sha256 : Text → List ℕ) where
  unfoldable pub label_suffix : Text → Text
  unfolding hex_encode
  label_suffix raw = hex_encode (take 4 (sha256 raw))

  -- `DNSLabel`
  unfoldable pub dns_label : List Text → Text
  unfolding join label_suffix label_base
  dns_label parts =
      let raw = join parts (codes "-") in
      let suffix = label_suffix raw in label_base (63 - length suffix - 1) raw ++ b'-' ∷ suffix

  -- `HTTPSListener`
  unfoldable pub https_listener : Text → Text
  unfolding dns_label
  https_listener hostname = dns_label (codes "https" ∷ hostname ∷ [])
