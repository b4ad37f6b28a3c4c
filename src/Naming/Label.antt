-- ===== src/Naming/Label.antt =====
-- What `DNSLabel` guarantees: its result is a DNS label of at most 63 bytes.
use ingress_nginx_gateway_br.Common.{
  ℕ, zero, suc, ◌+◌, ◌-◌, ◌/◌, ◌%◌, ◌≤◌, ◌<◌, ◌≡◌, refl, ap, sym, subst, ◌⊎◌, inl, inr, Bool, false,
  not, ◌&&◌, List, [], ◌∷◌, ◌++◌, arith, take, length, length-append, length-take_le, All, All-map,
  All-append, ltb, Bool-cases,
}
use ingress_nginx_gateway_br.Text.{
  Text, codes, join, to_lower, is_empty, trim_left_by, trim_right_by,
}
use ingress_nginx_gateway_br.Text.Affixes.{length-trim_right_le}
use ingress_nginx_gateway_br.Naming.{
  IsDigest, hex_digit, hex_encode, is_alnum, Builder, write_rune, write_runes, is_dash, or_resource,
  label_base, label_suffix, dns_label,
}

-- A character of a label: a lower-case letter, a digit or a dash.
abbrev pub LabelChar : ℕ → Type 0
LabelChar c = ((97 ≤ c) × (c ≤ 122)) ⊎ (((48 ≤ c) × (c ≤ 57)) ⊎ (c ≡ 45))

abbrev pub Alnum : ℕ → Type 0
Alnum c = ((97 ≤ c) × (c ≤ 122)) ⊎ ((48 ≤ c) × (c ≤ 57))

abbrev pub StartsAlnum : Text → Type 0
StartsAlnum [] = ⊥
StartsAlnum (c ∷ s) = Alnum c

abbrev pub EndsAlnum : Text → Type 0
EndsAlnum [] = ⊥
EndsAlnum (c ∷ []) = Alnum c
EndsAlnum (c ∷ d ∷ s) = EndsAlnum (d ∷ s)

-- RFC 1123: one to 63 letters, digits and dashes, with no dash at either end.
pub record IsLabel (s : Text) : Type 0 where
  pub short : length s ≤ 63
  pub chars : All LabelChar s
  pub starts : StartsAlnum s
  pub ends : EndsAlnum s

-- A text of ASCII characters.
abbrev pub IsAscii : Text → Type 0
IsAscii s = All (λ c. c < 128) s

join-IsAscii : (parts : List Text) → All IsAscii parts → IsAscii (join parts (codes "-"))
unfolding join
join-IsAscii [] h = tt
join-IsAscii (s ∷ []) h = h.0
join-IsAscii (s ∷ t ∷ parts) h = All-append _ s _ h.0 (omega arith, join-IsAscii (t ∷ parts) h.1)

-- An ASCII character that is no upper-case letter.
abbrev IsLower : ℕ → Type 0
IsLower c = (c < 128) × ((c < 65) ⊎ (90 < c))

to_lower-IsLower : (s : Text) → IsAscii s → All IsLower (to_lower s)
unfolding to_lower
to_lower-IsLower [] h = tt
to_lower-IsLower (c ∷ s) h = let low = h.0 in (ground arith, to_lower-IsLower s h.1)

write_rune-LabelChar :
    (b : Builder) (r : ℕ)
    → IsLower r
    → All LabelChar b.written
    → All LabelChar (write_rune b r).written
unfolding write_rune
write_rune-LabelChar b r low h = elim (Bool-cases (is_alnum r)) [
  | inl valid ↦ rw valid (All-append LabelChar b.written (r ∷ []) h (ground arith, tt))
  | inr other ↦ elim (Bool-cases (not b.last_dash && not (is_empty b.written))) [
    | inl fresh ↦ rw (other, fresh) (All-append LabelChar b.written (45 ∷ []) h (omega arith, tt))
    | inr skipped ↦ rw (other, skipped) h
  ]
]

write_runes-LabelChar :
    (b : Builder) (s : Text)
    → All IsLower s
    → All LabelChar b.written
    → All LabelChar (write_runes b s).written
unfolding write_runes
write_runes-LabelChar b [] low h = h
write_runes-LabelChar b (r ∷ s) low h =
    write_runes-LabelChar (write_rune b r) s low.1 (write_rune-LabelChar b r low.0 h)

trim_left-All : (P : ℕ → Type 0) (p : ℕ → Bool) (s : Text) → All P s → All P (trim_left_by p s)
unfolding trim_left_by
trim_left-All P p [] h = tt
trim_left-All P p (c ∷ s) h = elim (Bool-cases (p c)) [
  | inl out ↦ rw out (trim_left-All P p s h.1)
  | inr stays ↦ rw stays h
]

trim_right-All : (P : ℕ → Type 0) (p : ℕ → Bool) (s : Text) → All P s → All P (trim_right_by p s)
unfolding trim_right_by
trim_right-All P p [] h = tt
trim_right-All P p (c ∷ s) h = ground (arith, trim_right-All P p s h.1)

take-All : (P : ℕ → Type 0) (n : ℕ) (s : Text) → All P s → All P (take n s)
take-All P zero s h = tt
take-All P (suc n) [] h = tt
take-All P (suc n) (c ∷ s) h = (h.0, take-All P n s h.1)

length-take : {A : Type 0} (n : ℕ) (xs : List A) → n ≤ length xs → length (take n xs) ≡ n
length-take zero xs h = refl
length-take (suc n) [] h = elim h [ ]
length-take (suc n) (x ∷ xs) h = ap suc (length-take n xs (omega arith))

length-hex_encode : (bs : List ℕ) → length (hex_encode bs) ≡ length bs + length bs
unfolding hex_encode
length-hex_encode [] = omega arith
length-hex_encode (b ∷ bs) = omega (arith, length-hex_encode bs)

hex_digit-Alnum : (n : ℕ) → n < 16 → Alnum (hex_digit n)
unfolding hex_digit
hex_digit-Alnum n h = ground arith

hex_encode-Alnum : (bs : List ℕ) → All (λ b. b < 256) bs → All Alnum (hex_encode bs)
unfolding hex_encode
hex_encode-Alnum [] h = tt
hex_encode-Alnum (b ∷ bs) h = (
  hex_digit-Alnum (b / 16) (omega arith),
  (hex_digit-Alnum (b % 16) (omega arith), hex_encode-Alnum bs h.1),
)

EndsAlnum-append : (s t : Text) → EndsAlnum t → EndsAlnum (s ++ t)
EndsAlnum-append [] t h = h
EndsAlnum-append (c ∷ []) (d ∷ t) h = h
EndsAlnum-append (c ∷ []) [] h = absurd h
EndsAlnum-append (c ∷ d ∷ s) t h = EndsAlnum-append (d ∷ s) t h

EndsAlnum-of_All : (s : Text) → 0 < length s → All Alnum s → EndsAlnum s
EndsAlnum-of_All [] h k = elim h [ ]
EndsAlnum-of_All (c ∷ []) h k = k.0
EndsAlnum-of_All (c ∷ d ∷ s) h k = EndsAlnum-of_All (d ∷ s) (omega arith) k.1

StartsAlnum-append : (s t : Text) → StartsAlnum s → StartsAlnum (s ++ t)
StartsAlnum-append [] t h = absurd h
StartsAlnum-append (c ∷ s) t h = h

-- No dash at the front.
abbrev StartsClean : Text → Type 0
StartsClean [] = Unit
StartsClean (c ∷ s) = is_dash c ≡ false

trim_left-StartsClean : (s : Text) → StartsClean (trim_left_by is_dash s)
unfolding trim_left_by
trim_left-StartsClean [] = tt
trim_left-StartsClean (c ∷ s) = elim (Bool-cases (is_dash c)) [
  | inl out ↦ rw out (trim_left-StartsClean s)
  | inr stays ↦ rw stays stays
]

Alnum-of_LabelChar : (c : ℕ) → LabelChar c → is_dash c ≡ false → Alnum c
unfolding is_dash
Alnum-of_LabelChar c h k = ground arith

trim_right-StartsAlnum :
    (s : Text)
    → StartsClean s
    → All LabelChar s
    → StartsAlnum (or_resource (trim_right_by is_dash s))
unfolding trim_right_by
trim_right-StartsAlnum [] h k = omega arith
trim_right-StartsAlnum (c ∷ s) h k = rw h (Alnum-of_LabelChar c k.0 h)

take-StartsAlnum :
    (n : ℕ) (s : Text) → StartsAlnum s → StartsAlnum (trim_right_by is_dash (take (suc n) s))
unfolding trim_right_by is_dash
take-StartsAlnum n [] h = absurd h
take-StartsAlnum n (c ∷ s) h = let e : is_dash c ≡ false = ground arith in rw e h

or_resource-LabelChar : (s : Text) → All LabelChar s → All LabelChar (or_resource s)
or_resource-LabelChar [] h = omega arith
or_resource-LabelChar (c ∷ s) h = h

-- The base is at most `max_base` bytes of label characters, and starts with a letter or a digit.
record IsBase (max_base : ℕ) (s : Text) : Type 0 where
  short : length s ≤ max_base
  chars : All LabelChar s
  starts : StartsAlnum s

label_base-IsBase : (n : ℕ) (raw : Text) → IsAscii raw → IsBase (suc n) (label_base (suc n) raw)
unfolding label_base
label_base-IsBase n raw ascii = elim (Bool-cases (ltb (suc n) (length base))) [
  | inl long ↦
      rw long
        (record { short = cut_short; chars = cut_chars; starts = take-StartsAlnum n base starts })
  | inr fits ↦ rw fits (record { short = ground arith; chars = chars; starts = starts })
]
  where
    slug : Text
    slug = (write_runes (record { written = []; last_dash = false }) (to_lower raw)).written

    slug_chars : All LabelChar (trim_left_by is_dash slug)
    slug_chars =
        trim_left-All LabelChar is_dash slug
          (write_runes-LabelChar _ (to_lower raw) (to_lower-IsLower raw ascii) tt)

    base : Text
    base = or_resource (trim_right_by is_dash (trim_left_by is_dash slug))

    chars : All LabelChar base
    chars = or_resource-LabelChar _ (trim_right-All LabelChar is_dash _ slug_chars)

    starts : StartsAlnum base
    starts = trim_right-StartsAlnum _ (trim_left-StartsClean slug) slug_chars

    cut_chars : All LabelChar (trim_right_by is_dash (take (suc n) base))
    cut_chars = trim_right-All LabelChar is_dash _ (take-All LabelChar (suc n) base chars)

    cut_short : length (trim_right_by is_dash (take (suc n) base)) ≤ suc n
    cut_short =
        omega (arith, length-trim_right_le is_dash (take (suc n) base), length-take_le (suc n) base)

LabelChar-of_Alnum : (c : ℕ) → Alnum c → LabelChar c
LabelChar-of_Alnum c h = ground arith

IsLabel-assemble :
    (s suffix : Text)
    → IsBase 54 s
    → length suffix ≡ 8
    → All Alnum suffix
    → IsLabel (s ++ b'-' ∷ suffix)
IsLabel-assemble s suffix b e h = record {
  short = omega (arith, length-append s (b'-' ∷ suffix), b.short);
  chars =
      All-append LabelChar s (b'-' ∷ suffix) b.chars
        (omega arith, All-map Alnum LabelChar suffix LabelChar-of_Alnum h);
  starts = StartsAlnum-append s (b'-' ∷ suffix) b.starts;
  ends =
      EndsAlnum-append s (b'-' ∷ suffix)
        (EndsAlnum-append (b'-' ∷ []) suffix (EndsAlnum-of_All suffix (omega arith) h));
}

module _ (sha256 : Text → List ℕ) (digest : IsDigest sha256) where
  length-label_suffix : (raw : Text) → length (label_suffix sha256 raw) ≡ 8
  unfolding label_suffix
  length-label_suffix raw = omega (
    arith,
    length-hex_encode (take 4 (sha256 raw)),
    length-take 4 (sha256 raw) (omega (arith, digest.size raw)),
  )

  label_suffix-Alnum : (raw : Text) → All Alnum (label_suffix sha256 raw)
  unfolding label_suffix
  label_suffix-Alnum raw =
      hex_encode-Alnum (take 4 (sha256 raw))
        (take-All (λ b. b < 256) 4 (sha256 raw) (digest.bytes raw))

  -- For every list of parts of ASCII characters, `DNSLabel` gives a DNS label of RFC 1123: one to 63 lower-case letters,
  -- digits and dashes, starting and ending with a letter or a digit, where `sha256` gives digests of
  -- 32 bytes.
  pub dns_label-IsLabel : (parts : List Text) → All IsAscii parts → IsLabel (dns_label sha256 parts)
  unfolding dns_label
  dns_label-IsLabel parts ascii =
      let raw = join parts (codes "-") in
      let e = length-label_suffix raw in
      let suffix = label_suffix sha256 raw in
      let k : 63 - length suffix - 1 ≡ 54 = omega arith in
      let b =
        subst (λ m. IsBase 54 (label_base m raw)) (sym k)
          (label_base-IsBase 53 raw (join-IsAscii parts ascii)) in
      IsLabel-assemble _ suffix b e (label_suffix-Alnum raw)
