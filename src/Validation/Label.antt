-- ===== src/Validation/Label.antt =====
-- pkg/services/validation_service.go: `isValidDNSLabel`, and the grammar of DNS labels.
use mcp_operator.Prelude.{
  ℕ, ◌%◌, ◌<◌, ◌≡◌, refl, ap, Bool, true, false, ◌&&◌, ◌||◌, not, List, [], ◌∷◌, arith, ltb, leb,
  eqb, if◌then◌else◌, eqb→eq, length, all, utf8, bytes,
}

-- `isAlphaNumeric`, of a byte.
unfoldable pub is_alpha_numeric : ℕ → Bool
is_alpha_numeric b =
    (leb b'a' b && leb b b'z') || (leb b'A' b && leb b b'Z') || (leb b'0' b && leb b b'9')

abbrev last_of : ℕ → List ℕ → ℕ
last_of b [] = b
last_of b (c ∷ bs) = last_of c bs

-- `label[0]` and `label[len(label)-1]`.
unfoldable pub ends_well : List ℕ → Bool
unfolding is_alpha_numeric
ends_well [] = false
ends_well (b ∷ bs) = is_alpha_numeric b && is_alpha_numeric (last_of b bs)

-- The loop over the runes; `byte(char)` keeps the low eight bits.
unfoldable pub runes_ok : List ℕ → Bool
unfolding is_alpha_numeric
runes_ok [] = true
runes_ok (r ∷ rs) =
    if not (is_alpha_numeric (r % 256)) && not (eqb r b'-') then false else runes_ok rs

-- The label is given by its runes.
unfoldable pub is_valid_dns_label : List ℕ → Bool
unfolding ends_well runes_ok
is_valid_dns_label label =
    let bs = bytes label in
    if eqb (length bs) 0 || ltb 63 (length bs)
    then false
    else if not (ends_well bs)
    then false
    else runes_ok label

-- Letters, digits and hyphens, after something that may or may not end a label.
unfoldable pub label_rest : (may_end : Bool) → List ℕ → Bool
unfolding is_alpha_numeric
label_rest may_end [] = may_end
label_rest may_end (r ∷ rs) =
    let after = label_rest true rs in
    let after_hyphen = label_rest false rs in
    if is_alpha_numeric r then after else if eqb r b'-' then after_hyphen else false

-- The grammar of RFC 1123, with capitals: letters, digits and hyphens, with a letter or digit at
-- both ends.
unfoldable pub is_label : List ℕ → Bool
unfolding label_rest
is_label [] = false
is_label (r ∷ rs) = if is_alpha_numeric r then label_rest true rs else false

abbrev pub is_ascii : List ℕ → Bool
is_ascii rs = all (λ r. ltb r 128) rs

low_rune : (r : ℕ) → r < 128 → utf8 r ≡ r ∷ []
unfolding utf8
low_rune r h = ground arith

bytes_ascii : (rs : List ℕ) → is_ascii rs ≡ true → bytes rs ≡ rs
unfolding bytes
bytes_ascii [] h = refl
bytes_ascii (r ∷ rs) h =
    let low : r < 128 = ground arith in
    rw (low_rune r low) (ap (λ bs. r ∷ bs) (bytes_ascii rs (ground arith)))

and_true : (b : Bool) → b ≡ (b && true)
and_true true = refl
and_true false = refl

and_false : (b : Bool) → (b && false) ≡ false
and_false true = refl
and_false false = refl

hyphen : is_alpha_numeric b'-' ≡ false
unfolding is_alpha_numeric
hyphen = refl

byte_of : (s : ℕ) → s < 128 → s % 256 ≡ s
byte_of s h = omega arith

label_rest-ascii :
    (r : ℕ) (rs : List ℕ)
    → is_ascii rs ≡ true
    → label_rest (is_alpha_numeric r) rs ≡ (is_alpha_numeric (last_of r rs) && runes_ok rs)
unfolding label_rest runes_ok
label_rest-ascii r [] h = and_true (is_alpha_numeric r)
label_rest-ascii r (s ∷ rs) h =
    let low : s < 128 = ground arith in
    let step = label_rest-ascii s rs (ground arith) in
    rw (byte_of s low)
      (ground (arith, step, hyphen, eqb→eq s b'-', and_false (is_alpha_numeric (last_of s rs))))

label_ascii :
    (rs : List ℕ)
    → is_ascii rs ≡ true
    → (if eqb (length rs) 0 || ltb 63 (length rs)
        then false
        else if not (ends_well rs)
        then false
        else runes_ok rs)
      ≡ (leb (length rs) 63 && is_label rs)
unfolding is_label ends_well runes_ok
label_ascii [] h = refl
label_ascii (r ∷ rs) h =
    let low : r < 128 = ground arith in
    let step = label_rest-ascii r rs (ground arith) in
    rw (byte_of r low) (ground (arith, step, hyphen, eqb→eq r b'-'))

-- On the texts of ASCII runes, exactly the labels of at most 63 bytes are valid.
pub is_valid_dns_label-ascii :
    (rs : List ℕ) → is_ascii rs ≡ true → is_valid_dns_label rs ≡ (leb (length rs) 63 && is_label rs)
unfolding is_valid_dns_label
is_valid_dns_label-ascii rs h = rw (bytes_ascii rs h) (label_ascii rs h)
