-- ===== src/Prelude/Text.antt =====
-- Go strings: the native text where the code compares whole strings, its runes where it walks them.
use Prim.Native.Nat.{ℕ, ◌+◌, ◌-◌, ◌*◌, ◌/◌, ◌%◌}
use Prim.Native.Char.{code}
use Prim.Native.String
use Prim.Native.String.{String}
use mathlib.Core.Bool.{Bool, true, false, ◌&&◌, ◌||◌}
use mathlib.Core.Option.{Option, none, some}
use mathlib.Core.List.{List, [], ◌∷◌, ◌++◌, reverse}
use text.Mathlib.Text.{◌==◌}
use mcp_operator.Prelude.Tests.{ltb, leb, eqb, if◌then◌else◌}
use mcp_operator.Prelude.Int.{ℤ, pos, pos_part, neg_part, sub_ℕ}

-- The code points of a text, which `for _, r := range s` yields.
abbrev pub runes : String → List ℕ
runes String.[] = []
runes (String.◌∷◌ c s) = code c ∷ runes s

-- The UTF-8 bytes of a code point.
unfoldable pub utf8 : ℕ → List ℕ
utf8 r =
    if ltb r 0x80
    then r ∷ []
    else if ltb r 0x800
    then (0xc0 + r / 64) ∷ (0x80 + r % 64) ∷ []
    else if ltb r 0x10000
    then (0xe0 + r / 4096) ∷ (0x80 + r / 64 % 64) ∷ (0x80 + r % 64) ∷ []
    else (0xf0 + r / 262144) ∷ (0x80 + r / 4096 % 64) ∷ (0x80 + r / 64 % 64) ∷ (0x80 + r % 64) ∷ []

-- The bytes of a string given by its runes: what `len(s)` counts and `s[i]` reads.
unfoldable pub bytes : List ℕ → List ℕ
unfolding utf8
bytes [] = []
bytes (r ∷ rs) = utf8 r ++ bytes rs

abbrev pub is_prefix_of : List ℕ → List ℕ → Bool
is_prefix_of [] ys = true
is_prefix_of (x ∷ xs) [] = false
is_prefix_of (x ∷ xs) (y ∷ ys) = eqb x y && is_prefix_of xs ys

-- `strings.HasSuffix(s, suffix)`.
unfoldable pub has_suffix : String → String → Bool
has_suffix s suffix = is_prefix_of (reverse (runes suffix)) (reverse (runes s))

-- Membership in a list of strings.
abbrev pub contains : List String → String → Bool
contains [] item = false
contains (s ∷ slice) item = if s == item then true else contains slice item

-- `unicode.ToLower`, exact on the runes whose lower case is ASCII; the code looks at no others.
unfoldable pub to_lower : ℕ → ℕ
to_lower r =
    if leb b'A' r && leb r b'Z'
    then r + 32
    else if eqb r 0x212a
    then b'k'
    else if eqb r 0x130
    then b'i'
    else r

-- `strings.Contains`, on runes.
abbrev pub has_infix : List ℕ → List ℕ → Bool
has_infix pattern [] = is_prefix_of pattern []
has_infix pattern (r ∷ rs) = if is_prefix_of pattern (r ∷ rs) then true else has_infix pattern rs

-- The digits of a decimal number, after those that are read already.
abbrev pub parse_digits : ℕ → List ℕ → Option ℕ
parse_digits n [] = some n
parse_digits n (r ∷ rs) =
    let rest = parse_digits (n * 10 + (r - b'0')) rs in
    if leb b'0' r && leb r b'9' then rest else none

abbrev parse_number : List ℕ → Option ℕ
parse_number [] = none
parse_number (r ∷ rs) = parse_digits 0 (r ∷ rs)

abbrev in_int64 : ℤ → Option ℤ
in_int64 n =
    if leb (pos_part n) 0x7fff_ffff_ffff_ffff && leb (neg_part n) 0x8000_0000_0000_0000
    then some n
    else none

abbrev signed : Bool → ℕ → ℤ
signed minus n = if minus then sub_ℕ 0 n else pos n

abbrev parse_signed : List ℕ → Option ℤ
parse_signed [] = none
parse_signed (r ∷ rs) =
    if eqb r b'-' || eqb r b'+'
    then elim (parse_number rs) [ none ↦ none | some n ↦ in_int64 (signed (eqb r b'-') n) ]
    else elim (parse_number (r ∷ rs)) [ none ↦ none | some n ↦ in_int64 (pos n) ]

-- `strconv.ParseInt(s, 10, 64)` and `strconv.Atoi`; `none` is an error.
unfoldable pub parse_int : String → Option ℤ
parse_int s = parse_signed (runes s)

-- `fmt.Sprintf` of a format cut at its verbs.
abbrev pub concat : List String → String
concat [] = ""
concat (s ∷ ss) = String.◌++◌ s (concat ss)
