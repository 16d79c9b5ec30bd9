-- ===== src/RegistryCache/Names.antt =====
-- pkg/registry/cache/cache_manager.go: what `dns1123Name` makes of any name.
use mcp_operator.Prelude.{
  ℕ, zero, suc, ◌≤◌, ◌<◌, ◌≡◌, refl, sym, subst, ◌⊎◌, inl, inr, Bool, true, false, ◌&&◌, not, List,
  [], ◌∷◌, map, arith, ltb, if◌then◌else◌, ltb→lt, Bool-cases, length, all, to_lower,
}
use mcp_operator.RegistryCache.{
  is_allowed, replaced, sanitize, is_trimmed, trim_left, attach, trim_right, take, or_server,
  dns1123_name,
}

-- Letters and digits, which may stand at the ends.
abbrev pub is_end : ℕ → Bool
is_end r = is_allowed r && not (is_trimmed r)

abbrev pub starts_well : List ℕ → Bool
starts_well [] = false
starts_well (r ∷ rs) = is_end r

hyphen_allowed : is_allowed b'-' ≡ true
unfolding is_allowed
hyphen_allowed = refl

replaced-allowed : (l : ℕ) → is_allowed (replaced l) ≡ true
unfolding replaced
replaced-allowed l = ground (arith, hyphen_allowed)

sanitize-allowed : (r : ℕ) → is_allowed (sanitize r) ≡ true
unfolding sanitize
sanitize-allowed r = replaced-allowed (to_lower r)

map-allowed : (rs : List ℕ) → all is_allowed (map sanitize rs) ≡ true
map-allowed [] = refl
map-allowed (r ∷ rs) = ground (arith, sanitize-allowed r, map-allowed rs)

trim_left-allowed : (rs : List ℕ) → all is_allowed rs ≡ true → all is_allowed (trim_left rs) ≡ true
trim_left-allowed [] h = refl
trim_left-allowed (r ∷ rs) h = ground (arith, trim_left-allowed rs)

attach-allowed :
    (r : ℕ) (rs : List ℕ)
    → is_allowed r ≡ true
    → all is_allowed rs ≡ true
    → all is_allowed (attach r rs) ≡ true
attach-allowed r [] h k = ground arith
attach-allowed r (s ∷ ss) h k = ground arith

trim_right-allowed :
    (rs : List ℕ) → all is_allowed rs ≡ true → all is_allowed (trim_right rs) ≡ true
trim_right-allowed [] h = refl
trim_right-allowed (r ∷ rs) h =
    attach-allowed r (trim_right rs) (ground arith) (trim_right-allowed rs (ground arith))

take-allowed : (n : ℕ) (rs : List ℕ) → all is_allowed rs ≡ true → all is_allowed (take n rs) ≡ true
unfolding take
take-allowed zero rs h = refl
take-allowed (suc n) [] h = refl
take-allowed (suc n) (r ∷ rs) h = ground (arith, take-allowed n rs)

length-take : (n : ℕ) (rs : List ℕ) → n ≤ length rs → length (take n rs) ≡ n
unfolding take
length-take zero rs h = refl
length-take (suc n) [] h = absurd (omega arith)
length-take (suc n) (r ∷ rs) h = omega (arith, length-take n rs (omega arith))

-- Empty, or a letter or digit first.
abbrev pub starts_or_empty : List ℕ → Bool
starts_or_empty [] = true
starts_or_empty (r ∷ rs) = is_end r

trim_left-starts : (rs : List ℕ) → all is_allowed rs ≡ true → starts_or_empty (trim_left rs) ≡ true
trim_left-starts [] h = refl
trim_left-starts (r ∷ rs) h = ground (arith, trim_left-starts rs)

attach-starts : (r : ℕ) (rs : List ℕ) → is_end r ≡ true → starts_or_empty (attach r rs) ≡ true
attach-starts r [] h = ground arith
attach-starts r (s ∷ ss) h = h

trim_right-starts :
    (rs : List ℕ) → starts_or_empty rs ≡ true → starts_or_empty (trim_right rs) ≡ true
trim_right-starts [] h = refl
trim_right-starts (r ∷ rs) h = attach-starts r (trim_right rs) h

abbrev pub last_ok : ℕ → List ℕ → Bool
last_ok r [] = is_end r
last_ok r (s ∷ ss) = last_ok s ss

-- Empty, or a letter or digit last.
abbrev pub ends_or_empty : List ℕ → Bool
ends_or_empty [] = true
ends_or_empty (r ∷ rs) = last_ok r rs

attach-ends :
    (r : ℕ) (rs : List ℕ)
    → is_allowed r ≡ true
    → ends_or_empty rs ≡ true
    → ends_or_empty (attach r rs) ≡ true
attach-ends r [] h k = ground arith
attach-ends r (s ∷ ss) h k = k

trim_right-ends : (rs : List ℕ) → all is_allowed rs ≡ true → ends_or_empty (trim_right rs) ≡ true
trim_right-ends [] h = refl
trim_right-ends (r ∷ rs) h =
    attach-ends r (trim_right rs) (ground arith) (trim_right-ends rs (ground arith))

-- Runes that are all allowed, with a letter or digit at both ends.
pub record IsTrimmedName (rs : List ℕ) : Type 0 where
  pub some_rune : 1 ≤ length rs
  pub allowed : all is_allowed rs ≡ true
  pub first : starts_or_empty rs ≡ true
  pub final : ends_or_empty rs ≡ true

or_server-IsTrimmedName :
    (rs : List ℕ)
    → all is_allowed rs ≡ true
    → starts_or_empty rs ≡ true
    → ends_or_empty rs ≡ true
    → IsTrimmedName (or_server rs)
unfolding is_allowed
or_server-IsTrimmedName [] a s e = record {
  some_rune = omega arith;
  allowed = refl;
  first = refl;
  final = refl;
}
or_server-IsTrimmedName (r ∷ rs) a s e = record {
  some_rune = omega arith;
  allowed = a;
  first = s;
  final = e;
}

abbrev pub trimmed_name : List ℕ → List ℕ
trimmed_name s = or_server (trim_right (trim_left (map sanitize s)))

trimmed_name-IsTrimmedName : (s : List ℕ) → IsTrimmedName (trimmed_name s)
trimmed_name-IsTrimmedName s =
    let left = trim_left (map sanitize s) in
    let a = trim_left-allowed (map sanitize s) (map-allowed s) in
    or_server-IsTrimmedName (trim_right left) (trim_right-allowed left a)
      (trim_right-starts left (trim_left-starts (map sanitize s) (map-allowed s)))
      (trim_right-ends left a)

take-starts : (n : ℕ) (rs : List ℕ) → starts_or_empty rs ≡ true → starts_or_empty (take n rs) ≡ true
unfolding take
take-starts zero rs h = refl
take-starts (suc n) [] h = refl
take-starts (suc n) (r ∷ rs) h = h

-- 1 to 253 letters, digits, hyphens and dots, with a letter or digit first, and also last below
-- 253.
pub record IsCutName (rs : List ℕ) : Type 0 where
  pub some_rune : 1 ≤ length rs
  pub at_most : length rs ≤ 253
  pub allowed : all is_allowed rs ≡ true
  pub first : starts_or_empty rs ≡ true
  pub final : (length rs ≡ 253) ⊎ (ends_or_empty rs ≡ true)

short-IsCutName : (rs : List ℕ) → IsTrimmedName rs → length rs ≤ 253 → IsCutName rs
short-IsCutName rs h k = record {
  some_rune = h.some_rune;
  at_most = k;
  allowed = h.allowed;
  first = h.first;
  final = inr h.final;
}

long-IsCutName : (rs : List ℕ) → IsTrimmedName rs → 253 < length rs → IsCutName (take 253 rs)
long-IsCutName rs h k =
    let full = length-take 253 rs (omega arith) in
    record {
      some_rune = omega (arith, full);
      at_most = omega (arith, full);
      allowed = take-allowed 253 rs h.allowed;
      first = take-starts 253 rs h.first;
      final = inl full;
    }

cut-IsCutName :
    (rs : List ℕ) → IsTrimmedName rs → IsCutName (if ltb 253 (length rs) then take 253 rs else rs)
cut-IsCutName rs h = elim (Bool-cases (ltb 253 (length rs))) [
  | inl long ↦
      subst (λ b. IsCutName (if b then take 253 rs else rs)) (sym long)
        (long-IsCutName rs h (ltb→lt 253 (length rs) long))
  | inr short ↦
      subst (λ b. IsCutName (if b then take 253 rs else rs)) (sym short)
        (short-IsCutName rs h (ground arith))
]

-- Of any name it makes a name of 1 to 253 letters, digits, hyphens and dots, with a letter or digit
-- first, and also last unless the name has 253 of them.
pub dns1123_name-IsCutName : (s : List ℕ) → IsCutName (dns1123_name s)
unfolding dns1123_name
dns1123_name-IsCutName s = cut-IsCutName (trimmed_name s) (trimmed_name-IsTrimmedName s)
