-- ===== src/RegistryService/Chosen.antt =====
-- pkg/services/registry_service.go: which token is used, and how the methods on a registry agree.
use mcp_operator.Prelude.{
  String, ◌==◌, eq_iff, ◌≡◌, refl, sym, ◌∙◌, ◌⊎◌, inl, inr, Option, none, some, List, [], ◌∷◌,
  arith, if◌then◌else◌, Bool-cases, Dict, lookup,
}
use mcp_operator.RegistryService.{Read, found, absent, broken}
use mcp_operator.RegistryService.Token.{
  SecretReference, Auth, Access, not_in_secret, under_supported, under_key, read_secret, of_secret,
  get_github_token_from_secret, or_env, get_github_token,
}

-- The first text that is not empty.
abbrev pub first_given : List String → String
first_given [] = ""
first_given (s ∷ ss) = let later = first_given ss in if s == "" then later else s

abbrev pub or_text : Option String → String → String
or_text none other = other
or_text (some text) other = text

-- What the data have under the first of the keys that they have.
abbrev pub first_entry : (keys : List String) → Dict String → String
first_entry [] content = ""
first_entry (k ∷ ks) content = or_text (lookup k content) (first_entry ks content)

-- The keys that are tried.
abbrev pub tried_keys : SecretReference → List String
tried_keys r =
    let supported = "token" ∷ "GITHUB_TOKEN" ∷ [] in
    if r.key == "" then supported else r.key ∷ supported

abbrev pub content_of : Read (Dict String) → Dict String
content_of (found content) = content
content_of absent = []
content_of (broken err) = []

abbrev pub text_of : String ⊎ String → String
text_of (inl err) = ""
text_of (inr token) = token

text_of-not_in_secret :
    (namespace : String) (r : SecretReference) → text_of (not_in_secret namespace r) ≡ ""
text_of-not_in_secret namespace r = elim (Bool-cases r.optional) [
  | inl optional ↦ rw optional refl
  | inr needed ↦ rw needed refl
]

text_of-under_supported :
    (a b : Option String) (otherwise : String ⊎ String)
    → text_of otherwise ≡ ""
    → text_of (under_supported a b otherwise) ≡ or_text a (or_text b "")
text_of-under_supported (some token) b otherwise h = refl
text_of-under_supported none (some token) otherwise h = refl
text_of-under_supported none none otherwise h = h

text_of-under_key :
    (a : Option String) (otherwise : String ⊎ String) (later : String)
    → text_of otherwise ≡ later
    → text_of (under_key a otherwise) ≡ or_text a later
text_of-under_key (some token) otherwise later h = refl
text_of-under_key none otherwise later h = h

text_of-read_secret :
    (namespace : String) (r : SecretReference) (content : Dict String)
    → text_of (read_secret namespace r content) ≡ first_entry (tried_keys r) content
unfolding read_secret
text_of-read_secret namespace r content =
    let supported =
      text_of-under_supported (lookup "token" content) (lookup "GITHUB_TOKEN" content)
        (not_in_secret namespace r) (text_of-not_in_secret namespace r) in
    elim (Bool-cases (r.key == "")) [
      | inl missing ↦ rw missing supported
      | inr given ↦ rw given (text_of-under_key (lookup r.key content) _ _ supported)
    ]

nothing_there : (r : SecretReference) → first_entry (tried_keys r) [] ≡ ""
unfolding lookup
nothing_there r = elim (Bool-cases (r.key == "")) [
  | inl missing ↦ rw missing refl
  | inr given ↦ rw given refl
]

text_of-of_secret :
    (namespace : String) (r : SecretReference) (answer : Read (Dict String))
    → text_of (of_secret namespace r answer) ≡ first_entry (tried_keys r) (content_of answer)
unfolding of_secret
text_of-of_secret namespace r (found content) = text_of-read_secret namespace r content
text_of-of_secret namespace r (broken err) = sym (nothing_there r)
text_of-of_secret namespace r absent =
    elim (Bool-cases r.optional) [ inl optional ↦ rw optional refl | inr needed ↦ rw needed refl ]
    ∙ sym (nothing_there r)

module _ (access : Access) where
  abbrev pub secret_token : (namespace : String) → Option SecretReference → String
  secret_token namespace none = ""
  secret_token namespace (some r) =
      first_entry (tried_keys r) (content_of (access.secret r.name namespace))

  or_env-text_of :
      (o : String ⊎ String) → or_env access o ≡ first_given (text_of o ∷ access.env_token ∷ [])
  or_env-text_of (inl err) = ground (arith, eq_iff access.env_token "")
  or_env-text_of (inr token) = ground (arith, eq_iff access.env_token "")

  text_of-get_github_token_from_secret :
      (namespace : String) (r : Option SecretReference)
      → text_of (get_github_token_from_secret access namespace r) ≡ secret_token namespace r
  unfolding get_github_token_from_secret
  text_of-get_github_token_from_secret namespace none = refl
  text_of-get_github_token_from_secret namespace (some r) =
      text_of-of_secret namespace r (access.secret r.name namespace)

  -- The token of a registry with authentication is the first that is not empty of: the token given
  -- with it; what its secret has under the key that is named, else under token, else under
  -- GITHUB_TOKEN, where a secret that cannot be read counts as empty; and the one in the
  -- environment.
  pub get_github_token-first_given :
      (namespace : String) (a : Auth)
      → get_github_token access namespace (some a)
        ≡ first_given (a.token ∷ secret_token namespace a.secret_ref ∷ access.env_token ∷ [])
  unfolding get_github_token
  get_github_token-first_given namespace a = elim (Bool-cases (a.token == "")) [
    | inl missing ↦
        rw
          (
            missing,
            or_env-text_of (get_github_token_from_secret access namespace a.secret_ref),
            text_of-get_github_token_from_secret namespace a.secret_ref,
          )
          refl
    | inr given ↦ rw given refl
  ]
