-- ===== src/Validation/Registry.antt =====
-- pkg/services/validation_service.go: `ValidateRegistry` and its rules.
use mcp_operator.Prelude.{
  String, ◌==◌, eq_iff, ◌≡◌, refl, ◌≢◌, ◌↔◌, ◌⊎◌, inl, inr, Bool, true, false, ◌&&◌, not, Option,
  none, some, List, [], ◌∷◌, arith, is_some, contains, concat,
}
use mcp_operator.Api.{RegistryAuth, McpRegistry}
use mcp_operator.Validation.{fail_if, ◌>>>◌, wrapped, not_positive}
use mcp_operator.Validation.Rules.{Positive, then_none, wrapped-none, count_above_zero}

abbrev secret_name : Option String → String
secret_name none = ""
secret_name (some name) = name

unfoldable pub validate_registry_auth : RegistryAuth → Option String
validate_registry_auth a =
    fail_if (not (is_some a.secret_ref) && a.token == "")
      "either secretRef or token must be provided for authentication"
    >>> fail_if (is_some a.secret_ref && not (a.token == ""))
        "cannot specify both secretRef and token for authentication"
    >>> fail_if (is_some a.secret_ref && secret_name a.secret_ref == "")
        "secret name is required in secretRef"

unfoldable pub validate_given_auth : Option RegistryAuth → Option String
unfolding validate_registry_auth
validate_given_auth none = none
validate_given_auth (some a) = validate_registry_auth a

abbrev pub registry_types : List String
registry_types = "github" ∷ "local" ∷ "http" ∷ "https" ∷ []

-- `parse_url` is `url.Parse`, with its error.
unfoldable pub check_registry : (parse_url : String → Option String) → McpRegistry → Option String
unfolding validate_given_auth
check_registry parse_url r =
    fail_if (r.spec.url == "") "registry URL is required"
    >>> wrapped "invalid registry URL: " (parse_url r.spec.url)
    >>> fail_if (not (r.spec.kind == "") && not (contains registry_types r.spec.kind)) (
        concat (
          "invalid registry type: " ∷ r.spec.kind ∷ ", must be one of: github, local, http, https"
          ∷ []))
    >>> wrapped "authentication validation failed: " (validate_given_auth r.spec.auth)
    >>> fail_if (not_positive r.spec.sync_interval) "sync interval must be positive"

-- Exactly one of a secret with a name and a token.
unfoldable pub AuthRule : Option RegistryAuth → Type 0
AuthRule none = Unit
AuthRule (some a) = elim a.secret_ref [
  | none ↦ a.token ≢ ""
  | some name ↦ (name ≢ "") × (a.token ≡ "")
]

auth_parts :
    (secret : Option String) (token x y z : String)
    → fail_if (not (is_some secret) && token == "") x
          >>> fail_if (is_some secret && not (token == "")) y
          >>> fail_if (is_some secret && secret_name secret == "") z
        ≡ none
      ↔ elim secret [ none ↦ token ≢ "" | some name ↦ (name ≢ "") × (token ≡ "") ]
auth_parts none token x y z = ground (arith, eq_iff token "")
auth_parts (some name) token x y z = ground (arith, eq_iff token "", eq_iff name "")

auth_rule : (a : Option RegistryAuth) → validate_given_auth a ≡ none ↔ AuthRule a
unfolding validate_given_auth validate_registry_auth AuthRule
auth_rule none = (λ h. tt, λ h. refl)
auth_rule (some a) = auth_parts a.secret_ref a.token _ _ _

optional :
    {A : Type 0} (empty known : Bool) (m : String)
    → (empty ≡ true ↔ A)
    → (fail_if (not empty && not known) m ≡ none ↔ A ⊎ (known ≡ true))
optional true known m f = (λ h. inl (f.0 refl), λ h. refl)
optional false true m f = (λ h. inr refl, λ h. refl)
optional false false m f = (λ h. absurd (ground arith), λ h. absurd (ground (arith, f.1)))

unfoldable pub ValidRegistry : (parse_url : String → Option String) → McpRegistry → Type 0
unfolding AuthRule Positive
ValidRegistry parse_url r =
    (r.spec.url ≢ "")
    × ((parse_url r.spec.url ≡ none)
        × (((r.spec.kind ≡ "") ⊎ (contains registry_types r.spec.kind ≡ true))
            × (AuthRule r.spec.auth × Positive r.spec.sync_interval)))

not_blank : (s m : String) → fail_if (s == "") m ≡ none ↔ s ≢ ""
not_blank s m = ground (arith, eq_iff s "")

no_error : (x : Option String) → x ≡ none ↔ x ≡ none
no_error x = (λ h. h, λ h. h)

-- A registry is accepted exactly if its URL is given and parses, its type is left out or known, its
-- authentication, if any, has exactly one of a named secret and a token, and its interval, if any,
-- is positive.
pub check_registry_iff :
    (parse_url : String → Option String) (r : McpRegistry)
    → check_registry parse_url r ≡ none ↔ ValidRegistry parse_url r
unfolding check_registry ValidRegistry
check_registry_iff parse_url r = then_none _ _ (not_blank r.spec.url _) (
    then_none _ _ (wrapped-none _ _ (no_error (parse_url r.spec.url))) (
      then_none _ _
        (optional (r.spec.kind == "") (contains registry_types r.spec.kind) _
          (eq_iff r.spec.kind ""))
        (then_none _ _ (wrapped-none _ _ (auth_rule r.spec.auth))
          (count_above_zero r.spec.sync_interval _))))
