-- ===== src/RegistryService/Token.antt =====
-- pkg/services/registry_service.go: the token for GitHub, and the methods on registries, which list
-- the servers with it. The client of a registry is known by its answers to a token; the empty token
-- stands for the client without one.
use mcp_operator.Prelude.{
  ℕ, String, ◌==◌, ◌⊎◌, inl, inr, Bool, Option, none, some, List, [], ◌∷◌, map, if◌then◌else◌,
  length, concat, Dict, lookup,
}
use mcp_operator.RegistryService.{Read, found, absent, broken}

pub record SecretReference : Type 0 where
  pub name : String
  pub key : String
  pub optional : Bool

-- `RegistryAuth`, with the whole reference.
pub record Auth : Type 0 where
  pub secret_ref : Option SecretReference
  pub token : String

-- `registry.MCPServerInfo`, what a listing says of a server.
pub record ServerInfo : Type 0 where
  pub name : String
  pub path : String

-- `RegistryServer`, what the status says of it.
pub record RegistryServer : Type 0 where
  pub name : String
  pub description : String
  pub path : String

pub record DiscoveryStatus : Type 0 where
  pub servers_discovered : ℕ
  pub servers : List RegistryServer

pub record Access : Type 0 where
  -- The data of a secret.
  pub secret : (name namespace : String) → Read (Dict String)
  -- `os.Getenv("GITHUB_TOKEN")`.
  pub env_token : String
  pub list_servers : (token : String) → String ⊎ List ServerInfo

-- The error leaves out the keys that were tried.
abbrev pub not_in_secret : (namespace : String) → SecretReference → String ⊎ String
not_in_secret namespace r =
    if r.optional
    then inr ""
    else inl (concat ("GitHub token not found in secret " ∷ namespace ∷ "/" ∷ r.name ∷ []))

-- The loop over the two supported keys.
abbrev pub under_supported :
    (token_key github_key : Option String) → (otherwise : String ⊎ String) → String ⊎ String
under_supported (some token) github_key otherwise = inr token
under_supported none (some token) otherwise = inr token
under_supported none none otherwise = otherwise

abbrev pub under_key : (given : Option String) → (otherwise : String ⊎ String) → String ⊎ String
under_key (some token) otherwise = inr token
under_key none otherwise = otherwise

-- The secret is there.
unfoldable pub read_secret : (namespace : String) → SecretReference → Dict String → String ⊎ String
read_secret namespace r content =
    let supported =
      under_supported (lookup "token" content) (lookup "GITHUB_TOKEN" content)
        (not_in_secret namespace r) in
    if r.key == "" then supported else under_key (lookup r.key content) supported

abbrev pub failed_get : (namespace : String) → SecretReference → String → String
failed_get namespace r err =
    concat ("failed to get secret " ∷ namespace ∷ "/" ∷ r.name ∷ ": " ∷ err ∷ [])

-- By the answer to the read of the secret.
unfoldable pub of_secret :
    (namespace : String) → SecretReference → Read (Dict String) → String ⊎ String
unfolding read_secret
of_secret namespace r absent =
    if r.optional then inr "" else inl (failed_get namespace r "not found")
of_secret namespace r (broken err) = inl (failed_get namespace r err)
of_secret namespace r (found content) = read_secret namespace r content

module _ (access : Access) where
  unfoldable pub get_github_token_from_secret :
      (namespace : String) → Option SecretReference → String ⊎ String
  unfolding of_secret
  get_github_token_from_secret namespace none = inr ""
  get_github_token_from_secret namespace (some r) =
      of_secret namespace r (access.secret r.name namespace)

  -- An error is logged only.
  abbrev pub or_env : String ⊎ String → String
  or_env (inl err) = access.env_token
  or_env (inr token) = if token == "" then access.env_token else token

  unfoldable pub get_github_token : (namespace : String) → Option Auth → String
  unfolding get_github_token_from_secret
  get_github_token namespace none = access.env_token
  get_github_token namespace (some a) =
      if a.token == ""
      then or_env (get_github_token_from_secret namespace a.secret_ref)
      else a.token

  unfoldable pub list_available_servers_with_client : (token : String) → String ⊎ List ServerInfo
  list_available_servers_with_client token = elim (access.list_servers token) [
    | inl err ↦ inl (concat ("failed to list servers: " ∷ err ∷ []))
    | inr servers ↦ inr servers
  ]

  abbrev pub listed_server : ServerInfo → RegistryServer
  listed_server s = record {
    name = s.name;
    description = concat ("Server from " ∷ s.path ∷ []);
    path = s.path;
  }

  abbrev pub sync_listed : String ⊎ List ServerInfo → String ⊎ DiscoveryStatus
  sync_listed (inl err) = inl (concat ("failed to list available servers: " ∷ err ∷ []))
  sync_listed (inr servers) =
      inr (record { servers_discovered = length servers; servers = map listed_server servers })

  -- The fields of the status that are written, or the error.
  unfoldable pub sync_registry : (namespace : String) → Option Auth → String ⊎ DiscoveryStatus
  unfolding get_github_token list_available_servers_with_client
  sync_registry namespace auth =
      sync_listed (list_available_servers_with_client (get_github_token namespace auth))

  unfoldable pub validate_registry_connection : (namespace : String) → Option Auth → Option String
  unfolding get_github_token
  validate_registry_connection namespace auth =
      elim (access.list_servers (get_github_token namespace auth)) [
        | inl err ↦ some (concat ("registry connection validation failed: " ∷ err ∷ []))
        | inr servers ↦ none
      ]
