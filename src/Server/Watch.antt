-- ===== src/Server/Watch.antt =====
-- controllers/mcpserver_controller.go, `findMCPServersForConfigMap`: the servers that a ConfigMap
-- of a registry wakes.
use mcp_operator.Prelude.{
  String, ◌==◌, ◌⊎◌, inl, inr, Bool, false, ◌&&◌, Option, none, some, List, [], ◌∷◌, if◌then◌else◌,
  Dict, lookup,
}
use mcp_operator.Api.{RegistryRef, McpServer}
use mcp_operator.RegistryService.{cached_config_map_name}
use mcp_operator.Server.{name_in, server_in}

pub record ConfigMapMeta : Type 0 where
  pub name : String
  pub namespace : String
  pub labels : Option (Dict String)

abbrev pub resolved : (name : String) → Option RegistryRef → Option (String × String)
resolved name none = none
resolved name (some r) = some (name_in r, server_in name r)

abbrev pub is_pair : (registry server : String) → Option (String × String) → Bool
is_pair registry server none = false
is_pair registry server (some p) = p.0 == registry && p.1 == server

module _ {Q : Type 0} where
  -- The loop over the servers of the namespace.
  unfoldable pub using : (registry server : String) → List (McpServer Q) → List (McpServer Q)
  using registry server [] = []
  using registry server (s ∷ ss) =
      let rest = using registry server ss in
      if is_pair registry server (resolved s.name s.spec.registry) then s ∷ rest else rest

  -- The labels are there; the name has to fit them.
  abbrev pub using_named :
      (name registry server : String) → String ⊎ List (McpServer Q) → List (McpServer Q)
  using_named name registry server (inl err) = []
  using_named name registry server (inr servers) =
      if name == cached_config_map_name registry server then using registry server servers else []

  abbrev pub using_labels :
      (name : String)
      → (registry server : Option String) → String ⊎ List (McpServer Q)
      → List (McpServer Q)
  using_labels name none server listed = []
  using_labels name (some registry) none listed = []
  using_labels name (some registry) (some server) listed = using_named name registry server listed

  -- The servers whose requests are returned; `list` gives those of a namespace.
  unfoldable pub find_mcp_servers_for_config_map :
      (list : String → String ⊎ List (McpServer Q)) → ConfigMapMeta → List (McpServer Q)
  unfolding using
  find_mcp_servers_for_config_map list c = elim c.labels [
    | none ↦ []
    | some labels ↦
        using_labels c.name (lookup "mcp.allbeone.io/registry" labels)
          (lookup "mcp.allbeone.io/server" labels) (list c.namespace)
  ]
