-- ===== src/Server/Watched.antt =====
-- controllers/mcpserver_controller.go: who is woken by a ConfigMap, and the enrichment of
-- pkg/services/registry_service.go.
use mcp_operator.Prelude.{
  String, ◌==◌, eq_iff, ◌≡◌, refl, sym, subst, ◌≢◌, ◌⊎◌, inl, inr, true, false, Option, none, some,
  List, [], ◌∷◌, ◌++◌, arith, if◌then◌else◌, Bool-cases, All, Dict, lookup,
}
use mcp_operator.Api.{RegistryRef, McpServer}
use mcp_operator.RegistryService.{
  enrich, found, Registry, cached_config_map_name, read_cache, enrich_from_cache,
}
use mcp_operator.Server.{name_in, server_in}
use mcp_operator.Server.Watch.{
  ConfigMapMeta, resolved, is_pair, using, using_named, using_labels,
  find_mcp_servers_for_config_map,
}

-- The ConfigMap is named after the two names of the reference.
abbrev pub Reads : (name config_map : String) → Option RegistryRef → Type 0
Reads name config_map none = ⊥
Reads name config_map (some r) = config_map ≡ cached_config_map_name (name_in r) (server_in name r)

-- The names of a reference that is resolved, where the enrichment takes them.
same_server :
    (name : String) (r : RegistryRef)
    → (if r.server_name == "" then name else r.server_name) ≡ server_in name r
same_server name r = ground arith

is_pair-Reads :
    (name registry server : String) (r : Option RegistryRef)
    → is_pair registry server (resolved name r) ≡ true
    → Reads name (cached_config_map_name registry server) r
is_pair-Reads name registry server none h = cc
is_pair-Reads name registry server (some r) h =
    let same_registry : name_in r ≡ registry = ground (arith, eq_iff (name_in r) registry) in
    let same_server : server_in name r ≡ server =
      ground (arith, eq_iff (server_in name r) server) in
    rw (same_registry, same_server) refl

module _ {Q : Type 0} where
  abbrev pub ReadsMap : (config_map : String) → McpServer Q → Type 0
  ReadsMap config_map s = Reads s.name config_map s.spec.registry

  using-ReadsMap :
      (registry server : String) (ss : List (McpServer Q))
      → All (ReadsMap (cached_config_map_name registry server)) (using registry server ss)
  unfolding using
  using-ReadsMap registry server [] = tt
  using-ReadsMap registry server (s ∷ ss) =
      elim (Bool-cases (is_pair registry server (resolved s.name s.spec.registry))) [
        | inl fits ↦ rw fits (
          is_pair-Reads s.name registry server s.spec.registry fits,
          using-ReadsMap registry server ss,
        )
        | inr other ↦ rw other (using-ReadsMap registry server ss)
      ]

  using_named-ReadsMap :
      (name registry server : String) (listed : String ⊎ List (McpServer Q))
      → All (ReadsMap name) (using_named name registry server listed)
  using_named-ReadsMap name registry server (inl err) = tt
  using_named-ReadsMap name registry server (inr servers) =
      elim (Bool-cases (name == cached_config_map_name registry server)) [
        | inl same ↦ rw same (
            subst (λ n. All (ReadsMap n) (using registry server servers))
              (sym ((eq_iff name (cached_config_map_name registry server)).0 same))
              (using-ReadsMap registry server servers))
        | inr other ↦ rw other tt
      ]

  using_labels-ReadsMap :
      (name : String) (registry server : Option String) (listed : String ⊎ List (McpServer Q))
      → All (ReadsMap name) (using_labels name registry server listed)
  using_labels-ReadsMap name none server listed = tt
  using_labels-ReadsMap name (some registry) none listed = tt
  using_labels-ReadsMap name (some registry) (some server) listed =
      using_named-ReadsMap name registry server listed

  labels-ReadsMap :
      (name : String) (labels : Option (Dict String)) (listed : String ⊎ List (McpServer Q))
      → All (ReadsMap name) (elim labels as (λ _. List (McpServer Q)) [
        | none ↦ []
        | some labels ↦
            using_labels name
              (lookup "mcp.allbeone.io/registry" labels)
              (lookup "mcp.allbeone.io/server" labels)
              listed
      ])
  labels-ReadsMap name none listed = tt
  labels-ReadsMap name (some labels) listed =
      using_labels-ReadsMap name (lookup "mcp.allbeone.io/registry" labels)
        (lookup "mcp.allbeone.io/server" labels) listed

  find_mcp_servers_for_config_map-ReadsMap :
      (list : String → String ⊎ List (McpServer Q)) (c : ConfigMapMeta)
      → All (ReadsMap c.name) (find_mcp_servers_for_config_map list c)
  unfolding find_mcp_servers_for_config_map
  find_mcp_servers_for_config_map-ReadsMap list c =
      labels-ReadsMap c.name c.labels (list c.namespace)

  All-middle :
      (P : McpServer Q → Type 0) (xs ys : List (McpServer Q)) (s : McpServer Q)
      → All P (xs ++ s ∷ ys)
      → P s
  All-middle P [] ys s h = h.0
  All-middle P (x ∷ xs) ys s h = All-middle P xs ys s h.1

  enrich_found :
      (registry : Registry) (r : RegistryRef) (name namespace : String) (s : McpServer Q)
      (content : Dict String) (text : String)
      → name ≡ cached_config_map_name (name_in r) (server_in s.name r)
      → (name_in r == "") ≡ false
      → (namespace == "") ≡ false
      → registry.config_map name namespace ≡ found content
      → lookup "server.yaml" content ≡ some text
      → enrich_from_cache registry (record r { name = name_in r }) namespace s
        ≡ elim (registry.parse text) as (λ _. String ⊎ McpServer Q) [
          | inl err ↦ inl err
          | inr t ↦ inr (enrich t s)
        ]
  unfolding enrich_from_cache read_cache
  enrich_found registry r name namespace s content text same named spaced there held =
      rw
        (
          named,
          spaced,
          same_server s.name r,
          subst (λ n. registry.config_map n namespace ≡ found content) same there,
          held,
        )
        refl

  -- A server that a ConfigMap wakes is enriched from that very ConfigMap: where the reference of
  -- the server, with the name from the old field if the new one is empty, has a name that is not
  -- empty, the ConfigMap's namespace is not empty and the API server holds the ConfigMap with a
  -- text under server.yaml, the enrichment of the server in that namespace ends with the error of
  -- the parser, or with the server enriched by the template that the parser reads in the text.
  pub enrich_from_cache-find_mcp_servers_for_config_map :
      (registry : Registry) (list : String → String ⊎ List (McpServer Q)) (c : ConfigMapMeta)
      (before after : List (McpServer Q)) (s : McpServer Q) (r : RegistryRef)
      (content : Dict String) (text : String)
      → find_mcp_servers_for_config_map list c ≡ before ++ s ∷ after
      → s.spec.registry ≡ some r
      → name_in r ≢ ""
      → c.namespace ≢ ""
      → registry.config_map c.name c.namespace ≡ found content
      → lookup "server.yaml" content ≡ some text
      → enrich_from_cache registry (record r { name = name_in r }) c.namespace s
        ≡ elim (registry.parse text) as (λ _. String ⊎ McpServer Q) [
          | inl err ↦ inl err
          | inr t ↦ inr (enrich t s)
        ]
  enrich_from_cache-find_mcp_servers_for_config_map registry list c before after s r content text
        woken referred named spaced there held =
      let reads_each =
        subst (All (ReadsMap c.name)) woken (find_mcp_servers_for_config_map-ReadsMap list c) in
      let reads = All-middle (ReadsMap c.name) before after s reads_each in
      enrich_found registry r c.name c.namespace s content text
        (subst (Reads s.name c.name) referred reads) (ground (arith, eq_iff (name_in r) ""))
        (ground (arith, eq_iff c.namespace "")) there held
