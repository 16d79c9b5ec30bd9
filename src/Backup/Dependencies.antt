-- ===== src/Backup/Dependencies.antt =====
-- controllers/mcpserverbackup_controller.go, `collectDependencies`, on the fields of a server's
-- specification that name other resources.
use mcp_operator.Prelude.{String, Option, none, some, List, [], ◌∷◌, ◌++◌, map}
use mcp_operator.Backup.{ResourceReference}

-- An entry of `envFrom`: the names of a ConfigMap and of a Secret.
pub record EnvFromSource : Type 0 where
  pub config_map_ref : Option String
  pub secret_ref : Option String

pub record Projection : Type 0 where
  pub config_map : Option String
  pub secret : Option String

pub record VolumeSource : Type 0 where
  pub config_map : Option String
  pub secret : Option String
  pub persistent_volume_claim : Option String
  pub projected : Option (List Projection)

pub record ServerSpec (Rest : Type 0) : Type 0 where
  -- The ConfigMap of each config source.
  pub config_sources : List (Option String)
  pub secret_refs : List String
  pub env_from : List EnvFromSource
  pub volumes : List VolumeSource
  pub rest : Rest

pub record Server (Rest : Type 0) : Type 0 where
  pub name : String
  pub namespace : String
  pub spec : ServerSpec Rest

abbrev pub reference : (api_version kind namespace name : String) → ResourceReference
reference api_version kind namespace name = record {
  api_version = api_version;
  kind = kind;
  name = name;
  namespace = namespace;
}

-- One `if x != nil { dependencies = append(dependencies, ...) }`.
abbrev pub if_given : (kind namespace : String) → Option String → List ResourceReference
if_given kind namespace none = []
if_given kind namespace (some name) = reference "v1" kind namespace name ∷ []

abbrev pub flat_map {ℓ κ} : {A : Type ℓ} {B : Type κ} → (A → List B) → List A → List B
flat_map f [] = []
flat_map f (x ∷ xs) = f x ++ flat_map f xs

abbrev pub of_env : String → EnvFromSource → List ResourceReference
of_env namespace e =
    if_given "ConfigMap" namespace e.config_map_ref ++ if_given "Secret" namespace e.secret_ref

abbrev pub of_projection : String → Projection → List ResourceReference
of_projection namespace p =
    if_given "ConfigMap" namespace p.config_map ++ if_given "Secret" namespace p.secret

abbrev pub of_projected : String → Option (List Projection) → List ResourceReference
of_projected namespace none = []
of_projected namespace (some sources) = flat_map (of_projection namespace) sources

abbrev pub of_volume : String → VolumeSource → List ResourceReference
of_volume namespace v =
    if_given "ConfigMap" namespace v.config_map
    ++ (if_given "Secret" namespace v.secret
        ++ (if_given "PersistentVolumeClaim" namespace v.persistent_volume_claim
            ++ of_projected namespace v.projected))

unfoldable pub collect_dependencies : {Rest : Type 0} → Server Rest → List ResourceReference
collect_dependencies s =
    flat_map (if_given "ConfigMap" s.namespace) s.spec.config_sources
    ++ (map (reference "v1" "Secret" s.namespace) s.spec.secret_refs
        ++ (flat_map (of_env s.namespace) s.spec.env_from
            ++ (flat_map (of_volume s.namespace) s.spec.volumes
                ++ reference "v1" "Service" s.namespace s.name
                  ∷ reference "apps/v1" "Deployment" s.namespace s.name
                  ∷ [])))
