-- ===== src/DeploymentService.antt =====
-- pkg/services/deployment_service.go: the resources of a server are created, updated and deleted in
-- a store of the API server, with the resource builder of ResourceBuilder. The VPA and the Istio
-- resources are not modelled.
mod Survives
mod Tests
use mcp_operator.Prelude.{
  String, ◌==◌, ◌⊎◌, inl, inr, Bool, true, false, ◌&&◌, Option, none, some, List, [], ◌∷◌,
  if◌then◌else◌, is_some, ℤ, pos, concat,
}
use mcp_operator.Api.{McpServer, Quantities}
use mcp_operator.ResourceBuilder.{Source}
use mcp_operator.ResourceBuilder.Workload.{
  IntOrStrings, BuiltDeployment, Service, Autoscaler, build_service, build_hpa, build_deployment,
}
use mcp_operator.ResourceBuilder.NetworkPolicy.{NetworkPolicy, build_network_policy}

pub data Kind : Type 0 where
  a_deployment : Kind
  a_service : Kind
  an_autoscaler : Kind
  a_network_policy : Kind

pub data Body (Q IntOrString : Type 0) : Type 0 where
  of_deployment : BuiltDeployment Q IntOrString → Body Q IntOrString
  of_service : Service → Body Q IntOrString
  of_autoscaler : Autoscaler → Body Q IntOrString
  of_network_policy : NetworkPolicy → Body Q IntOrString

-- `cluster_ip` is of services; the API server gives it and the version.
pub record Resource (Q IntOrString : Type 0) : Type 0 where
  pub kind : Kind
  pub name : String
  pub namespace : String
  pub version : ℤ
  pub cluster_ip : String
  pub body : Body Q IntOrString

-- The errors of the API server, where there are any, besides a missing object.
pub record Faults : Type 0 where
  pub own : Option String
  pub get : Option String
  pub create : Option String
  pub update : Option String
  pub delete : Kind → Option String

abbrev pub same_kind : Kind → Kind → Bool
same_kind a_deployment a_deployment = true
same_kind a_service a_service = true
same_kind an_autoscaler an_autoscaler = true
same_kind a_network_policy a_network_policy = true
same_kind _ _ = false

-- The object is that of the kind and the name.
abbrev pub is_at :
    {Q IntOrString : Type 0}
    → (kind : Kind) (name namespace : String) → Resource Q IntOrString
    → Bool
is_at kind name namespace o = same_kind o.kind kind && (o.name == name && o.namespace == namespace)

-- The error, or the object and the store that is left.
abbrev pub Result : (Q IntOrString : Type 0) → Type 0
Result Q IntOrString = String ⊎ Resource Q IntOrString × List (Resource Q IntOrString)

abbrev pub error_of : (doing err : String) → String
error_of doing err = concat (doing ∷ ": " ∷ err ∷ [])

module _ {Q IntOrString : Type 0} where
  unfoldable pub find_object :
      (kind : Kind) (name namespace : String)
      → List (Resource Q IntOrString)
      → Option (Resource Q IntOrString)
  find_object kind name namespace [] = none
  find_object kind name namespace (o ∷ os) =
      let later = find_object kind name namespace os in
      if is_at kind name namespace o then some o else later

  unfoldable pub remove_object :
      (kind : Kind) (name namespace : String)
      → List (Resource Q IntOrString)
      → List (Resource Q IntOrString)
  remove_object kind name namespace [] = []
  remove_object kind name namespace (o ∷ os) =
      let rest = remove_object kind name namespace os in
      if is_at kind name namespace o then rest else o ∷ rest

  -- The object replaces the one in its place.
  abbrev pub put_object :
      Resource Q IntOrString → List (Resource Q IntOrString) → List (Resource Q IntOrString)
  put_object o store = o ∷ remove_object o.kind o.name o.namespace store

  -- What is sent to update an existing object.
  abbrev pub updating :
      (existing : Resource Q IntOrString) → Resource Q IntOrString → Resource Q IntOrString
  updating existing o = record o { version = existing.version; cluster_ip = existing.cluster_ip }

  abbrev pub stored_or :
      (doing : String)
      → Option String
      → Resource Q IntOrString
      → List (Resource Q IntOrString)
      → Result Q IntOrString
  stored_or doing none o store = inr (o, put_object o store)
  stored_or doing (some err) o store = inl (error_of doing err)

  -- By the object that is there.
  abbrev pub create_or_update_over :
      Faults
      → (noun : String) → Resource Q IntOrString
      → List (Resource Q IntOrString)
      → Option (Resource Q IntOrString)
      → Result Q IntOrString
  create_or_update_over faults noun o store none =
      stored_or (concat ("failed to create " ∷ noun ∷ [])) faults.create o store
  create_or_update_over faults noun o store (some existing) =
      stored_or (concat ("failed to update " ∷ noun ∷ [])) faults.update (updating existing o) store

  -- The two steps before: the reference to the owner, and the read.
  abbrev pub guarded :
      (own get : Option String) → (noun : String) → Result Q IntOrString → Result Q IntOrString
  guarded (some err) get noun later = inl (error_of "failed to set controller reference" err)
  guarded none (some err) noun later =
      inl (error_of (concat ("failed to get existing " ∷ noun ∷ [])) err)
  guarded none none noun later = later

  -- The steps that the four methods share.
  unfoldable pub create_or_update :
      Faults
      → (noun : String) → Resource Q IntOrString
      → List (Resource Q IntOrString)
      → Result Q IntOrString
  unfolding find_object remove_object
  create_or_update faults noun o store =
      guarded faults.own faults.get noun
        (create_or_update_over faults noun o store (find_object o.kind o.name o.namespace store))

  abbrev pub fresh : Kind → (name namespace : String) → Body Q IntOrString → Resource Q IntOrString
  fresh kind name namespace body = record {
    kind = kind;
    name = name;
    namespace = namespace;
    version = pos 0;
    cluster_ip = "";
    body = body;
  }

  unfoldable pub create_or_update_service :
      Faults → Source Q IntOrString → List (Resource Q IntOrString) → Result Q IntOrString
  unfolding create_or_update build_service
  create_or_update_service faults b store =
      create_or_update faults "service"
        (fresh a_service b.server.name b.server.namespace (of_service (build_service b))) store

  abbrev pub built_autoscaler :
      Faults → Option Autoscaler → List (Resource Q IntOrString) → Result Q IntOrString
  built_autoscaler faults none store = inl "HPA configuration is not available"
  built_autoscaler faults (some a) store =
      create_or_update faults "HPA" (fresh an_autoscaler a.name a.namespace (of_autoscaler a)) store

  unfoldable pub create_or_update_hpa :
      Faults → Source Q IntOrString → List (Resource Q IntOrString) → Result Q IntOrString
  unfolding create_or_update build_hpa
  create_or_update_hpa faults b store = built_autoscaler faults (build_hpa b) store

  abbrev pub policy_object : NetworkPolicy → Resource Q IntOrString
  policy_object p = fresh a_network_policy p.name p.namespace (of_network_policy p)

  abbrev pub built_network_policy :
      Faults → Option NetworkPolicy → List (Resource Q IntOrString) → Result Q IntOrString
  built_network_policy faults none store = inl "NetworkPolicy configuration is not available"
  built_network_policy faults (some p) store =
      create_or_update faults "network policy" (policy_object p) store

  unfoldable pub create_or_update_network_policy :
      Faults → Source Q IntOrString → List (Resource Q IntOrString) → Result Q IntOrString
  unfolding create_or_update build_network_policy
  create_or_update_network_policy faults b store =
      built_network_policy faults (build_network_policy b) store

  -- An error is logged only.
  abbrev pub delete_object :
      Faults → Kind → McpServer Q → List (Resource Q IntOrString) → List (Resource Q IntOrString)
  delete_object faults kind s store =
      if is_some (faults.delete kind) then store else remove_object kind s.name s.namespace store

  -- The store that is left; the method returns no error in any case.
  unfoldable pub delete_resources :
      Faults → McpServer Q → List (Resource Q IntOrString) → List (Resource Q IntOrString)
  unfolding remove_object
  delete_resources faults s store = delete_object faults a_network_policy s (
      delete_object faults an_autoscaler s
        (delete_object faults a_service s (delete_object faults a_deployment s store)))

  unfoldable pub get_deployment_status :
      Faults → McpServer Q → List (Resource Q IntOrString) → String ⊎ Resource Q IntOrString
  unfolding find_object
  get_deployment_status faults s store = elim faults.get [
    | some err ↦ inl (concat ("failed to get deployment status: " ∷ err ∷ []))
    | none ↦ elim (find_object a_deployment s.name s.namespace store) [
      | none ↦ inl "failed to get deployment status: not found"
      | some o ↦ inr o
    ]
  ]

module _ {Q IntOrString : Type 0} (lib : Quantities Q) (show : ℤ → String)
    (ints : IntOrStrings IntOrString) where
  abbrev pub built_deployment_object :
      Faults
      → Option (BuiltDeployment Q IntOrString)
      → List (Resource Q IntOrString)
      → Option (Result Q IntOrString)
  built_deployment_object faults none store = none
  built_deployment_object faults (some d) store = some (
      create_or_update faults "deployment" (fresh a_deployment d.name d.namespace (of_deployment d))
        store)

  -- `none` is the nil dereference in the builder.
  unfoldable pub create_or_update_deployment :
      Faults → Source Q IntOrString → List (Resource Q IntOrString) → Option (Result Q IntOrString)
  unfolding create_or_update build_deployment
  create_or_update_deployment faults b store =
      built_deployment_object faults (build_deployment lib show ints b) store
