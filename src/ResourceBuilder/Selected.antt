-- ===== src/ResourceBuilder/Selected.antt =====
-- pkg/services/resource_builder_service.go: which labels the resources have, and that the selectors
-- match them.
use mathlib.Core.Option
use mcp_operator.Prelude.{
  String, ◌==◌, eq_iff, ◌≡◌, refl, sym, ap, ◌∙◌, subst, ◌↔◌, inl, inr, Bool, true, false, Option,
  none, some, [], ◌∷◌, if◌then◌else◌, Bool-cases, ℤ, Dict, lookup, insert, lookup-insert,
}
use mcp_operator.Api.{RegistryRef, TenancySpec, McpServer, Quantities}
use mcp_operator.ResourceBuilder.{
  Selector, Source, is_system_label, add_custom, add_all, or_else, add_server_name, add_tenant,
  standard_labels, system_labels, build_labels, build_selector,
}
use mcp_operator.ResourceBuilder.Container.{build_container}
use mcp_operator.ResourceBuilder.Workload.{
  IntOrStrings, BuiltDeployment, build_service, template_with, deployment_with, build_pod_template,
  build_deployment,
}
use mcp_operator.AutoUpdate.Template.{read}

abbrev pub first_of : {A : Type 0} → Option A → Option A → Option A
first_of none other = other
first_of (some a) other = some a

pub lookup-add_all :
    (key : String) (m labels : Dict String)
    → lookup key (add_all m labels) ≡ first_of (lookup key m) (lookup key labels)
unfolding add_all lookup
lookup-add_all key [] labels = refl
lookup-add_all key ((k, v) ∷ rest) labels =
    lookup-insert k key v (add_all rest labels) ∙ elim (Bool-cases (k == key)) [
      | inl same ↦ rw same refl
      | inr other ↦ rw other (lookup-add_all key rest labels)
    ]

-- A label of the system is not touched by those of the server.
pub lookup-add_custom :
    (key : String) (m labels : Dict String)
    → is_system_label key ≡ true
    → lookup key (add_custom m labels) ≡ lookup key labels
unfolding add_custom
lookup-add_custom key [] labels h = refl
lookup-add_custom key ((k, v) ∷ rest) labels h = elim (Bool-cases (is_system_label k)) [
  | inl skipped ↦ rw skipped (lookup-add_custom key rest labels h)
  | inr added ↦ rw added (
      lookup-insert k key v (add_custom rest labels) ∙ elim (Bool-cases (k == key)) [
        | inl same ↦ cc (sym h ∙ ap is_system_label (sym ((eq_iff k key).0 same)) ∙ added)
        | inr other ↦ rw other (lookup-add_custom key rest labels h)
      ])
]

lookup-other :
    (key k v : String) (skip : Bool) (labels : Dict String)
    → (k == key) ≡ false
    → lookup key (if skip then labels else insert k v labels) ≡ lookup key labels
lookup-other key k v true labels h = refl
lookup-other key k v false labels h = rw (lookup-insert k key v labels, h) refl

module _ (key : String) (not_name : ("mcp.allbeone.io/server-name" == key) ≡ false)
    (not_version : ("mcp.allbeone.io/server-version" == key) ≡ false)
    (not_tenant : ("mcp.allbeone.io/tenant-id" == key) ≡ false) where
  lookup-add_server_name :
      (name : String) (r : Option RegistryRef) (labels : Dict String)
      → lookup key (add_server_name name r labels) ≡ lookup key labels
  lookup-add_server_name name none labels = refl
  lookup-add_server_name name (some r) labels =
      lookup-other key "mcp.allbeone.io/server-name" (or_else r.server_name name)
        (or_else r.server_name name == "") labels not_name

  lookup-add_tenant :
      {Q : Type 0} (t : Option (TenancySpec Q)) (labels : Dict String)
      → lookup key (add_tenant t labels) ≡ lookup key labels
  lookup-add_tenant none labels = refl
  lookup-add_tenant (some t) labels =
      lookup-other key "mcp.allbeone.io/tenant-id" t.tenant_id (t.tenant_id == "") labels not_tenant

  pub lookup-system_labels :
      {Q : Type 0} (s : McpServer Q)
      → lookup key (system_labels s) ≡ lookup key (standard_labels s.name)
  unfolding system_labels
  lookup-system_labels s =
      let version = read "mcp.allbeone.io/registry-version" s.annotations in
      lookup-add_tenant s.spec.tenancy _
      ∙ (lookup-other key "mcp.allbeone.io/server-version" version (version == "") _ not_version
          ∙ lookup-add_server_name s.name s.spec.registry (standard_labels s.name))

  pub lookup-build_labels :
      {Q IntOrString : Type 0} (b : Source Q IntOrString)
      → is_system_label key ≡ true
      → lookup key (build_labels b) ≡ lookup key (standard_labels b.server.name)
  unfolding build_labels
  lookup-build_labels b h =
      lookup-add_custom key b.labels (system_labels b.server) h ∙ lookup-system_labels b.server

-- The pods with the labels are selected.
abbrev pub Selects : Selector → (labels : Dict String) → Type 0
Selects s labels = (key value : String) → lookup key s ≡ some value → lookup key labels ≡ some value

none-Selects : (labels : Dict String) → Selects [] labels
unfolding lookup
none-Selects labels key value h = cc

entry-Selects :
    (k v : String) (rest labels : Dict String)
    → lookup k labels ≡ some v
    → Selects rest labels
    → Selects ((k, v) ∷ rest) labels
unfolding lookup
entry-Selects k v rest labels here later key value h = elim (Bool-cases (k == key)) [
  | inl same ↦
      let chosen : lookup key ((k, v) ∷ rest) ≡ some v = rw same refl in
      subst (λ k. lookup k labels ≡ some value) ((eq_iff k key).0 same) (here ∙ (sym chosen ∙ h))
  | inr other ↦
      let skipped : lookup key ((k, v) ∷ rest) ≡ lookup key rest = rw other refl in
      later key value (sym skipped ∙ h)
]

first-Selects :
    (m old labels : Dict String) (key value : String) (chosen : Option String)
    → lookup key m ≡ chosen
    → Selects m labels
    → Selects old labels
    → first_of chosen (lookup key old) ≡ some value
    → lookup key labels ≡ some value
first-Selects m old labels key value none e given standard h = standard key value h
first-Selects m old labels key value (some v) e given standard h = given key value (e ∙ h)

-- The entries of a selector that are added come before the old ones.
added-Selects :
    (m old labels : Dict String)
    → Selects old labels
    → (Selects (add_all m old) labels ↔ Selects m labels)
added-Selects m old labels h = (
  λ every key value e.
      every key value (lookup-add_all key m old ∙ ap (λ o. first_of o (lookup key old)) e),
  λ given key value e.
      first-Selects m old labels key value (lookup key m) refl given h
        (sym (lookup-add_all key m old) ∙ e),
)

module _ {Q IntOrString : Type 0} where
  standard-Selects :
      (b : Source Q IntOrString)
      → Selects
          (("app.kubernetes.io/name", "mcp-server")
            ∷ ("app.kubernetes.io/instance", b.server.name)
            ∷ [])
          (build_labels b)
  unfolding lookup
  standard-Selects b =
      entry-Selects "app.kubernetes.io/name" "mcp-server"
        (("app.kubernetes.io/instance", b.server.name) ∷ []) (build_labels b)
        (lookup-build_labels "app.kubernetes.io/name" refl refl refl b refl)
        (entry-Selects "app.kubernetes.io/instance" b.server.name [] (build_labels b)
          (lookup-build_labels "app.kubernetes.io/instance" refl refl refl b refl)
          (none-Selects (build_labels b)))

  -- The selector of the server decides.
  pub build_selector-Selects :
      (b : Source Q IntOrString)
      → (Selects (build_selector b) (build_labels b) ↔ Selects b.selector (build_labels b))
  unfolding build_selector
  build_selector-Selects b = added-Selects b.selector _ (build_labels b) (standard-Selects b)

pub map_found :
    {A B : Type 0} (f : A → B) (o : Option A) (found : B)
    → Option.map f o ≡ some found
    → (a : A) × (o ≡ some a) × (f a ≡ found)
map_found f none found h = cc
map_found f (some a) found h = (a, refl, Option.some-injective (f a) found h)

module _ {Q IntOrString : Type 0} (lib : Quantities Q) (show : ℤ → String)
    (ints : IntOrStrings IntOrString) (b : Source Q IntOrString) (d : BuiltDeployment Q IntOrString)
    (built : build_deployment lib show ints b ≡ some d) where
  -- The parts of the deployment that is built.
  pub built_deployment :
      (d.selector ≡ build_selector b)
      × (d.template.labels ≡ build_labels b)
      × (build_container lib show b ≡ some d.template.container)
  unfolding build_deployment build_pod_template deployment_with
  built_deployment =
      let (template, made, whole) =
        map_found (deployment_with ints b) (build_pod_template lib show b (build_labels b)) d
          built in
      let (c, there, filled) =
        map_found (template_with b (build_labels b)) (build_container lib show b) template made in
      (
        ap (λ d. d.selector) (sym whole),
        ap (λ d. d.template.labels) (sym whole) ∙ ap (λ t. t.labels) (sym filled),
        there ∙ ap some (ap (λ t. t.container) filled ∙ ap (λ d. d.template.container) whole),
      )

  -- The selectors of the deployment and of the service are the same, and they select the pods of
  -- the deployment exactly if the selector given with the server does, if there is one.
  pub Selects-build_deployment :
      (d.selector ≡ (build_service b).selector)
      × (Selects d.selector d.template.labels ↔ Selects b.selector d.template.labels)
  unfolding build_service
  Selects-build_deployment =
      let (selector, labels, container) = built_deployment in
      (selector, rw (selector, labels) (build_selector-Selects b))
