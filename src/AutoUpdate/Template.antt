-- ===== src/AutoUpdate/Template.antt =====
-- pkg/services/auto_update_service.go: comparing a server with its template, and rewriting it.
-- An annotation map that is nil and one that is empty read the same.
use mcp_operator.Prelude.{
  String, ◌==◌, ◌⊎◌, inl, inr, Bool, true, false, ◌&&◌, not, Option, none, some, List, [], ◌∷◌,
  if◌then◌else◌, concat, Dict, lookup, insert,
}
use mcp_operator.Api.{RegistryRef, RuntimeSpec, McpServerSpec, McpServer}

-- `registry.McpServerSpec`, the fields that the service reads.
pub record Template : Type 0 where
  pub version : String
  pub description : String
  pub repository : String
  pub license : String
  pub author : String
  pub template_digest : String
  pub kind : String
  pub image : String
  pub command : List String
  pub args : List String
  pub env : Dict String

-- What a method that may panic or fail comes back with.
pub data Outcome (A : Type 0) : Type 0 where
  panicked : Outcome A
  failed : String → Outcome A
  returned : A → Outcome A

abbrev pub same_strings : List String → List String → Bool
same_strings [] [] = true
same_strings [] (y ∷ ys) = false
same_strings (x ∷ xs) [] = false
same_strings (x ∷ xs) (y ∷ ys) = if x == y then same_strings xs ys else false

abbrev pub are_runtime_specs_equal : RuntimeSpec → Template → Bool
are_runtime_specs_equal current latest =
    if not (current.kind == latest.kind)
    then false
    else if not (same_strings current.command latest.command)
    then false
    else same_strings current.args latest.args

-- `m[k]` of a map of strings.
abbrev pub read : String → Dict String → String
read k m = elim (lookup k m) [ none ↦ "" | some v ↦ v ]

abbrev template_digest_key : String
template_digest_key = "mcp.allbeone.io/template-digest"

abbrev version_key : String
version_key = "mcp.allbeone.io/registry-version"

-- The tests of `IsUpdateRequired` on a server whose runtime is there.
unfoldable pub differs : Dict String → RuntimeSpec → Template → Bool
differs annotations runtime latest =
    let digest = read template_digest_key annotations in
    if not (digest == "")
      && not (latest.template_digest == "")
      && not (digest == latest.template_digest)
    then true
    else if not (read version_key annotations == latest.version)
    then true
    else if not (runtime.image == latest.image)
    then true
    else not (are_runtime_specs_equal runtime latest)

-- The tests in front of the first read of the runtime.
unfoldable pub differs_early : Dict String → Template → Bool
differs_early annotations latest =
    let digest = read template_digest_key annotations in
    if not (digest == "")
      && not (latest.template_digest == "")
      && not (digest == latest.template_digest)
    then true
    else not (read version_key annotations == latest.version)

abbrev pub registry_name : RegistryRef → String
registry_name r = if r.name == "" && not (r.registry == "") then r.registry else r.name

abbrev pub merge_env : Dict String → Dict String → Dict String
merge_env env [] = env
merge_env env ((k, v) ∷ latest) = merge_env (insert k v env) latest

unfoldable pub template_annotations : Template → Dict String → Dict String
template_annotations t a =
    let b = insert version_key t.version a in
    let c = insert "mcp.allbeone.io/registry-description" t.description b in
    let d = insert "mcp.allbeone.io/registry-repository" t.repository c in
    let e = insert "mcp.allbeone.io/registry-license" t.license d in
    let f = insert "mcp.allbeone.io/registry-author" t.author e in
    if t.template_digest == "" then f else insert template_digest_key t.template_digest f

abbrev pub template_runtime : Template → RuntimeSpec → RuntimeSpec
template_runtime t r = record r {
  kind = t.kind;
  image = t.image;
  command = t.command;
  args = t.args;
  env = merge_env r.env t.env;
}

-- `IsUpdateRequired` after the template has been fetched.
unfoldable pub compare_with :
    Dict String → Template → Option RuntimeSpec → Outcome (Bool × Option Template)
unfolding differs differs_early
compare_with annotations latest none =
    if differs_early annotations latest then returned (true, some latest) else panicked
compare_with annotations latest (some runtime) =
    returned (differs annotations runtime latest, some latest)

abbrev pub given_or : String → String → String
given_or default s = if s == "" then default else s

unfoldable pub answer :
    (Template → Outcome (Bool × Option Template))
    → String ⊎ Template
    → Outcome (Bool × Option Template)
answer compared (inl err) =
    failed (concat ("failed to fetch latest server specification: " ∷ err ∷ []))
answer compared (inr latest) = compared latest

-- `IsUpdateRequired` up to the fetch: the name of the server and its reference to a registry.
unfoldable pub ask :
    (String → String → String ⊎ Template)
    → (Template → Outcome (Bool × Option Template))
    → String
    → Option RegistryRef
    → Outcome (Bool × Option Template)
unfolding answer
ask fetch compared name none = panicked
ask fetch compared name (some r) =
    if r.name == "" && r.registry == ""
    then returned (false, none)
    else answer compared (fetch (registry_name r) (given_or name r.server_name))

module _ {Q : Type 0} where
  unfoldable pub compare : McpServer Q → Template → Outcome (Bool × Option Template)
  unfolding compare_with
  compare s latest = compare_with s.annotations latest s.spec.runtime

  -- `fetch` is the registry service: registry and server name to a template or an error.
  unfoldable pub is_update_required :
      (fetch : String → String → String ⊎ Template) → McpServer Q → Outcome (Bool × Option Template)
  unfolding ask
  is_update_required fetch s = ask fetch (compare s) s.name s.spec.registry

  unfoldable pub applied : Template → RuntimeSpec → McpServer Q → McpServer Q
  unfolding template_annotations
  applied t r s = record s {
    annotations = template_annotations t s.annotations;
    spec = record sp { runtime = some (template_runtime t r) };
  }
    where
      sp : McpServerSpec Q
      sp = s.spec

  unfoldable pub apply_template_updates : McpServer Q → Template → Option (McpServer Q)
  unfolding applied
  apply_template_updates s t = elim s.spec.runtime [ none ↦ none | some r ↦ some (applied t r s) ]
