-- ===== src/Validation/Whole.antt =====
-- pkg/services/validation_service.go: `ValidateMCPServer` against all its rules.
use mcp_operator.Prelude.{
  String, ◌≡◌, refl, ◌≢◌, ◌↔◌, ◌⊎◌, inl, inr, Bool, false, Option, none, some, [], ◌∷◌, arith, pos,
  ◌≤ℤ◌, ltb_ℤ, concat, Dict, lookup,
}
use mcp_operator.Api.{ResourceRequirements, McpServer, Quantities}
use mcp_operator.Validation.{
  fail_if, entries_of, validate_entry, validate_resource_list, request_exceeds,
  validate_requests_vs_limits, validate_resource_requirements, check_mcp_server,
}
use mcp_operator.Validation.Rules.{
  RefRule, RuntimeRule, AutoscalingRule, NotNegative, fail_none, then_none, wrapped-none, ref_rule,
  runtime_rule, autoscaling_rule, negative_rule, TenancyRule, id_rule, tenancy_rule,
}

module _ {Q : Type 0} (lib : Quantities Q) where
  -- The text of a quantity is given and parses.
  unfoldable pub IsQuantity : String → Type 0
  IsQuantity s = (s ≢ "") × ((q : Q) × (lib.parse s ≡ inr q))

  unfoldable pub ListRule : Dict String → Type 0
  unfolding IsQuantity
  ListRule [] = Unit
  ListRule (e ∷ entries) = IsQuantity e.1 × ListRule entries

  -- A request is not above the limit: where there is one and both parse, it compares as at most it.
  abbrev pub IsWithin : (request : String) (limit : Option String) → Type 0
  IsWithin request limit =
      (text : String) (r l : Q)
      → limit ≡ some text
      → lib.parse request ≡ inr r
      → lib.parse text ≡ inr l
      → lib.cmp r l ≤ℤ pos 0

  -- No request is above the limit of the same name.
  unfoldable pub WithinLimits : (limits requests : Dict String) → Type 0
  WithinLimits limits [] = Unit
  WithinLimits limits (e ∷ requests) =
      IsWithin e.1 (lookup e.0 limits) × WithinLimits limits requests

  parsed :
      (m : String → String) (found : String ⊎ Q)
      → elim found [ inl err ↦ some (m err) | inr q ↦ none ] ≡ none ↔ (q : Q) × (found ≡ inr q)
  parsed m (inl err) = ground arith
  parsed m (inr q) = (λ h. (q, refl), λ h. refl)

  parsed_within :
      (request limit : String ⊎ Q)
      → elim request as (λ _. Bool) [
        | inl err ↦ false
        | inr r ↦ elim limit as (λ _. Bool) [
          | inl err ↦ false
          | inr l ↦ ltb_ℤ (pos 0) (lib.cmp r l)
        ]
      ]
          ≡ false
        ↔ ((r l : Q) → request ≡ inr r → limit ≡ inr l → lib.cmp r l ≤ℤ pos 0)
  parsed_within (inl err) limit = (λ h r l e f. cc, λ h. refl)
  parsed_within (inr r) (inl err) = (λ h r l e f. cc, λ h. refl)
  parsed_within (inr r) (inr l) = (λ h a b e f. ground arith, λ h. ground (arith, h r l refl refl))

  is_within :
      (request : String) (limit : Option String)
      → request_exceeds lib request limit ≡ false ↔ IsWithin request limit
  is_within request none = (λ h text r l e f g. cc, λ h. refl)
  is_within request (some limit) =
      let parts = parsed_within (lib.parse request) (lib.parse limit) in
      (
        λ h text r l e f g. parts.0 h r l f (ground arith),
        λ h. parts.1 (λ r l f g. h limit r l refl f g),
      )

  request_step :
      (request m : String) (limit : Option String)
      → fail_if (request_exceeds lib request limit) m ≡ none ↔ IsWithin request limit
  request_step request m limit =
      let step = fail_none (request_exceeds lib request limit) m in
      let within = is_within request limit in (λ h. within.0 (step.0 h), λ h. step.1 (within.1 h))

  entry_rule :
      (list_type name value : String)
      → validate_entry lib list_type name value ≡ none ↔ IsQuantity value
  unfolding IsQuantity
  entry_rule list_type name value = then_none _ _ (id_rule lib value _) (
      parsed
        (λ err.
          concat ("invalid " ∷ list_type ∷ "." ∷ name ∷ " value '" ∷ value ∷ "': " ∷ err ∷ []))
        (lib.parse value))

  list_rule :
      (list_type : String) (l : Dict String)
      → validate_resource_list lib list_type l ≡ none ↔ ListRule l
  unfolding validate_resource_list ListRule
  list_rule list_type [] = (λ h. tt, λ h. refl)
  list_rule list_type ((name, value) ∷ l) =
      then_none _ _ (entry_rule list_type name value) (list_rule list_type l)

  within_rule :
      (requests limits : Dict String)
      → validate_requests_vs_limits lib requests limits ≡ none ↔ WithinLimits limits requests
  unfolding validate_requests_vs_limits WithinLimits
  within_rule [] limits = (λ h. tt, λ h. refl)
  within_rule ((name, request) ∷ requests) limits =
      then_none _ _ (request_step request _ (lookup name limits)) (within_rule requests limits)

  unfoldable pub ResourcesRule : ResourceRequirements → Type 0
  unfolding ListRule WithinLimits
  ResourcesRule r =
      ListRule (entries_of r.limits)
      × (ListRule (entries_of r.requests)
          × WithinLimits (entries_of r.limits) (entries_of r.requests))

  resources_rule :
      (r : ResourceRequirements) → validate_resource_requirements lib r ≡ none ↔ ResourcesRule r
  unfolding validate_resource_requirements ResourcesRule
  resources_rule r = then_none _ _ (list_rule "limits" (entries_of r.limits)) (
      then_none _ _ (list_rule "requests" (entries_of r.requests))
        (within_rule (entries_of r.requests) (entries_of r.limits)))

  unfoldable pub Valid : McpServer Q → Type 0
  unfolding RefRule RuntimeRule ResourcesRule NotNegative AutoscalingRule TenancyRule
  Valid s =
      RefRule s.spec.registry
      × (RuntimeRule s.spec.runtime s.spec.transport
          × (ResourcesRule s.spec.resources
              × (NotNegative s.spec.replicas
                  × (AutoscalingRule s.spec.autoscaling × TenancyRule lib s.spec.tenancy))))

  -- The service reports no error exactly on the valid servers: a reference by either name, with
  -- the name, the registry and the server name of at most 253 bytes; a runtime docker, node, python
  -- or binary, with an image if it is docker, and a port from 0 to 65535 unless the transport is
  -- stdio; limits and requests that are not empty and parse, no request comparing as greater than
  -- the limit of its name; replicas, if given, that are not negative; autoscaling, if given, with
  -- 1 ≤ maximum, 1 ≤ minimum ≤ maximum where a minimum is given, and a VPA mode, if given, Off,
  -- Initial, Recreate or Auto; and a tenant, if given, with an id that is not empty, an isolation
  -- level None, Namespace, Node or Strict, and every quota that is given positive.
  pub check_mcp_server_iff : (s : McpServer Q) → check_mcp_server lib s ≡ none ↔ Valid s
  unfolding check_mcp_server Valid
  check_mcp_server_iff s = then_none _ _ (wrapped-none _ _ (ref_rule s.spec.registry)) (
      then_none _ _ (wrapped-none _ _ (runtime_rule s.spec.runtime s.spec.transport)) (
        then_none _ _ (wrapped-none _ _ (resources_rule s.spec.resources)) (
          then_none _ _ (negative_rule s.spec.replicas _) (
            then_none _ _ (wrapped-none _ _ (autoscaling_rule s.spec.autoscaling))
              (wrapped-none _ _ (tenancy_rule lib s.spec.tenancy))))))
