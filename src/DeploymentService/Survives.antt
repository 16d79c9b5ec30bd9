-- ===== src/DeploymentService/Survives.antt =====
-- pkg/services/deployment_service.go: what the deletion of a server leaves.
use mcp_operator.Prelude.{
  String, ◌==◌, eq_iff, ◌≡◌, refl, sym, ap, ◌∙◌, subst, inl, inr, true, false, Option, none, some,
  List, [], ◌∷◌, arith, Bool-cases, is_some,
}
use mcp_operator.Api.{McpServer}
use mcp_operator.ResourceBuilder.{Source}
use mcp_operator.ResourceBuilder.NetworkPolicy.{NetworkPolicy, build_network_policy}
use mcp_operator.DeploymentService.{
  Kind, a_deployment, a_service, an_autoscaler, a_network_policy, Resource, Faults, same_kind,
  is_at, Result, find_object, remove_object, put_object, updating, stored_or, create_or_update_over,
  guarded, create_or_update, policy_object, built_network_policy, create_or_update_network_policy,
  delete_object, delete_resources,
}

policy_kind : (k : Kind) → same_kind k a_network_policy ≡ true → k ≡ a_network_policy
policy_kind a_deployment h = cc
policy_kind a_service h = cc
policy_kind an_autoscaler h = cc
policy_kind a_network_policy h = refl

-- No object is both at the one place and at the other.
abbrev Apart :
    (Q IntOrString : Type 0)
    → (kind other : Kind) (name other_name namespace other_namespace : String) → Type 0
Apart Q IntOrString kind other name other_name namespace other_namespace =
    (o : Resource Q IntOrString)
    → is_at kind name namespace o ≡ true
    → is_at other other_name other_namespace o ≡ false

module _ {Q IntOrString : Type 0} where
  find_object-remove_object :
      (kind other : Kind) (name other_name namespace other_namespace : String)
      (store : List (Resource Q IntOrString))
      → Apart Q IntOrString kind other name other_name namespace other_namespace
      → find_object kind name namespace (remove_object other other_name other_namespace store)
        ≡ find_object kind name namespace store
  unfolding find_object remove_object
  find_object-remove_object kind other name other_name namespace other_namespace [] apart = refl
  find_object-remove_object kind other name other_name namespace other_namespace (o ∷ os) apart =
      let ih =
        find_object-remove_object kind other name other_name namespace other_namespace os apart in
      elim (Bool-cases (is_at kind name namespace o)) [
        | inl here ↦ rw (apart o here, here) refl
        | inr elsewhere ↦ elim (Bool-cases (is_at other other_name other_namespace o)) [
          | inl removed ↦ rw (removed, elsewhere) ih
          | inr kept ↦ rw (kept, elsewhere) ih
        ]
      ]

  policy-Apart_by_kind :
      (other : Kind) (name other_name namespace other_namespace : String)
      → same_kind a_network_policy other ≡ false
      → Apart Q IntOrString a_network_policy other name other_name namespace other_namespace
  policy-Apart_by_kind other name other_name namespace other_namespace h o here =
      let same : same_kind o.kind a_network_policy ≡ true = ground (arith, here) in
      rw (policy_kind o.kind same, h) refl

  policy-Apart_by_name :
      (name other_name namespace other_namespace : String)
      → (name == other_name) ≡ false
      → Apart Q IntOrString a_network_policy a_network_policy name other_name namespace
          other_namespace
  policy-Apart_by_name name other_name namespace other_namespace h o here =
      ground (arith, here, h, eq_iff o.name name, eq_iff o.name other_name, eq_iff name other_name)

  find_object-delete_object :
      (faults : Faults) (kind other : Kind) (name namespace : String) (s : McpServer Q)
      (store : List (Resource Q IntOrString))
      → Apart Q IntOrString kind other name s.name namespace s.namespace
      → find_object kind name namespace (delete_object faults other s store)
        ≡ find_object kind name namespace store
  find_object-delete_object faults kind other name namespace s store apart =
      elim (Bool-cases (is_some (faults.delete other))) [
        | inl failed ↦ rw failed refl
        | inr done ↦
            rw done
              (find_object-remove_object kind other name s.name namespace s.namespace store apart)
      ]

  -- What is at the place of a network policy with another name than the server stays there.
  find_object-delete_resources :
      (faults : Faults) (name namespace : String) (s : McpServer Q)
      (store : List (Resource Q IntOrString))
      → (name == s.name) ≡ false
      → find_object a_network_policy name namespace (delete_resources faults s store)
        ≡ find_object a_network_policy name namespace store
  unfolding delete_resources
  find_object-delete_resources faults name namespace s store h =
      find_object-delete_object faults a_network_policy a_network_policy name namespace s _
        (policy-Apart_by_name name s.name namespace s.namespace h)
      ∙ (find_object-delete_object faults a_network_policy an_autoscaler name namespace s _
            (policy-Apart_by_kind an_autoscaler name s.name namespace s.namespace refl)
          ∙ (find_object-delete_object faults a_network_policy a_service name namespace s _
                (policy-Apart_by_kind a_service name s.name namespace s.namespace refl)
              ∙ find_object-delete_object faults a_network_policy a_deployment name namespace s
                  store (policy-Apart_by_kind a_deployment name s.name namespace s.namespace refl)))

  is_at-itself :
      (o : Resource Q IntOrString)
      → same_kind o.kind o.kind ≡ true
      → is_at o.kind o.name o.namespace o ≡ true
  is_at-itself o h =
      rw (h, (eq_iff o.name o.name).1 refl, (eq_iff o.namespace o.namespace).1 refl) refl

  find_object-stored_or :
      (doing : String) (fault : Option String) (o left : Resource Q IntOrString)
      (store after : List (Resource Q IntOrString))
      → same_kind o.kind o.kind ≡ true
      → stored_or doing fault o store ≡ inr (left, after)
      → find_object o.kind o.name o.namespace after ≡ some left
  unfolding find_object
  find_object-stored_or doing (some err) o left store after h e = cc
  find_object-stored_or doing none o left store after h e =
      let pair : (o, put_object o store) ≡ (left, after) = cc in
      let here : find_object o.kind o.name o.namespace (put_object o store) ≡ some o =
        rw (is_at-itself o h) refl in
      subst
        (λ (q : Resource Q IntOrString × List (Resource Q IntOrString)).
          find_object o.kind o.name o.namespace q.1 ≡ some q.0)
        pair here

  find_object-create_or_update_over :
      (faults : Faults) (noun : String) (o left : Resource Q IntOrString)
      (store after : List (Resource Q IntOrString)) (there : Option (Resource Q IntOrString))
      → same_kind o.kind o.kind ≡ true
      → create_or_update_over faults noun o store there ≡ inr (left, after)
      → find_object o.kind o.name o.namespace after ≡ some left
  find_object-create_or_update_over faults noun o left store after none h e =
      find_object-stored_or _ faults.create o left store after h e
  find_object-create_or_update_over faults noun o left store after (some old) h e =
      find_object-stored_or _ faults.update (updating old o) left store after h e

  unguarded :
      (own get : Option String) (noun : String) (later : Result Q IntOrString)
      (r : Resource Q IntOrString × List (Resource Q IntOrString))
      → guarded own get noun later ≡ inr r
      → later ≡ inr r
  unguarded (some err) get noun later r e = cc
  unguarded none (some err) noun later r e = cc
  unguarded none none noun later r e = e

  -- A network policy that CreateOrUpdateNetworkPolicy has stored is still there, as stored, after
  -- DeleteResources of the same server, whatever errors that meets, unless the policy has the
  -- server's own name.
  pub find_object-delete_resources-create_or_update_network_policy :
      (faults deleting : Faults) (b : Source Q IntOrString) (p : NetworkPolicy)
      (left : Resource Q IntOrString) (store after : List (Resource Q IntOrString))
      → build_network_policy b ≡ some p
      → (p.name == b.server.name) ≡ false
      → create_or_update_network_policy faults b store ≡ inr (left, after)
      → find_object a_network_policy p.name p.namespace (delete_resources deleting b.server after)
        ≡ some left
  unfolding create_or_update_network_policy create_or_update
  find_object-delete_resources-create_or_update_network_policy faults deleting b p left store after
        built apart e =
      let o = policy_object p in
      let made : create_or_update faults "network policy" o store ≡ inr (left, after) =
        sym (ap (λ q. built_network_policy faults q store) built) ∙ e in
      find_object-delete_resources deleting p.name p.namespace b.server after apart
      ∙ find_object-create_or_update_over faults "network policy" o left store after
          (find_object o.kind o.name o.namespace store) refl
          (unguarded faults.own faults.get "network policy" _ (left, after) made)
