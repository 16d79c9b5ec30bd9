-- ===== src/AutoUpdate/Convergence.antt =====
-- pkg/services/auto_update_service.go: `UpdateServerFromTemplate` on a server that it has updated
-- already.
use mcp_operator.Prelude.{
  String, ◌==◌, ◌≡◌, refl, ap, ◌∙◌, subst, ◌⊎◌, inl, inr, Bool, true, false, ◌&&◌, Option, none,
  some, [], arith, Bool-cases, Option-cases, ℤ, Dict,
}
use mcp_operator.Api.{RegistryRef, RuntimeSpec, McpServer}
use mcp_operator.Status.{set_condition}
use mcp_operator.AutoUpdate.Template.{
  Template, Outcome, panicked, failed, returned, registry_name, template_annotations,
  template_runtime, compare_with, given_or, answer, ask, compare, is_update_required, applied,
  apply_template_updates,
}
use mcp_operator.AutoUpdate.Update.{
  Updated, send_update, rewrite, proceed, update_server_from_template,
}
use mcp_operator.AutoUpdate.Comparison.{differs-template}

compare_with-template :
    (t : Template) (a : Dict String) (r : RuntimeSpec)
    → compare_with (template_annotations t a) t (some (template_runtime t r))
      ≡ returned (false, some t)
unfolding compare_with
compare_with-template t a r = ap (λ b. returned (b, some t)) (differs-template t a r)

compare_with-template_of :
    (a : Dict String) (t u : Template) (r : Option RuntimeSpec)
    → compare_with a u r ≡ returned (true, some t)
    → u ≡ t
unfolding compare_with
compare_with-template_of a t u none h = ground arith
compare_with-template_of a t u (some r) h = ground arith

answer_again :
    (k l : Template → Outcome (Bool × Option Template)) (t : Template) (found : String ⊎ Template)
    → ((u : Template) → k u ≡ returned (true, some t) → u ≡ t)
    → l t ≡ returned (false, some t)
    → answer k found ≡ returned (true, some t)
    → answer l found ≡ returned (false, some t)
unfolding answer
answer_again k l t (inl err) hk hl h = ground arith
answer_again k l t (inr u) hk hl h = ap l (hk u h) ∙ hl

ask_again :
    (fetch : String → String → String ⊎ Template)
    (k l : Template → Outcome (Bool × Option Template)) (t : Template) (name : String)
    (ref : Option RegistryRef)
    → ((u : Template) → k u ≡ returned (true, some t) → u ≡ t)
    → l t ≡ returned (false, some t)
    → ask fetch k name ref ≡ returned (true, some t)
    → ask fetch l name ref ≡ returned (false, some t)
unfolding ask
ask_again fetch k l t name none hk hl h = ground arith
ask_again fetch k l t name (some r) hk hl h = elim (Bool-cases (r.name == "" && r.registry == "")) [
  | inl e ↦ ground arith
  | inr e ↦
      ground
        (arith, answer_again k l t (fetch (registry_name r) (given_or name r.server_name)) hk hl)
]

module _ {Q : Type 0} (fetch : String → String → String ⊎ Template) where
  -- If an update to a template is due, then it is not due any more, by the same registry, on what
  -- the update makes of the server.
  pub is_update_required-applied :
      (s : McpServer Q) (r : RuntimeSpec) (t : Template)
      → is_update_required fetch s ≡ returned (true, some t)
      → is_update_required fetch (applied t r s) ≡ returned (false, some t)
  unfolding is_update_required compare applied
  is_update_required-applied s r t h =
      ask_again fetch (compare s) (compare (applied t r s)) t s.name s.spec.registry
        (λ u. compare_with-template_of s.annotations t u s.spec.runtime)
        (compare_with-template t s.annotations r) h

module _ {Q : Type 0} (fetch : String → String → String ⊎ Template)
    (api status_api : McpServer Q → Option String) (now : ℤ) where
  -- A server without a due update is left as it is, without a call.
  update-not_due :
      (s : McpServer Q) (t : Option Template)
      → is_update_required fetch s ≡ returned (false, t)
      → update_server_from_template fetch api status_api now s
        ≡ returned (record { updated = false; error = none; server = s; calls = [] })
  unfolding update_server_from_template
  update-not_due s t h = ap (proceed fetch api status_api now s) h

  sent_again :
      (answered : Option String) (image : String) (s : McpServer Q) (t : Template)
      (u : Option Template)
      → is_update_required fetch s ≡ returned (false, u)
      → (send_update fetch api status_api now answered image t s).updated ≡ true
      → is_update_required fetch (send_update fetch api status_api now answered image t s).server
        ≡ returned (false, u)
  unfolding send_update set_condition is_update_required compare
  sent_again none image s t u h hu = h
  sent_again (some err) image s t u h hu = ground arith

  rewrite-some :
      (s : McpServer Q) (t : Template) (old : RuntimeSpec)
      → s.spec.runtime ≡ some old
      → rewrite fetch api status_api now s t
        ≡ returned (
            send_update fetch api status_api now
              (api (applied t old s))
              old.image
              t
              (applied t old s))
  unfolding rewrite apply_template_updates
  rewrite-some s t old h = ground arith

  rewrite-none :
      (s : McpServer Q) (t : Template)
      → s.spec.runtime ≡ none
      → rewrite fetch api status_api now s t ≡ panicked
  unfolding rewrite
  rewrite-none s t h = ground arith

  rewrite_again :
      (s : McpServer Q) (t : Template) (r : Updated Q)
      → is_update_required fetch s ≡ returned (true, some t)
      → rewrite fetch api status_api now s t ≡ returned r
      → r.updated ≡ true
      → is_update_required fetch r.server ≡ returned (false, some t)
  rewrite_again s t r h e hu = elim (Option-cases s.spec.runtime) [
    | inl ok ↦ absurd (ground (arith, rewrite-none s t ok))
    | inr old ↦
        let u = applied t old.0 s in
        let sent = send_update fetch api status_api now (api u) old.0.image t u in
        let same : sent ≡ r = ground (arith, rewrite-some s t old.0 old.1) in
        subst (λ x. is_update_required fetch x.server ≡ returned (false, some t)) same
          (sent_again (api u) old.0.image u t (some t)
            (is_update_required-applied fetch s old.0 t h) (ap (λ x. x.updated) same ∙ hu))
  ]

  due_again :
      (s : McpServer Q) (o : Outcome (Bool × Option Template)) (r : Updated Q)
      → is_update_required fetch s ≡ o
      → proceed fetch api status_api now s o ≡ returned r
      → r.updated ≡ true
      → (t : Template) × (is_update_required fetch r.server ≡ returned (false, some t))
  unfolding proceed
  due_again s panicked r h e hu = ground arith
  due_again s (failed err) r h e hu = absurd (ground arith)
  due_again s (returned (false, t)) r h e hu = absurd (ground arith)
  due_again s (returned (true, none)) r h e hu = absurd (ground arith)
  due_again s (returned (true, some t)) r h e hu = (t, rewrite_again s t r h e hu)

  -- An update that was made leaves a server on which the same registry finds nothing to do: a
  -- second update changes nothing, makes no call and reports no error.
  pub update_server_from_template_converges :
      (s : McpServer Q) (r : Updated Q)
      → update_server_from_template fetch api status_api now s ≡ returned r
      → r.updated ≡ true
      → update_server_from_template fetch api status_api now r.server
        ≡ returned (record { updated = false; error = none; server = r.server; calls = [] })
  unfolding update_server_from_template
  update_server_from_template_converges s r h hu =
      let found = due_again s (is_update_required fetch s) r refl h hu in
      update-not_due r.server (some found.0) found.1
