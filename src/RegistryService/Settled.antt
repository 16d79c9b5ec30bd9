-- ===== src/RegistryService/Settled.antt =====
-- pkg/services/registry_service.go: that one enrichment is enough.
use mcp_operator.Prelude.{
  String, ◌==◌, eq_iff, ◌≡◌, refl, sym, ap, ◌∙◌, subst, ◌⊎◌, inl, inr, true, false, Option, some,
  Bool-cases, Option-cases, Dict,
}
use mcp_operator.Api.{RegistryRef, RuntimeSpec, McpServer}
use mcp_operator.AutoUpdate.Template.{Template, returned, read, compare_with, compare}
use mcp_operator.AutoUpdate.Comparison.{read-insert, differs-template}
use mcp_operator.RegistryService.{fill, keep_annotation, keep_annotations, write_digest}
use mcp_operator.RegistryService.Fetched.{
  fill_runtime, overwrite_runtime, enriched, overwritten, write_template, enrich_mcp_server,
  force_enrich_mcp_server,
}

read-keep_annotation :
    (key value other : String) (m : Dict String)
    → (key == other) ≡ false
    → read other (keep_annotation key value m) ≡ read other m
read-keep_annotation key value other m h = elim (Bool-cases (read key m == "")) [
  | inl empty ↦ rw (empty, read-insert key other value m, h) refl
  | inr given ↦ rw given refl
]

read-write_digest :
    (t : Template) (other : String) (m : Dict String)
    → ("mcp.allbeone.io/template-digest" == other) ≡ false
    → read other (write_digest t m) ≡ read other m
read-write_digest t other m h = elim (Bool-cases (t.template_digest == "")) [
  | inl empty ↦ rw empty refl
  | inr given ↦
      rw (given, read-insert "mcp.allbeone.io/template-digest" other t.template_digest m, h) refl
]

-- The version that the annotations have after an enrichment.
read-keep_annotations :
    (t : Template) (m : Dict String)
    → read "mcp.allbeone.io/registry-version" (write_digest t (keep_annotations t m))
      ≡ read "mcp.allbeone.io/registry-version"
          (keep_annotation "mcp.allbeone.io/registry-version" t.version m)
unfolding keep_annotations
read-keep_annotations t m =
    let version : String = "mcp.allbeone.io/registry-version" in
    read-write_digest t version _ refl
    ∙ (read-keep_annotation "mcp.allbeone.io/registry-author" t.author version _ refl
        ∙ (read-keep_annotation "mcp.allbeone.io/registry-license" t.license version _ refl
            ∙ (read-keep_annotation "mcp.allbeone.io/registry-repository" t.repository version _
                  refl
                ∙ read-keep_annotation "mcp.allbeone.io/registry-description" t.description version
                    _ refl)))

kept-keep_annotation :
    (key value : String) (m : Dict String)
    → (value == "") ≡ false
    → (read key (keep_annotation key value m) == "") ≡ false
kept-keep_annotation key value m h = elim (Bool-cases (read key m == "")) [
  | inl empty ↦
      let same : (key == key) ≡ true = (eq_iff key key).1 refl in
      rw (empty, read-insert key key value m, same) h
  | inr given ↦ rw (given, given) refl
]

fill-ne : (old new : String) → (new == "") ≡ false → (fill old new == "") ≡ false
fill-ne old new h = elim (Bool-cases (old == "")) [
  | inl empty ↦ rw empty h
  | inr given ↦ rw (given, given) refl
]

module _ {Q : Type 0} where
  -- A server that is enriched from a template with a version and an image is left as it is by
  -- EnrichMCPServer from then on, whatever the registry answers, and with no answer at all.
  pub enrich_mcp_server-enriched :
      (client : Option (String → String ⊎ Template)) (t : Template) (r : RuntimeSpec)
      (s : McpServer Q)
      → (t.version == "") ≡ false
      → (t.image == "") ≡ false
      → enrich_mcp_server client (enriched t r s) ≡ returned (enriched t r s)
  unfolding enrich_mcp_server enriched fill_runtime
  enrich_mcp_server-enriched client t r s version image =
      rw
        (
          read-keep_annotations t s.annotations,
          kept-keep_annotation "mcp.allbeone.io/registry-version" t.version s.annotations version,
          fill-ne r.image t.image image,
        )
        refl

  -- Whatever a server was, after ForceEnrichMCPServer with the template that the registry gives,
  -- the auto update service finds no difference to that template.
  pub compare-force_enrich_mcp_server :
      (fetch : String → String ⊎ Template) (s u : McpServer Q) (g : RegistryRef) (t : Template)
      → s.spec.registry ≡ some g
      → fetch g.server_name ≡ inr t
      → force_enrich_mcp_server (some fetch) s ≡ returned u
      → compare u t ≡ returned (false, some t)
  unfolding force_enrich_mcp_server compare compare_with overwritten overwrite_runtime
  compare-force_enrich_mcp_server fetch s u g t named given done =
      let made : force_enrich_mcp_server (some fetch) s
          ≡ write_template overwritten "force enrichment" s s.spec.runtime (inr t) =
        rw (named, given) refl in
      elim (Option-cases s.spec.runtime) [
        | inl missing ↦ cc (
            sym done
            ∙ (made ∙ ap (λ o. write_template overwritten "force enrichment" s o (inr t)) missing))
        | inr (r, there) ↦
            let whole : returned (overwritten t r s) ≡ returned u =
              sym (ap (λ o. write_template overwritten "force enrichment" s o (inr t)) there)
              ∙ (sym made ∙ done) in
            let same : overwritten t r s ≡ u = cc whole in
            subst (λ u. compare u t ≡ returned (false, some t)) same
              (ap (λ b. returned (b, some t)) (differs-template t s.annotations r))
      ]
