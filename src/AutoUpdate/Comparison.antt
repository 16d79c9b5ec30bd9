-- ===== src/AutoUpdate/Comparison.antt =====
-- pkg/services/auto_update_service.go: the comparison of a server with a template.
use mcp_operator.Prelude.{
  String, ◌==◌, eq_iff, ◌≡◌, refl, ◌↔◌, ◌⊎◌, inl, inr, true, false, List, [], ◌∷◌, arith,
  if◌then◌else◌, Bool-cases, Dict, insert, lookup-insert,
}
use mcp_operator.Api.{RuntimeSpec}
use mcp_operator.AutoUpdate.Template.{
  Template, same_strings, are_runtime_specs_equal, read, differs, differs_early,
  template_annotations, template_runtime,
}

same_strings_refl : (xs : List String) → same_strings xs xs ≡ true
same_strings_refl [] = refl
same_strings_refl (x ∷ xs) = ground (arith, eq_iff x x, same_strings_refl xs)

same_strings_sound : (xs ys : List String) → same_strings xs ys ≡ true → xs ≡ ys
same_strings_sound [] [] h = refl
same_strings_sound [] (y ∷ ys) h = ground arith
same_strings_sound (x ∷ xs) [] h = ground arith
same_strings_sound (x ∷ xs) (y ∷ ys) h = ground (arith, eq_iff x y, same_strings_sound xs ys)

-- The comparison of runtimes is equality of the type, the command and the arguments.
pub are_runtime_specs_equal_iff :
    (r : RuntimeSpec) (t : Template)
    → are_runtime_specs_equal r t ≡ true
      ↔ (r.kind ≡ t.kind) × (r.command ≡ t.command) × (r.args ≡ t.args)
are_runtime_specs_equal_iff r t = ground (
  arith,
  eq_iff r.kind t.kind,
  same_strings_sound r.command t.command,
  same_strings_sound r.args t.args,
  same_strings_refl r.command,
  same_strings_refl r.args,
)

pub read-insert :
    (k j v : String) (m : Dict String) → read j (insert k v m) ≡ (if k == j then v else read j m)
read-insert k j v m = ground (arith, lookup-insert k j v m)

pub version-template_annotations :
    (t : Template) (a : Dict String)
    → read "mcp.allbeone.io/registry-version" (template_annotations t a) ≡ t.version
unfolding template_annotations
version-template_annotations t a = elim (Bool-cases (t.template_digest == "")) [
  | inl h ↦ rw h (simp (read-insert) refl)
  | inr h ↦ rw h (simp (read-insert) refl)
]

pub digest-template_annotations :
    (t : Template) (a : Dict String)
    → read "mcp.allbeone.io/template-digest" (template_annotations t a) ≡ (
        if t.template_digest == ""
        then read "mcp.allbeone.io/template-digest" a
        else t.template_digest)
unfolding template_annotations
digest-template_annotations t a = elim (Bool-cases (t.template_digest == "")) [
  | inl h ↦ rw h (simp (read-insert) refl)
  | inr h ↦ rw h (simp (read-insert) refl)
]

pub differs-template :
    (t : Template) (a : Dict String) (r : RuntimeSpec)
    → differs (template_annotations t a) (template_runtime t r) t ≡ false
unfolding differs
differs-template t a r = ground (
  arith,
  version-template_annotations t a,
  digest-template_annotations t a,
  eq_iff t.version t.version,
  eq_iff t.image t.image,
  eq_iff t.template_digest t.template_digest,
  are_runtime_specs_equal_iff (template_runtime t r) t,
)

-- On a server with a runtime, no update is due exactly if the annotated version, the image, the
-- type, the command and the arguments are the template's and the digests agree or one is missing.
pub differs_iff :
    (a : Dict String) (r : RuntimeSpec) (t : Template)
    → differs a r t ≡ false
      ↔ (read "mcp.allbeone.io/registry-version" a ≡ t.version)
        × (r.image ≡ t.image)
        × (r.kind ≡ t.kind)
        × (r.command ≡ t.command)
        × (r.args ≡ t.args)
        × ((read "mcp.allbeone.io/template-digest" a ≡ "")
            ⊎ (t.template_digest ≡ "")
            ⊎ (read "mcp.allbeone.io/template-digest" a ≡ t.template_digest))
unfolding differs
differs_iff a r t = ground (
  arith,
  eq_iff (read "mcp.allbeone.io/registry-version" a) t.version,
  eq_iff r.image t.image,
  eq_iff t.template_digest "",
  eq_iff (read "mcp.allbeone.io/template-digest" a) "",
  eq_iff (read "mcp.allbeone.io/template-digest" a) t.template_digest,
  are_runtime_specs_equal_iff r t,
)

pub differs_early-differs :
    (a : Dict String) (r : RuntimeSpec) (t : Template)
    → differs a r t ≡ false
    → differs_early a t ≡ false
unfolding differs differs_early
differs_early-differs a r t h = ground arith
