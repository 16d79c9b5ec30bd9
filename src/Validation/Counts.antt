-- ===== src/Validation/Counts.antt =====
-- pkg/services/validation_service.go: the quota of pods and the int32 that it is summed in.
use mcp_operator.Prelude.{
  ℕ, ◌+◌, ◌-◌, ◌/◌, ◌%◌, ◌^◌, ◌≤◌, ◌<◌, String, ◌==◌, ◌≡◌, refl, sym, ap, ◌∙◌, subst, ◌↔◌, ◌⊎◌, inl,
  inr, Bool, true, false, Option, none, some, List, [], ◌∷◌, arith, ltb, if◌then◌else◌, Bool-cases,
  length, ℤ, pos, negsuc, ◌+ℤ◌, ltb_ℤ, wrap_signed,
}
use mcp_operator.Api.{McpServer}
use mcp_operator.Validation.Quota.{
  Pod, Cluster, is_running, count_running, replicas_or_one, exceeds_count, counted,
  get_tenant_pod_count, check_count, validate_pod_quota,
}

-- The number of the pods whose phase is Running.
abbrev pub running : {Q : Type 0} → List (Pod Q) → ℕ
running [] = 0
running (p ∷ ps) = if p.phase == "Running" then running ps + 1 else running ps

running_bound : {Q : Type 0} (ps : List (Pod Q)) → running ps ≤ length ps
running_bound [] = omega arith
running_bound (p ∷ ps) = ground (arith, running_bound ps)

wrap_small : (n : ℕ) → n < 2 ^ 31 → wrap_signed 32 (pos n) ≡ pos n
wrap_small n h = ground arith

plus_pos : (n r : ℕ) → pos n +ℤ pos r ≡ pos (n + r)
plus_pos n r = ground arith

counted_one :
    (b : Bool) (n : ℕ)
    → n + 1 < 2 ^ 31
    → (if b then wrap_signed 32 (pos n +ℤ pos 1) else pos n) ≡ pos (if b then n + 1 else n)
counted_one true n h = ap (wrap_signed 32) (plus_pos n 1) ∙ wrap_small (n + 1) h
counted_one false n h = refl

count_running-pos :
    {Q : Type 0} (n : ℕ) (ps : List (Pod Q))
    → n + length ps < 2 ^ 31
    → count_running (pos n) ps ≡ pos (n + running ps)
unfolding count_running
count_running-pos n [] h = ground arith
count_running-pos n (p ∷ ps) h =
    ap (λ c. count_running c ps) (counted_one (is_running p) n (omega (arith)))
    ∙ count_running-pos (if is_running p then n + 1 else n) ps (ground arith)
    ∙ ap pos (ground arith)

exceeds_count-small :
    (r n : ℕ) (q : ℤ) → n + r < 2 ^ 31 → exceeds_count (pos r) (pos n) q ≡ ltb_ℤ q (pos (n + r))
unfolding exceeds_count
exceeds_count-small r n q h =
    ap (ltb_ℤ q) (ap (wrap_signed 32) (plus_pos n r) ∙ wrap_small (n + r) h)

-- The integer of 32 bits.
abbrev sign_of : ℕ → ℤ
sign_of u = if ltb u (2 ^ 32 / 2) then pos u else negsuc (2 ^ 32 - u - 1)

large_bits : (m : ℕ) → m < 2 ^ 32 → (m + 2 ^ 32 - 0 % 2 ^ 32) % 2 ^ 32 ≡ m
large_bits m h = omega arith

large_sign : (m : ℕ) → 2 ^ 31 ≤ m → sign_of m ≡ negsuc (2 ^ 32 - m - 1)
large_sign m h = ground arith

wrap_large : (m : ℕ) → 2 ^ 31 ≤ m → m < 2 ^ 32 → wrap_signed 32 (pos m) ≡ negsuc (2 ^ 32 - m - 1)
wrap_large m h k = ap sign_of (large_bits m k) ∙ large_sign m h

negative_below : (n q : ℕ) → ltb_ℤ (pos q) (negsuc n) ≡ false
negative_below n q = ground arith

exceeds_count-large :
    (r n q : ℕ) → 2 ^ 31 ≤ n + r → n + r < 2 ^ 32 → exceeds_count (pos r) (pos n) (pos q) ≡ false
unfolding exceeds_count
exceeds_count-large r n q h k =
    ap (ltb_ℤ (pos q)) (ap (wrap_signed 32) (plus_pos n r) ∙ wrap_large (n + r) h k)
    ∙ negative_below (2 ^ 32 - (n + r) - 1) q

-- The replicas that are asked for: one if none are given.
abbrev pub AsksFor : Option ℤ → ℕ → Type 0
AsksFor replicas r = (replicas ≡ some (pos r)) ⊎ ((replicas ≡ none) × (r ≡ 1))

asked : (replicas : Option ℤ) (r : ℕ) → AsksFor replicas r → replicas_or_one replicas ≡ pos r
asked replicas r (inl given) = ap replicas_or_one given
asked replicas r (inr absent) = ap replicas_or_one (absent.0) ∙ ap pos (sym absent.1)

module _ (show_int : ℤ → String) where
  pod_quota_of :
      {Q : Type 0} (tenant : String) (cluster : Cluster Q) (ps : List (Pod Q)) (s : McpServer Q)
      (quota : ℤ)
      → cluster.pods ≡ inr ps
      → length ps < 2 ^ 31
      → validate_pod_quota show_int tenant cluster s quota
        ≡ check_count show_int "pod" "Pod"
            (replicas_or_one s.spec.replicas)
            quota
            (inr (pos (running ps)))
  unfolding validate_pod_quota get_tenant_pod_count
  pod_quota_of tenant cluster ps s quota h k =
      ap (λ o. check_count show_int "pod" "Pod" (replicas_or_one s.spec.replicas) quota o)
        (ap (counted "pods" tenant (count_running (pos 0))) h
          ∙ ap inr (count_running-pos 0 ps (omega arith) ∙ ap pos (omega arith)))

  exceeds_rule :
      (r n q : ℕ)
      → n < 2 ^ 31
      → r < 2 ^ 31
      → exceeds_count (pos r) (pos n) (pos q) ≡ false ↔ (n + r ≤ q) ⊎ (2 ^ 31 ≤ n + r)
  exceeds_rule r n q h k = elim (Bool-cases (ltb (n + r) (2 ^ 31))) [
    | inl small ↦ ground (arith, exceeds_count-small r n (pos q))
    | inr large ↦ ground (arith, exceeds_count-large r n q)
  ]

  count_rule :
      (kind kind_word : String) (r n q : ℕ)
      → n < 2 ^ 31
      → r < 2 ^ 31
      → check_count show_int kind kind_word (pos r) (pos q) (inr (pos n)) ≡ none
        ↔ (n + r ≤ q) ⊎ (2 ^ 31 ≤ n + r)
  unfolding check_count
  count_rule kind kind_word r n q h k = ground (arith, exceeds_rule r n q h k)

  -- Where the pods of a tenant can be listed and are fewer than 2^31, and a server asks for r
  -- replicas, fewer than 2^31 and one if none are given, it passes the check of a pod quota q that
  -- is not negative exactly if the running pods and r are together at most q, or are 2^31 or more:
  -- the sum of 32 bits is then negative, and within every such quota.
  pub validate_pod_quota_iff :
      {Q : Type 0} (tenant : String) (cluster : Cluster Q) (ps : List (Pod Q)) (s : McpServer Q)
      (q r : ℕ)
      → cluster.pods ≡ inr ps
      → length ps < 2 ^ 31
      → AsksFor s.spec.replicas r
      → r < 2 ^ 31
      → validate_pod_quota show_int tenant cluster s (pos q) ≡ none
        ↔ (running ps + r ≤ q) ⊎ (2 ^ 31 ≤ running ps + r)
  validate_pod_quota_iff tenant cluster ps s q r h k asks b =
      subst (λ v. v ≡ none ↔ (running ps + r ≤ q) ⊎ (2 ^ 31 ≤ running ps + r))
        (ap (λ x. check_count show_int "pod" "Pod" x (pos q) (inr (pos (running ps))))
            (sym (asked s.spec.replicas r asks))
          ∙ sym (pod_quota_of tenant cluster ps s (pos q) h k))
        (count_rule "pod" "Pod" r (running ps) q (omega (arith, running_bound ps)) b)
