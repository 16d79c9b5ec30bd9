-- ===== src/Retry/Loop.antt =====
-- pkg/retry/retry.go: a description of the runs of a retry loop that has no loop, and the loop
-- against it.
use mcp_operator.Prelude.{
  ℕ, zero, suc, ◌+◌, ◌≤◌, ◌<◌, ◌≡◌, refl, ap, ◌∙◌, ◌≢◌, inl, inr, Bool, true, false, Option, none,
  some, [], ◌∷◌, arith, if◌then◌else◌, Bool-cases, Option-cases, ℤ, pos, eqb_ℤ, eqb_ℤ→eq, eqb_ℤ→ne,
}
use mcp_operator.Retry.{
  Env, RetryError, non_retryable, exhausted, cancelled, unexpected, Event, called, Log, announce,
  retry_loop,
}

module _ {E : Type 0} (env : Env E) (max : ℕ) where
  -- The run from attempt `k` on returns a result after the function has been called `n` times.
  pub data Ends (r : Option (RetryError E)) (n : ℕ) : ℕ → Type 0 where
    succeed : {k : ℕ} → env.fn k ≡ none → r ≡ none → n ≡ k + 1 → Ends r n k
    refuse :
        {k : ℕ} (e : E)
        → env.fn k ≡ some e
        → env.is_retryable e ≡ false
        → r ≡ some (non_retryable (k + 1) e)
        → n ≡ k + 1
        → Ends r n k
    exhaust :
        {k : ℕ} (e : E)
        → env.fn k ≡ some e
        → env.is_retryable e ≡ true
        → k ≡ max
        → r ≡ some (exhausted (pos max) e)
        → n ≡ k + 1
        → Ends r n k
    cancel :
        {k : ℕ} (e c : E)
        → env.fn k ≡ some e
        → env.is_retryable e ≡ true
        → k < max
        → env.interrupted k ≡ some c
        → r ≡ some (cancelled c)
        → n ≡ k + 1
        → Ends r n k
    again :
        {k : ℕ} (e : E)
        → env.fn k ≡ some e
        → env.is_retryable e ≡ true
        → k < max
        → env.interrupted k ≡ none
        → Ends r n (k + 1)
        → Ends r n k

abbrev pub is_call : {E : Type 0} → Event E → Bool
is_call (called k) = true
is_call _ = false

-- How often the log says that the function was called.
abbrev pub calls : {E : Type 0} → Log E → ℕ
calls [] = 0
calls (ev ∷ log) = (if is_call ev then 1 else 0) + calls log

module _ {E : Type 0} (env : Env E) (max : ℕ) (cb : Bool) (delay : ℕ → ℤ) where
  below : (k rounds : ℕ) → k + suc rounds ≡ max + 1 → eqb_ℤ (pos k) (pos max) ≡ false → k < max
  below k rounds e h = omega (arith, eqb_ℤ→ne k max h)

  calls-announce :
      (k : ℕ) (err : E) (log : Log E)
      → calls (announce env (pos max) cb delay k err log) ≡ calls log
  unfolding announce
  calls-announce k err log = ground arith

  pub retry_loop-Ends :
      (rounds k : ℕ) (last : Option E) (log : Log E)
      → k + rounds ≡ max + 1
      → 0 < rounds
      → calls log ≡ k
      → let (r, log') = retry_loop env (pos max) cb delay rounds k last log in
        Ends env max r (calls log') k
  unfolding retry_loop
  retry_loop-Ends zero k last log e h c = absurd (omega arith)
  retry_loop-Ends (suc rounds) k last log e h c = elim (Option-cases (env.fn k)) [
    | inl ok ↦ rw (ok, retry_loop) (succeed ok refl (omega arith))
    | inr (err, bad) ↦ elim (Bool-cases (env.is_retryable err)) [
      | inr stop ↦ rw (bad, stop, retry_loop) (refuse err bad stop refl (omega arith))
      | inl more ↦ elim (Bool-cases (eqb_ℤ (pos k) (pos max))) [
        | inl last_one ↦
            rw (bad, more, last_one, retry_loop)
              (exhaust err bad more (eqb_ℤ→eq k max last_one) refl (omega arith))
        | inr before ↦ elim (Option-cases (env.interrupted k)) [
          | inr (c', gone) ↦
              rw (bad, more, before, gone, retry_loop)
                (cancel err c' bad more (below k rounds e before) gone refl (ground arith))
          | inl on ↦
              rw (bad, more, before, on, retry_loop)
                (again err bad more (below k rounds e before) on (
                  retry_loop-Ends rounds (k + 1) (some err)
                    (announce env (pos max) cb delay k err (called k ∷ log)) (omega arith)
                    (omega (arith, below k rounds e before))
                    (ground (arith, calls-announce k err (called k ∷ log)))))
        ]
      ]
    ]
  ]

  -- Conversely the loop runs as `Ends` says.
  pub retry_loop_of_Ends :
      {r : Option (RetryError E)} {n k : ℕ} (rounds : ℕ) (last : Option E) (log : Log E)
      → Ends env max r n k
      → k + suc rounds ≡ max + 1
      → calls log ≡ k
      → let (r', log') = retry_loop env (pos max) cb delay (suc rounds) k last log in
        (r' ≡ r) × (calls log' ≡ n)
  unfolding retry_loop
  retry_loop_of_Ends rounds last log (succeed f p q) e c = ground arith
  retry_loop_of_Ends rounds last log (refuse x f t p q) e c = ground arith
  retry_loop_of_Ends rounds last log (exhaust x f t l p q) e c = ground arith
  retry_loop_of_Ends {k} rounds last log (cancel x y f t l i p q) e c =
      ground (arith, calls-announce k x (called k ∷ log))
  retry_loop_of_Ends zero last log (again x f t l i more) e c = absurd (omega arith)
  retry_loop_of_Ends {k} (suc rounds) last log (again x f t l i more) e c = ground (
    arith,
    retry_loop_of_Ends rounds (some x) (announce env (pos max) cb delay k x (called k ∷ log)) more,
    calls-announce k x (called k ∷ log),
  )

module _ {E : Type 0} (env : Env E) (max : ℕ) where
  pub Ends-bounds :
      {r : Option (RetryError E)} {n k : ℕ} → k ≤ max → Ends env max r n k → (k < n) × (n ≤ max + 1)
  Ends-bounds h (again e f t l i x) = let b = Ends-bounds (omega arith) x in omega arith
  Ends-bounds h (succeed f p q) = omega arith
  Ends-bounds h (refuse e f t p q) = omega arith
  Ends-bounds h (exhaust e f t l p q) = omega arith
  Ends-bounds h (cancel e c f t l i p q) = omega arith

  pub Ends-none :
      {r : Option (RetryError E)} {n k : ℕ}
      → Ends env max r n k
      → r ≡ none
      → (j : ℕ) × (env.fn j ≡ none) × (n ≡ j + 1)
  Ends-none (again e f t l i x) z = Ends-none x z
  Ends-none {k} (succeed f p q) z = (k, f, q)
  Ends-none (refuse e f t p q) z = absurd (ground arith)
  Ends-none (exhaust e f t l p q) z = absurd (ground arith)
  Ends-none (cancel e c f t l i p q) z = absurd (ground arith)

  pub Ends-ne-unexpected :
      {r : Option (RetryError E)} {n k : ℕ}
      → Ends env max r n k
      → (last : Option E) → r ≢ some (unexpected last)
  Ends-ne-unexpected (again e f t l i x) last = Ends-ne-unexpected x last
  Ends-ne-unexpected (succeed f p q) last = grind arith
  Ends-ne-unexpected (refuse e f t p q) last = grind arith
  Ends-ne-unexpected (exhaust e f t l p q) last = grind arith
  Ends-ne-unexpected (cancel e c f t l i p q) last = grind arith

  -- Attempt `j` fails with a retryable error, and the wait after it is not interrupted.
  abbrev pub Retried : ℕ → Type 0
  Retried j =
      (e : E) × (env.fn j ≡ some e) × (env.is_retryable e ≡ true) × (env.interrupted j ≡ none)

  pub Ends-succeed :
      (d k : ℕ)
      → k + d ≤ max
      → ((j : ℕ) → k ≤ j → j < k + d → Retried j)
      → env.fn (k + d) ≡ none
      → Ends env max none (k + d + 1) k
  Ends-succeed zero k h fails ok = succeed (ap env.fn (omega arith) ∙ ok) refl (omega arith)
  Ends-succeed (suc d) k h fails ok =
      let (e, f, t, i) = fails k (omega arith) (omega arith) in
      let same : k + 1 + d ≡ k + suc d = omega arith in
      again e f t (omega arith) i (
        rw (← same) (
          Ends-succeed d (k + 1) (omega arith) (λ j lo hi. fails j (omega arith) (omega arith))
            (ap env.fn same ∙ ok)))
