-- ===== src/Tools/Retry.antt =====
-- services/retry.py: `with_retry`, which calls a function again after a passing fault.
-- What a call does, a timeout of `asyncio.wait_for` included, is the parameter `attempt`; the pauses
-- between the calls are left out.
use study_loop.Base.{
  Bool, Bool-cases, String, ap, arith, false, if◌then◌else◌, inl, inr, leb, refl, subst, suc, true,
  zero, ℕ, ◌+◌, ◌∙◌, ◌≡◌, ◌≤◌, ◌⊎◌,
}

-- What a call raises, by the `except` clause that takes it.
pub data Fault : Type 0 where
  timed_out : Fault
  transient : String → Fault
  api_status : ℕ → Fault
  cancelled : Fault
  other : String → Fault

pub data Attempt {ℓ} (A : Type ℓ) : Type ℓ where
  returned : A → Attempt A
  raised : Fault → Attempt A

-- RetryExhausted carries the last fault as its cause.
pub data Retried {ℓ} (A : Type ℓ) : Type ℓ where
  result : A → Retried A
  failed : Fault → Retried A
  exhausted : Fault → Retried A

-- Whether the clause that takes a fault goes on to the next attempt.
abbrev pub retryable : Fault → Bool
retryable timed_out = true
retryable (transient name) = true
retryable (api_status code) = leb 500 code
retryable cancelled = false
retryable (other name) = false

abbrev pub passes {ℓ} : {A : Type ℓ} → Attempt A → Bool
passes (returned a) = false
passes (raised e) = retryable e

abbrev pub last_result {ℓ} : {A : Type ℓ} → Attempt A → Retried A
last_result (returned a) = result a
last_result (raised e) = if retryable e then exhausted e else failed e

-- The loop from `attempt` on, with `left` more attempts after it: the outcome and the calls made.
unfoldable retry_from {ℓ} : {A : Type ℓ} → (ℕ → Attempt A) → ℕ → ℕ → Retried A × ℕ
retry_from fn zero attempt = (last_result (fn attempt), 1)
retry_from fn (suc left) attempt = elim (passes (fn attempt)) [
  | false ↦ (last_result (fn attempt), 1)
  | true ↦ let (r, calls) = retry_from fn left (suc attempt) in (r, suc calls)
]

-- `with_retry`.
unfoldable pub with_retry {ℓ} : {A : Type ℓ} → ℕ → (ℕ → Attempt A) → Retried A × ℕ
unfolding retry_from
with_retry max_retries fn = retry_from fn max_retries 0

-- Every attempt from `i` on, `n` of them, raises a fault that is tried again.
abbrev pub AllPass {ℓ} : {A : Type ℓ} → (ℕ → Attempt A) → ℕ → ℕ → Type 0
AllPass fn i zero = Unit
AllPass fn i (suc n) = (passes (fn i) ≡ true) × AllPass fn (suc i) n

-- A loop with `left` more attempts ends after `calls` of them, with the outcome of the last.
abbrev Ends {ℓ} : {A : Type ℓ} → (ℕ → Attempt A) → ℕ → ℕ → Retried A × ℕ → Type ℓ
Ends fn left attempt (r, calls) =
    (n : ℕ) × (calls ≡ suc n)
    × (n ≤ left)
    × AllPass fn attempt n
    × (r ≡ last_result (fn (attempt + n)))
    × ((n ≡ left) ⊎ (passes (fn (attempt + n)) ≡ false))

retry_from-Ends {ℓ} :
    {A : Type ℓ} (fn : ℕ → Attempt A) (left attempt : ℕ)
    → Ends fn left attempt (retry_from fn left attempt)
unfolding retry_from
retry_from-Ends fn zero attempt =
    (0, refl, omega arith, tt, ap (λ i. last_result (fn i)) (omega arith), inl refl)
retry_from-Ends fn (suc left) attempt = elim (Bool-cases (passes (fn attempt))) [
  | inl again ↦
      let (n, calls, within, pass, last, stop) = retry_from-Ends fn left (suc attempt) in
      let shift : suc attempt + n ≡ attempt + suc n = omega arith in
      let stops : (suc n ≡ suc left) ⊎ (passes (fn (attempt + suc n)) ≡ false) = elim stop [
        | inl full ↦ inl (ap suc full)
        | inr done ↦ inr (subst (λ i. passes (fn i) ≡ false) shift done)
      ] in
      let first : (retry_from fn (suc left) attempt).0 ≡ (retry_from fn left (suc attempt)).0 =
        ground (arith, again) in
      (
        suc n,
        ground (arith, again, calls),
        omega arith,
        (again, pass),
        first ∙ last ∙ ap (λ i. last_result (fn i)) shift,
        stops,
      )
  | inr done ↦
      let here : attempt ≡ attempt + 0 = omega arith in
      let first : (retry_from fn (suc left) attempt).0 ≡ last_result (fn attempt) =
        ground (arith, done) in
      (
        0,
        ground (arith, done),
        omega arith,
        tt,
        first ∙ ap (λ i. last_result (fn i)) here,
        inr (subst (λ i. passes (fn i) ≡ false) here done),
      )
]

-- `with_retry` ends after at most `max_retries + 1` calls of its function, with what the last of them
-- did; every call before it raised a fault that is tried again, and a call that raises such a fault is
-- the last one only when there is no attempt left.
pub with_retry_ends :
    {A : Type 0} (max_retries : ℕ) (fn : ℕ → Attempt A)
    → (n : ℕ) × ((with_retry max_retries fn).1 ≡ suc n)
      × (n ≤ max_retries)
      × AllPass fn 0 n
      × ((with_retry max_retries fn).0 ≡ last_result (fn n))
      × ((n ≡ max_retries) ⊎ (passes (fn n) ≡ false))
unfolding with_retry
with_retry_ends max_retries fn =
    let (n, calls, within, pass, last, stop) = retry_from-Ends fn max_retries 0 in
    let start : 0 + n ≡ n = omega arith in
    (
      n,
      calls,
      within,
      pass,
      last ∙ ap (λ i. last_result (fn i)) start,
      subst (λ i. (n ≡ max_retries) ⊎ (passes (fn i) ≡ false)) start stop,
    )
