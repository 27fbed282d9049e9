-- ===== src/Tools/Effects.antt =====
-- services/tool_registry.py: the run of a handler by `invoke`, behind the barrier and the receipt.
use study_loop.Base.{
  Bool-cases, List, Option, String, arith, col_is, col_is_eq, false, inl, inr, none, refl, some,
  subst, suc, true, ℕ, ◌∷◌, ◌≡◌, ◌≤◌, ◌⊎◌,
}
use study_loop.Base.Result.{Result, err, ok}
use study_loop.Receipts.Owner.{mark_effect_started_sync}
use study_loop.Receipts.Receipt.{Error, Receipt, ReceiptLease}
use study_loop.Table.{Table}
use study_loop.Tools.Admission.{Invocation}
use study_loop.Tools.Invoke.{
  HandlerRun, Handlers, World, after_mark, mark_receipt, needs_receipt, note_attempt, retries_of,
  run_handler, start_handler,
}
use study_loop.Tools.Registry.{Tool, ToolMetadata, non_replayable}
use study_loop.Tools.Retry.{Attempt, with_retry, with_retry_ends}

-- How often a handler is called.
abbrev pub CallsOf : ToolMetadata → ℕ → Type 0
CallsOf m calls =
    ((non_replayable m.effect_mode ≡ true) × (calls ≡ 1))
    ⊎ ((non_replayable m.effect_mode ≡ false) × (calls ≤ suc m.max_retries))

-- The receipt of the call was marked in the table, if the call stands under one.
abbrev pub MarkedFirst : Tool → Invocation → ℕ → Table Receipt → Table Receipt → Type 0
MarkedFirst tool q now t t' =
    ((needs_receipt tool q ≡ false) × (t' ≡ t))
    ⊎ ((lease : ReceiptLease) × (q.idempotency_lease ≡ some lease)
        × (q.idempotency_key ≡ some lease.key)
        × (mark_effect_started_sync lease.key lease.owner_token q.name now t ≡ (ok tt, t')))

-- A world after the handler of a tool has run, from these runs and receipts.
abbrev pub Ran : Tool → Invocation → ℕ → List HandlerRun → Table Receipt → World → Type 0
Ran tool q now runs receipts w' =
    (calls : ℕ) × (w'.runs ≡ record { tool = tool; arguments = q.arguments; calls = calls } ∷ runs)
    × CallsOf tool.metadata calls
    × MarkedFirst tool q now receipts w'.receipts

-- Nothing ran, or the handler of the tool.
abbrev pub MayRun : Tool → Invocation → ℕ → List HandlerRun → Table Receipt → World → Type 0
MayRun tool q now runs receipts w' = (w'.runs ≡ runs) ⊎ Ran tool q now runs receipts w'

calls-CallsOf :
    (m : ToolMetadata) (fn : ℕ → Attempt String) → CallsOf m (with_retry (retries_of m) fn).1
calls-CallsOf m fn =
    let (n, calls, within, pass, last, stop) = with_retry_ends (retries_of m) fn in
    elim (Bool-cases (non_replayable m.effect_mode)) [
      | inl effect ↦ inl (effect, ground (arith, calls, within, effect))
      | inr safe ↦ inr (safe, ground (arith, calls, within, safe))
    ]

module _ (hs : Handlers) (tool : Tool) (q : Invocation) (now : ℕ) where
  abbrev handler_calls : ℕ
  handler_calls = (with_retry (retries_of tool.metadata) (hs.attempt tool.handler q.arguments)).1

  note_attempt-same :
      (r : Option String) (w : World)
      → ((note_attempt tool r w).runs ≡ w.runs) × ((note_attempt tool r w).receipts ≡ w.receipts)
  note_attempt-same none w = (refl, refl)
  note_attempt-same (some r) w = ground arith

  handler-Ran :
      (w : World)
      → needs_receipt tool q ≡ false
      → MayRun tool q now w.runs w.receipts (run_handler hs tool q w).1
  unfolding run_handler
  handler-Ran w free = inr (
    handler_calls,
    refl,
    calls-CallsOf tool.metadata (hs.attempt tool.handler q.arguments),
    inl (free, refl),
  )

  -- The mark succeeded.
  marked-Ran :
      (lease : ReceiptLease) (w : World) (marked : Result Error (Unit {0}) × Table Receipt)
      → q.idempotency_lease ≡ some lease
      → q.idempotency_key ≡ some lease.key
      → mark_effect_started_sync lease.key lease.owner_token q.name now w.receipts ≡ marked
      → MayRun tool q now w.runs w.receipts (after_mark hs tool q w marked).1
  unfolding run_handler
  marked-Ran lease w (err e, t) held key marked = inl refl
  marked-Ran lease w (ok u, t) held key marked = inr (
    handler_calls,
    refl,
    calls-CallsOf tool.metadata (hs.attempt tool.handler q.arguments),
    inr (lease, held, key, marked),
  )

  mark-Ran :
      (o : Option ReceiptLease) (w : World)
      → q.idempotency_lease ≡ o
      → MayRun tool q now w.runs w.receipts (mark_receipt hs tool q now o w).1
  unfolding mark_receipt
  mark-Ran none w held = inl refl
  mark-Ran (some lease) w held = elim (Bool-cases (col_is q.idempotency_key lease.key)) [
    | inr foreign ↦ inl (ground (arith, foreign))
    | inl mine ↦ rw mine (
        marked-Ran lease w
          (mark_effect_started_sync lease.key lease.owner_token q.name now w.receipts) held
          (col_is_eq q.idempotency_key lease.key mine) refl)
  ]

  pub start-Ran :
      (w : World) → MayRun tool q now w.runs w.receipts (start_handler hs tool q now w).1
  unfolding start_handler
  start-Ran w =
      let w' = note_attempt tool q.run_id w in
      let (same_runs, same_receipts) = note_attempt-same q.run_id w in
      let from = λ (v : World). λ (ran : MayRun tool q now w'.runs w'.receipts v).
        subst (λ xs. MayRun tool q now xs w.receipts v) same_runs
          (subst (λ t. MayRun tool q now w'.runs t v) same_receipts ran) in
      elim (Bool-cases (needs_receipt tool q)) [
        | inl needs ↦
            let same : mark_receipt hs tool q now q.idempotency_lease w'
                ≡ start_handler hs tool q now w =
              ground (arith, needs) in
            subst (λ v. MayRun tool q now w.runs w.receipts v.1) same
              (from (mark_receipt hs tool q now q.idempotency_lease w').1
                (mark-Ran q.idempotency_lease w' refl))
        | inr free ↦
            let same : run_handler hs tool q w' ≡ start_handler hs tool q now w =
              ground (arith, free) in
            subst (λ v. MayRun tool q now w.runs w.receipts v.1) same
              (from (run_handler hs tool q w').1 (handler-Ran w' free))
      ]
