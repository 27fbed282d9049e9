-- ===== src/Tools/Invocations.antt =====
-- services/tool_registry.py with services/idempotency.py: a whole call of `invoke`.
use study_loop.Base.{
  List, Option, String, ap, arith, false, inl, inr, none, refl, some, subst, sym, true, ℕ, ◌≡◌, ◌≢◌,
  ◌⊎◌,
}
use study_loop.Base.Result.{ok}
use study_loop.Receipts.Begin.{begin_sync}
use study_loop.Receipts.History.{Call, run}
use study_loop.Receipts.Owner.{mark_effect_started_sync}
use study_loop.Receipts.Receipt.{Receipt, ReceiptLease, Request, granted}
use study_loop.Receipts.Sealed.{effect_starts_once}
use study_loop.Table.{Table, find}
use study_loop.Tools.Admission.{
  Admission, Invocation, admit, admitted, invalid_arguments, unknown_tool, violation,
}
use study_loop.Tools.Effects.{MayRun, Ran, start-Ran}
use study_loop.Tools.Invoke.{
  Barrier, Handlers, World, after_admission, after_barrier, invoke, needs_receipt,
}
use study_loop.Tools.Owners.{Admitted, admit-Admitted}
use study_loop.Tools.Registry.{Reservation, Tool}
use study_loop.Tools.Reservations.{ToolCodec}
use study_loop.Tools.Retry.{Fault}

marked_closes :
    (lease_seconds : ℕ) (r : Request) (key owner tool : String) (now : ℕ) (t t' : Table Receipt)
    (cs : List (ℕ × Call)) (new_owner recovery : String) (at : ℕ) (lease : ReceiptLease)
    → key ≡ r.key
    → mark_effect_started_sync key owner tool now t ≡ (ok tt, t')
    → (begin_sync (λ u. u) at lease_seconds r new_owner recovery at (run lease_seconds t' cs)).0
      ≢ ok (granted lease)
marked_closes lease_seconds r key owner tool now t t' cs new_owner recovery at lease same e =
    let e' : mark_effect_started_sync r.key owner tool now t ≡ (ok tt, t') =
      subst (λ k. mark_effect_started_sync k owner tool now t ≡ (ok tt, t')) same e in
    subst
      (λ u.
        (begin_sync (λ u. u) at lease_seconds r new_owner recovery at (run lease_seconds u cs)).0
        ≢ ok (granted lease))
      (ap (λ p. p.1) e')
      (effect_starts_once lease_seconds t cs r owner tool now new_owner recovery at lease
        (ap (λ p. p.0) e'))

module _ (cx : ToolCodec) (hs : Handlers) (barrier : Barrier) (q : Invocation) (now : ℕ)
    (w : World) where
  -- What the barrier leaves.
  abbrev pub at_barrier : World
  at_barrier = (barrier (record w { registry = (admit cx q w.registry).1 })).1

  barrier-Ran :
      (tool : Tool) (x : Option Reservation) (b : Option Fault × World)
      → MayRun tool q now b.1.runs b.1.receipts (after_barrier hs tool x q now b).1
  barrier-Ran tool x (some e, v) = inl refl
  barrier-Ran tool x (none, v) = start-Ran hs tool q now v

  abbrev pub Runs : World → Type 0
  Runs w' =
      (w'.runs ≡ w.runs)
      ⊎ (w'.runs ≡ at_barrier.runs)
      ⊎ ((tool : Tool) × (find q.name w.registry.tools ≡ some tool)
          × Admitted cx q w.registry tool
          × Ran tool q now at_barrier.runs at_barrier.receipts w')

  admitted-Runs :
      (a : Admission)
      → (admit cx q w.registry).0 ≡ a
      → Runs (after_admission hs barrier q now w (a, (admit cx q w.registry).1)).1
  admitted-Runs unknown_tool e = inl refl
  admitted-Runs invalid_arguments e = inl refl
  admitted-Runs (violation reason) e = inl refl
  admitted-Runs (admitted tool x) e =
      let (there, admitted_) = admit-Admitted cx q w.registry tool x e in
      elim (barrier-Ran tool x (barrier (record w { registry = (admit cx q w.registry).1 }))) [
        | inl kept ↦ inr (inl kept)
        | inr ran ↦ inr (inr (tool, there, admitted_, ran))
      ]

  -- Whatever a call of `invoke` is answered with: it runs no handler, or it adds one run to those that the
  -- other tasks have made before the barrier is passed. Then the tool is the registered one, its owner
  -- argument is the user of the call, a tool whose effect cannot be replayed is not run in a tainted run
  -- and is called exactly once, another at most `max_retries + 1` times, and under an idempotency key such
  -- an effect was marked in the receipt that the caller holds.
  pub invoke-Runs : Runs (invoke cx hs barrier q now w).1
  unfolding invoke
  invoke-Runs = admitted-Runs (admit cx q w.registry).0 refl

  -- Once a call under an idempotency key has run a handler whose effect cannot be replayed, no `begin` of
  -- that key is granted a lease again, after any history of calls of the store.
  pub effect_closes_key :
      (r : Request) (tool : Tool) (lease_seconds : ℕ) (cs : List (ℕ × Call))
      (new_owner recovery : String) (at : ℕ) (lease : ReceiptLease)
      → find q.name w.registry.tools ≡ some tool
      → needs_receipt tool q ≡ true
      → q.idempotency_key ≡ some r.key
      → (invoke cx hs barrier q now w).1.runs ≢ w.runs
      → (invoke cx hs barrier q now w).1.runs ≢ at_barrier.runs
      → (begin_sync
          (λ u. u)
          at
          lease_seconds
          r
          new_owner
          recovery
          at
          (run lease_seconds (invoke cx hs barrier q now w).1.receipts cs)).0
        ≢ ok (granted lease)
  effect_closes_key r tool lease_seconds cs new_owner recovery at lease there needs key grew ran =
      elim invoke-Runs [
        | inl e ↦ absurd (grew e)
        | inr (inl e) ↦ absurd (ran e)
        | inr (inr (tool', there', admitted_, (calls, added, often, marked))) ↦ elim marked [
          | inl (free, kept) ↦
              let same : tool ≡ tool' = ground (arith, there, there') in
              absurd (ground (arith, needs, subst (λ y. needs_receipt y q ≡ false) (sym same) free))
          | inr (lease', held, key', mark) ↦
              marked_closes lease_seconds r lease'.key lease'.owner_token q.name now
                at_barrier.receipts (invoke cx hs barrier q now w).1.receipts cs new_owner recovery
                at lease (ground (arith, key, key')) mark
        ]
      ]
