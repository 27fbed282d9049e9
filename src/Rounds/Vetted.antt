-- ===== src/Rounds/Vetted.antt =====
-- services/tool_loop.py: the calls that a round hands to the registry.
use study_loop.Base.{
  Bool-cases, List, Option, String, [], ap, arith, false, inl, inr, is_some, none, refl, some,
  subst, sym, true, ◌&&◌, ◌∙◌, ◌∷◌, ◌≡◌, ◌⊎◌,
}
use study_loop.Json.{Fields}
use study_loop.Rounds.Prepare.{
  Call, GuardAnswer, RoundRequest, allowed, binding_stands, can_bind, guarded, is_control,
}
use study_loop.Rounds.Round.{
  Handling, RoundContext, RoundState, after_dispatch, as_failure, as_policy, dispatch, handle_call,
  handled, invocation, mark_untrusted_observation, observed, refused, reraised,
}
use study_loop.Tools.Admission.{Invocation}
use study_loop.Tools.Invoke.{
  Answer, arguments_invalid, barrier_raised, handler_raised, invoke, policy_violation,
  retry_exhausted, side_effect_ambiguous, text, tool_unknown,
}
use study_loop.Tools.Registry.{ToolRegistry, member}

abbrev pub All {ℓ κ} : {A : Type ℓ} → (A → Type κ) → List A → Type κ
All P [] = Unit
All P (x ∷ xs) = P x × All P xs

module _ (rq : RoundRequest) (g : ToolRegistry) where
  -- A call that is allowed, controls nothing, and passes the guard with its arguments.
  abbrev pub IsVetted : Invocation → Type 0
  IsVetted q =
      (member q.name (allowed rq g) ≡ true)
      × (member q.name rq.control_tools ≡ false)
      × (refused (guarded rq.business_tool_guard q.name q.arguments) ≡ false)

  module _ (cx : RoundContext) where
    observed-dispatches :
        (c : Call) (t : String) (s : RoundState) (o : Option ToolRegistry)
        → (observed c t s o).1.dispatches ≡ s.dispatches
    observed-dispatches c t s none = refl
    observed-dispatches c t s (some h) = refl

    handled-dispatches :
        (c : Call) (s : RoundState) (h : Handling) → (handled c s h).1.dispatches ≡ s.dispatches
    handled-dispatches c s reraised = refl
    handled-dispatches c s (as_policy reason) = refl
    handled-dispatches c s (as_failure name) = refl

    after-dispatches :
        (c : Call) (a : Answer) (s : RoundState)
        → (after_dispatch cx rq c a s).1.dispatches ≡ s.dispatches
    unfolding after_dispatch
    after-dispatches c (text t) s =
        observed-dispatches c t s (mark_untrusted_observation cx.codec rq.run_id t s.world.registry)
    after-dispatches c tool_unknown s = refl
    after-dispatches c arguments_invalid s = refl
    after-dispatches c side_effect_ambiguous s = refl
    after-dispatches c (policy_violation reason) s = refl
    after-dispatches c (barrier_raised e) s = handled-dispatches c s (cx.handling e)
    after-dispatches c (handler_raised e) s = handled-dispatches c s (cx.handling e)
    after-dispatches c (retry_exhausted e) s = handled-dispatches c s (cx.handling e)

    dispatch-dispatches :
        (c : Call) (s : RoundState)
        → (dispatch cx rq c s).1.dispatches ≡ invocation rq c ∷ s.dispatches
    unfolding dispatch
    dispatch-dispatches c s =
        let (a, w) =
          invoke cx.codec.tools cx.handlers cx.before_dispatch (invocation rq c) (cx.now c.id)
            s.world in
        after-dispatches c a (record s { world = w; dispatches = invocation rq c ∷ s.dispatches })

    -- A call is dispatched only past every check.
    abbrev Dispatched : Call → RoundState → Type 0
    Dispatched c s =
        (can_bind rq (allowed rq g) c ≡ true)
        × (refused c.binding_reason ≡ false)
        × ((is_some rq.business_tool_guard && refused c.guard_reason) ≡ false)
        × (handle_call cx rq g c s ≡ dispatch cx rq c s)

    handle-splits :
        (c : Call) (s : RoundState)
        → ((handle_call cx rq g c s).1.dispatches ≡ s.dispatches) ⊎ Dispatched c s
    unfolding handle_call
    handle-splits c s = elim (Bool-cases c.args_error) [
      | inl a ↦ inl (ground (arith, a))
      | inr a ↦ elim (Bool-cases (is_control rq c)) [
        | inl b ↦ inl (ground (arith, a, b))
        | inr b ↦ elim (Bool-cases (member c.name (allowed rq g))) [
          | inr d ↦ inl (ground (arith, a, b, d))
          | inl d ↦ elim (Bool-cases (refused c.binding_reason)) [
            | inl e ↦ inl (ground (arith, a, b, d, e))
            | inr e ↦ elim (Bool-cases (is_some rq.business_tool_guard && refused c.guard_reason)) [
              | inl f ↦ inl (ground (arith, a, b, d, e, f))
              | inr f ↦ elim (Bool-cases (binding_stands rq g s.world.registry c.name)) [
                | inr k ↦ inl (ground (arith, a, b, d, e, f, k))
                | inl k ↦ inr (ground (arith, a, b, d), e, f, ground (arith, a, b, d, e, f, k))
              ]
            ]
          ]
        ]
      ]
    ]

    guard-vets :
        (c : Call) (o : Option (String → Fields → GuardAnswer))
        → rq.business_tool_guard ≡ o
        → (refused c.guard_reason ≡ false
            → refused (guarded rq.business_tool_guard c.name c.args) ≡ false)
        → (is_some rq.business_tool_guard && refused c.guard_reason) ≡ false
        → refused (guarded rq.business_tool_guard c.name c.args) ≡ false
    guard-vets c none e passes h =
        subst (λ o. refused (guarded o c.name c.args) ≡ false) (sym e) refl
    guard-vets c (some f) e passes h = passes (ground (arith, e, h))

    pub handle-vets :
        (c : Call) (s : RoundState)
        → (can_bind rq (allowed rq g) c ≡ true
            → refused c.binding_reason ≡ false
            → refused c.guard_reason ≡ false
            → refused (guarded rq.business_tool_guard c.name c.args) ≡ false)
        → All IsVetted s.dispatches
        → All IsVetted (handle_call cx rq g c s).1.dispatches
    handle-vets c s passes before = elim (handle-splits c s) [
      | inl kept ↦ subst (λ qs. All IsVetted qs) (sym kept) before
      | inr (can, binding, guard, same) ↦
          let now : (handle_call cx rq g c s).1.dispatches ≡ invocation rq c ∷ s.dispatches =
            ap (λ y. y.1.dispatches) same ∙ dispatch-dispatches c s in
          subst (λ qs. All IsVetted qs) (sym now)
            (
              (
                ground (arith, can),
                ground (arith, can),
                guard-vets c rq.business_tool_guard refl (passes can binding) guard,
              ),
              before,
            )
    ]
