-- ===== src/Rounds/Answers.antt =====
-- services/tool_loop.py: the tool messages and the outcomes of a whole round.
use mathlib.Core.List.{append-nil}
use study_loop.Base.{
  Bool-cases, List, Option, String, [], arith, false, inl, inr, is_some, none, refl, some, subst,
  sym, true, ◌&&◌, ◌++◌, ◌∷◌, ◌≡◌,
}
use study_loop.Rounds.Prepare.{Call, RoundRequest, allowed, binding_stands, is_control}
use study_loop.Rounds.Protocol.{
  Adds, Adds-both, Adds-nothing, Replied, all_answered, answered_here, append-Adds, call_ids,
  dispatch-Replied,
}
use study_loop.Rounds.Round.{
  RoundContext, RoundState, Step, append, block_all, block_tool_call, blocked_, control, dispatch,
  hand_back, handle_call, handle_calls, next, reason_text, refused,
}
use study_loop.Rounds.Transcript.{Content, not_listed, refusal}
use study_loop.Tools.Registry.{ToolRegistry, member}

-- Where the calls go on, they have been answered.
abbrev pub Answered : List String → List String → RoundState → Step → Type 0
Answered replies ids s (true, t) = Adds replies ids s t
Answered replies ids s (false, t) = Unit

module _ (cx : RoundContext) (rq : RoundRequest) (g : ToolRegistry) where
  Replied-Answered :
      (c : Call) (s : RoundState) (r : Step) → Replied c s r → Answered (c.id ∷ []) (c.id ∷ []) s r
  Replied-Answered c s (true, t) h = h
  Replied-Answered c s (false, t) h = tt

  hand_back-Answered : (c : Call) (s : RoundState) → Answered [] (c.id ∷ []) s (true, hand_back c s)
  hand_back-Answered c s = (
    [],
    record {
      call_id = c.id;
      name = c.name;
      arguments = c.args;
      kind = control;
      blocked_reason = none;
    }
        ∷ [],
    sym (append-nil s.messages),
    refl,
    refl,
    refl,
  )

  settled :
      (c : Call) (s : RoundState) (xs : List String) (r : Step)
      → r ≡ handle_call cx rq g c s
      → xs ≡ answered_here rq c
      → Answered xs (c.id ∷ []) s r
      → Answered (answered_here rq c) (c.id ∷ []) s (handle_call cx rq g c s)
  settled c s xs r same here h =
      subst (λ y. Answered (answered_here rq c) (c.id ∷ []) s y) same
        (subst (λ ys. Answered ys (c.id ∷ []) s r) here h)

  blocked-Answered :
      (c : Call) (s : RoundState) (content : Content) (reason : Option String)
      → (true, append c content blocked_ reason s) ≡ handle_call cx rq g c s
      → c.id ∷ [] ≡ answered_here rq c
      → Answered (answered_here rq c) (c.id ∷ []) s (handle_call cx rq g c s)
  blocked-Answered c s content reason same here =
      settled c s (c.id ∷ []) (true, append c content blocked_ reason s) same here
        (append-Adds c content blocked_ reason s s refl refl)

  handle-Answered :
      (c : Call) (s : RoundState)
      → Answered (answered_here rq c) (c.id ∷ []) s (handle_call cx rq g c s)
  unfolding handle_call
  handle-Answered c s = elim (Bool-cases c.args_error) [
    | inl a ↦
        blocked-Answered c s (refusal "object" "invalid_tool_arguments")
          (some "invalid_tool_arguments") (ground (arith, a)) (ground (arith, a))
    | inr a ↦ elim (Bool-cases (is_control rq c)) [
      | inl b ↦
          settled c s [] (true, hand_back c s) (ground (arith, a, b)) (ground (arith, a, b))
            (hand_back-Answered c s)
      | inr b ↦
          let here : c.id ∷ [] ≡ answered_here rq c = ground (arith, a, b) in
          elim (Bool-cases (member c.name (allowed rq g))) [
            | inr d ↦
                blocked-Answered c s not_listed (some "not_in_whitelist") (ground (arith, a, b, d))
                  here
            | inl d ↦ elim (Bool-cases (refused c.binding_reason)) [
              | inl e ↦
                  blocked-Answered c s (refusal "binding" (reason_text c.binding_reason))
                    (some (reason_text c.binding_reason)) (ground (arith, a, b, d, e)) here
              | inr e ↦
                  elim (Bool-cases (is_some rq.business_tool_guard && refused c.guard_reason)) [
                    | inl f ↦
                        blocked-Answered c s (refusal "scope" (reason_text c.guard_reason))
                          (some (reason_text c.guard_reason)) (ground (arith, a, b, d, e, f)) here
                    | inr f ↦ elim (Bool-cases (binding_stands rq g s.world.registry c.name)) [
                      | inr k ↦
                          blocked-Answered c s (refusal "binding" "replay_safety_binding_changed")
                            (some "replay_safety_binding_changed")
                            (ground (arith, a, b, d, e, f, k)) here
                      | inl k ↦
                          settled c s (c.id ∷ []) (dispatch cx rq c s)
                            (ground (arith, a, b, d, e, f, k)) here
                            (Replied-Answered c s (dispatch cx rq c s)
                              (dispatch-Replied cx rq g c s))
                    ]
                  ]
            ]
          ]
    ]
  ]

  next-Answered :
      (xs ys is js : List String) (s : RoundState) (rest : RoundState → Step) (r : Step)
      → Answered xs is s r
      → ((t : RoundState) → Answered ys js t (rest t))
      → Answered (xs ++ ys) (is ++ js) s (next rest r)
  next-Answered xs ys is js s rest (false, t) h all = tt
  next-Answered xs ys is js s rest (true, t) h all = last (rest t) (all t)
    where
      last : (r : Step) → Answered ys js t r → Answered (xs ++ ys) (is ++ js) s r
      last (true, u) k = Adds-both xs ys is js s t u h k
      last (false, u) k = tt

  pub calls-Answered :
      (cs : List Call) (s : RoundState)
      → Answered (all_answered rq cs) (call_ids cs) s (handle_calls cx rq g cs s)
  unfolding handle_calls
  calls-Answered [] s = Adds-nothing s
  calls-Answered (c ∷ cs) s =
      next-Answered (answered_here rq c) (all_answered rq cs) (c.id ∷ []) (call_ids cs) s
        (handle_calls cx rq g cs) (handle_call cx rq g c s) (handle-Answered c s)
        (λ t. calls-Answered cs t)

  pub block_all-Adds :
      (cs : List Call) (s : RoundState) → Adds (call_ids cs) (call_ids cs) s (block_all cs s)
  unfolding block_all
  block_all-Adds [] s = Adds-nothing s
  block_all-Adds (c ∷ cs) s =
      let t = block_tool_call c "control" "mixed_control_batch_rejected" s in
      Adds-both (c.id ∷ []) (call_ids cs) (c.id ∷ []) (call_ids cs) s t (block_all cs t)
        (append-Adds c (refusal "control" "mixed_control_batch_rejected") blocked_
          (some "mixed_control_batch_rejected") s s refl refl)
        (block_all-Adds cs t)
