-- ===== src/Rounds/Guarded.antt =====
-- services/tool_loop.py: the guard and the arguments of a prepared call.
use study_loop.Base.{
  Bool-cases, List, Option, Option-cases, String, [], ap, arith, false, false≢true, inl, inr, none,
  refl, some, subst, sym, true, ◌∙◌, ◌∷◌, ◌≡◌,
}
use study_loop.Json.{Fields, Json}
use study_loop.Rounds.Prepare.{
  Call, RoundRequest, allowed, bind_call, binding_stands, bindings_of, can_bind, guarded, prepare,
}
use study_loop.Rounds.Round.{refused}
use study_loop.Rounds.Transcript.{
  LoopCodec, apply_argument_bindings, apply_bindings, bind_value, nonempty, path_parts, sourced,
}
use study_loop.Table.{Table, find}
use study_loop.Tools.Registry.{ToolArgumentBinding, ToolRegistry}

unbound_value :
    (parts : List String) (v : Option Json) (fs : Fields) (bound : List (List String))
    → nonempty (bind_value parts v (fs, bound)).1 ≡ false
    → bind_value parts v (fs, bound) ≡ (fs, bound)
unbound_value [] v fs bound e = refl
unbound_value (p ∷ ps) none fs bound e = refl
unbound_value (p ∷ ps) (some v) fs bound e = ground (arith, e)

-- Paths that are bound stay bound.
value-nonempty :
    (parts : List String) (v : Option Json) (state : Fields × List (List String))
    → nonempty (bind_value parts v state).1 ≡ false
    → nonempty state.1 ≡ false
value-nonempty [] v (fs, bound) e = e
value-nonempty (p ∷ ps) none (fs, bound) e = e
value-nonempty (p ∷ ps) (some v) (fs, bound) e = ground (arith, e)

unbound :
    (cx : LoopCodec) (bs : List ToolArgumentBinding) (results : Table Json)
    (state : Fields × List (List String))
    → nonempty (apply_bindings cx bs results state).1 ≡ false
    → apply_bindings cx bs results state ≡ state
unfolding apply_bindings
unbound cx [] results state e = refl
unbound cx (b ∷ bs) results (fs, bound) e =
    let parts = path_parts b.target_argument in
    let v = sourced cx b.source_path (find b.source_tool results) in
    let rest = unbound cx bs results (bind_value parts v (fs, bound)) e in
    let none_ : nonempty (bind_value parts v (fs, bound)).1 ≡ false =
      subst (λ y. nonempty y.1 ≡ false) rest e in
    rest ∙ unbound_value parts v fs bound none_

unbound_args :
    (cx : LoopCodec) (bs : List ToolArgumentBinding) (results : Table Json) (fs : Fields)
    → (apply_argument_bindings cx bs results fs).1 ≡ false
    → (apply_argument_bindings cx bs results fs).0 ≡ fs
unfolding apply_argument_bindings
unbound_args cx bs results fs e = ap (λ y. y.0) (unbound cx bs results (fs, []) e)

module _ (cx : LoopCodec) (rq : RoundRequest) (g h : ToolRegistry) (results : Table Json) where
  -- The guard lets the arguments of a call pass.
  abbrev pub Passes : Call → Type 0
  Passes c = refused (guarded rq.business_tool_guard c.name c.args) ≡ false

  bind_call-Passes :
      (c : Call)
      → refused (bind_call cx rq h results false c).guard_reason ≡ false
      → Passes (bind_call cx rq h results false c)
  unfolding bind_call
  bind_call-Passes c e = elim (Option-cases (guarded rq.business_tool_guard c.name c.args)) [
    | inr (reason, bad) ↦ ground (arith, e, bad)
    | inl good ↦
        elim (Bool-cases
          (apply_argument_bindings cx (bindings_of (find c.name h.tools)) results c.args).1) [
            | inl bound ↦ ground (arith, e, good, bound)
            | inr free ↦ ground (
              arith,
              e,
              good,
              free,
              unbound_args cx (bindings_of (find c.name h.tools)) results c.args free,
            )
          ]
  ]

  pub prepare-Passes :
      (c : Call)
      → can_bind rq (allowed rq g) (prepare cx rq g h results false c) ≡ true
      → refused (prepare cx rq g h results false c).binding_reason ≡ false
      → refused (prepare cx rq g h results false c).guard_reason ≡ false
      → Passes (prepare cx rq g h results false c)
  unfolding prepare
  prepare-Passes c can binding guard = elim (Bool-cases (can_bind rq (allowed rq g) c)) [
    | inr cannot ↦
        let same : prepare cx rq g h results false c ≡ c = ground (arith, cannot) in
        let can' : can_bind rq (allowed rq g) c ≡ true =
          subst (λ y. can_bind rq (allowed rq g) y ≡ true) same can in
        absurd (false≢true (sym cannot ∙ can'))
    | inl fits ↦ elim (Bool-cases (binding_stands rq g h c.name)) [
      | inr moved ↦
          let same : prepare cx rq g h results false c
              ≡ record c { binding_reason = some "replay_safety_binding_changed" } =
            ground (arith, fits, moved) in
          let binding' : refused (some "replay_safety_binding_changed") ≡ false =
            subst (λ y. refused y.binding_reason ≡ false) same binding in
          absurd (false≢true (sym binding'))
      | inl stands ↦
          let same : bind_call cx rq h results false c ≡ prepare cx rq g h results false c =
            ground (arith, fits, stands) in
          subst (λ y. Passes y) same
            (bind_call-Passes c (subst (λ y. refused y.guard_reason ≡ false) (sym same) guard))
    ]
  ]
