-- ===== src/Tools/Reserves.antt =====
-- services/tool_registry.py: what the admission of a call does to the reservations of its run.
use study_loop.Base.{
  Bool-cases, Option, Option-cases, String, arith, false, inl, inr, leb, length, none, refl, some,
  subst, ◌∷◌, ◌≡◌, ◌≢◌, ◌⊎◌,
}
use study_loop.Table.{find, put}
use study_loop.Tools.Admission.{
  Admission, Invocation, admit, admit_effect, admit_owned, admit_tool, admitted, binding_error,
  block, call_record, invalid_arguments, owner_fault, reserve_effect, tainted, unknown_tool,
}
use study_loop.Tools.Registry.{
  Reservation, Tool, ToolCallRecord, ToolRegistry, error, policy_max_reservations, reservations_of,
  reserved, unknown, write_record,
}
use study_loop.Tools.Reservations.{ToolCodec, dedupes, semantic_reservation}

-- A call reserves nothing, or its run gains one new reservation, which the call then holds.
abbrev pub Reserves : Invocation → ToolRegistry → Admission × ToolRegistry → Type 0
Reserves q g (a, g') =
    ((g'.run_effect_digests ≡ g.run_effect_digests)
      × ((t : Tool) (x : Reservation) → a ≢ admitted t (some x)))
    ⊎ ((t : Tool) × (x : Reservation) × (r : String) × (q.run_id ≡ some r)
        × (a ≡ admitted t (some x))
        × (g'.run_effect_digests ≡ put r (x ∷ reservations_of r g) g.run_effect_digests)
        × (reserved x (reservations_of r g) ≡ false))

module _ (cx : ToolCodec) (q : Invocation) (g : ToolRegistry) where
  block-Reserves : (tool : Tool) (reason : String) → Reserves q g (block tool q reason g)
  unfolding write_record
  block-Reserves tool reason = inl (refl, λ t x e. cc)

  reserve-Reserves :
      (tool : Tool) (r : String) (x : Option Reservation)
      → q.run_id ≡ some r
      → Reserves q g (reserve_effect tool q r x g)
  unfolding reserve_effect
  reserve-Reserves tool r none here = block-Reserves tool "invalid_dedupe_arguments"
  reserve-Reserves tool r (some x) here = elim (Bool-cases (reserved x (reservations_of r g))) [
    | inl old ↦ rw old (block-Reserves tool "duplicate_within_run")
    | inr new ↦ elim (Bool-cases (leb policy_max_reservations (length (reservations_of r g)))) [
      | inl full ↦
          let same : block tool q "run_policy_reservation_limit" g
              ≡ reserve_effect tool q r (some x) g =
            ground (arith, new, full) in
          subst (λ v. Reserves q g v) same (block-Reserves tool "run_policy_reservation_limit")
      | inr room ↦
          let same : (
            admitted tool (some x),
            record g { run_effect_digests = put r (x ∷ reservations_of r g) g.run_effect_digests },
          )
              ≡ reserve_effect tool q r (some x) g =
            ground (arith, new, room) in
          subst (λ v. Reserves q g v) same (inr (tool, x, r, here, refl, refl, new))
    ]
  ]

  effect-Reserves :
      (tool : Tool) (r : Option String) → q.run_id ≡ r → Reserves q g (admit_effect cx tool q r g)
  unfolding admit_effect
  effect-Reserves tool none here = inl (refl, λ t x e. cc)
  effect-Reserves tool (some r) here = elim (Bool-cases (dedupes tool.metadata)) [
    | inl once ↦ rw once (reserve-Reserves tool r (semantic_reservation cx tool q.arguments g) here)
    | inr free ↦ rw free (inl (refl, λ t x e. cc))
  ]

  owned-Reserves : (tool : Tool) → Reserves q g (admit_owned cx tool q g)
  unfolding admit_owned
  owned-Reserves tool = elim (Option-cases (owner_fault tool.metadata.owner_argument q)) [
    | inr (reason, bad) ↦
        let same : block tool q reason g ≡ admit_owned cx tool q g = ground (arith, bad) in
        subst (λ v. Reserves q g v) same (block-Reserves tool reason)
    | inl owned ↦ elim (Bool-cases (tainted tool q g)) [
      | inl bad ↦
          let same : block tool q "untrusted_content_taint" g ≡ admit_owned cx tool q g =
            ground (arith, owned, bad) in
          subst (λ v. Reserves q g v) same (block-Reserves tool "untrusted_content_taint")
      | inr clean ↦
          let same : admit_effect cx tool q q.run_id g ≡ admit_owned cx tool q g =
            ground (arith, owned, clean) in
          subst (λ v. Reserves q g v) same (effect-Reserves tool q.run_id refl)
    ]
  ]

  error-Reserves :
      (a : Admission) (r : ToolCallRecord)
      → ((t : Tool) (x : Reservation) → a ≢ admitted t (some x))
      → Reserves q g (a, write_record r g)
  unfolding write_record
  error-Reserves a r not_ = inl (refl, not_)

  pub admit-Reserves : Reserves q g (admit cx q g)
  unfolding admit admit_tool
  admit-Reserves = elim (Option-cases (find q.name g.tools)) [
    | inl absent ↦
        let same : (
          unknown_tool,
          write_record (call_record q unknown error (some "unknown_tool") 0) g,
        )
            ≡ admit cx q g =
          ground (arith, absent) in
        subst (λ v. Reserves q g v) same
          (error-Reserves unknown_tool (call_record q unknown error (some "unknown_tool") 0)
            (λ t x e. cc))
    | inr (tool, there) ↦ elim (Option-cases (binding_error tool q.arguments)) [
      | inr (m, bad) ↦
          let r = call_record q tool.metadata.effect_mode error (some m) 0 in
          let same : (invalid_arguments, write_record r g) ≡ admit cx q g =
            ground (arith, there, bad) in
          subst (λ v. Reserves q g v) same (error-Reserves invalid_arguments r (λ t x e. cc))
      | inl fits ↦
          let same : admit_owned cx tool q g ≡ admit cx q g = ground (arith, there, fits) in
          subst (λ v. Reserves q g v) same (owned-Reserves tool)
    ]
  ]
