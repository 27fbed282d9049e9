-- ===== src/Tools/Once.antt =====
-- services/tool_registry.py: a reserved effect among the tasks of a run.
use study_loop.Base.{
  Bool, Bool-cases, List, Option, Option-cases, String, [], arith, eq_iff, false, inl, inr, none,
  refl, some, subst, suc, true, zero, ℕ, ◌+◌, ◌∷◌, ◌≡◌, ◌≤◌,
}
use study_loop.Json.{Json, arr}
use study_loop.Table.{put}
use study_loop.Tools.Admission.{
  Admission, Invocation, admit, admitted, invalid_arguments, unknown_tool, violation,
}
use study_loop.Tools.Invoke.{release}
use study_loop.Tools.Registry.{
  Reservation, Tool, ToolRegistry, clear_run_policy_state, mark_run_untrusted_content,
  policy_run_id_ok, register, reservations_of, reserved, unregister,
}
use study_loop.Tools.Reservations.{ToolCodec, restore_run_policy_state}
use study_loop.Tools.Reserves.{Reserves, admit-Reserves}
use study_loop.Tools.Sets.{
  cleared-reservations_of, mark-same, release-reservations_of, reservations_of-put,
  reserved-release_from, restore_items-keeps, unregister-same,
}
use study_loop.Tools.Tasks.{
  Event, Pool, Task, barrier_passes, barrier_raises, call, cleared, clears, holders, join,
  marked_untrusted, never_cleared, or_same, pass_in, pick, play, raise_in, register_tool, restored,
  step, unregister_tool,
}

holders-pick :
    (run_id : String) (x : Reservation) (n : ℕ) (ts : List Task) (t : Task) (rest : List Task)
    → pick n ts ≡ some (t, rest)
    → holders run_id x ts ≡ holders run_id x (t ∷ rest)
unfolding pick holders
holders-pick run_id x n [] t rest e = absurd (ground (arith, e))
holders-pick run_id x zero (u ∷ us) t rest e = ground (arith, e)
holders-pick run_id x (suc n) (u ∷ us) t rest e = elim (Option-cases (pick n us)) [
  | inl out ↦ absurd (ground (arith, e, out))
  | inr ((t', rest'), found) ↦
      let ih = holders-pick run_id x n us t' rest' found in
      let first : t' ≡ t = ground (arith, e, found) in
      let others : u ∷ rest' ≡ rest = ground (arith, e, found) in
      subst (λ v. holders run_id x (u ∷ us) ≡ holders run_id x (v ∷ rest)) first
        (subst (λ vs. holders run_id x (u ∷ us) ≡ holders run_id x (t' ∷ vs)) others
          (ground (arith, ih)))
]

-- At most one task of a run kept a reservation, and none does that is not reserved.
abbrev bound : Bool → ℕ
bound true = 1
bound false = 0

module _ (run_id : String) (x : Reservation) where
  abbrev IsOnce : Pool → Type 0
  IsOnce p =
      holders run_id x p.waiting + holders run_id x p.passed
      ≤ bound (reserved x (reservations_of run_id p.registry))

  -- Nothing but the reservations of the run matters.
  IsOnce-grows :
      (p : Pool) (g : ToolRegistry)
      → (reserved x (reservations_of run_id p.registry) ≡ true
          → reserved x (reservations_of run_id g) ≡ true)
      → IsOnce p
      → IsOnce (record p { registry = g })
  IsOnce-grows p g grows once = elim (Bool-cases (reserved x (reservations_of run_id p.registry))) [
    | inl was ↦ ground (arith, once, was, grows was)
    | inr not_ ↦ ground (arith, once, not_)
  ]

  IsOnce-same :
      (p : Pool) (g : ToolRegistry)
      → g.run_effect_digests ≡ p.registry.run_effect_digests
      → IsOnce p
      → IsOnce (record p { registry = g })
  unfolding reservations_of
  IsOnce-same p g same once = IsOnce-grows p g (λ was. ground (arith, was, same)) once

  idle-IsOnce :
      (p : Pool) (q : Invocation) (tool : Tool) (g : ToolRegistry)
      → g.run_effect_digests ≡ p.registry.run_effect_digests
      → IsOnce p
      → IsOnce (join q (admitted tool none, g) p)
  unfolding holders
  idle-IsOnce p q tool g same once = ground (arith, IsOnce-same p g same once)

  taken-IsOnce :
      (p : Pool) (q : Invocation) (tool : Tool) (y : Reservation) (g : ToolRegistry) (r : String)
      → q.run_id ≡ some r
      → g.run_effect_digests
        ≡ put r (y ∷ reservations_of r p.registry) p.registry.run_effect_digests
      → reserved y (reservations_of r p.registry) ≡ false
      → IsOnce p
      → IsOnce (join q (admitted tool (some y), g) p)
  unfolding holders reserved
  taken-IsOnce p q tool y g r here digests new once = ground (
    arith,
    once,
    here,
    new,
    reservations_of-put run_id x r (y ∷ reservations_of r p.registry) p.registry g digests,
    eq_iff r run_id,
    eq_iff y.0 x.0,
    eq_iff y.1 x.1,
  )

  join-IsOnce :
      (p : Pool) (q : Invocation) (r : Admission × ToolRegistry)
      → Reserves q p.registry r
      → IsOnce p
      → IsOnce (join q r p)
  join-IsOnce p q (unknown_tool, g) w once = elim w [
    | inl (same, not_) ↦ IsOnce-same p g same once
    | inr (t, z, r, here, a, digests, new) ↦ absurd (cc a)
  ]
  join-IsOnce p q (invalid_arguments, g) w once = elim w [
    | inl (same, not_) ↦ IsOnce-same p g same once
    | inr (t, z, r, here, a, digests, new) ↦ absurd (cc a)
  ]
  join-IsOnce p q (violation reason, g) w once = elim w [
    | inl (same, not_) ↦ IsOnce-same p g same once
    | inr (t, z, r, here, a, digests, new) ↦ absurd (cc a)
  ]
  join-IsOnce p q (admitted tool none, g) w once = elim w [
    | inl (same, not_) ↦ idle-IsOnce p q tool g same once
    | inr (t, z, r, here, a, digests, new) ↦ absurd (ground (arith, a))
  ]
  join-IsOnce p q (admitted tool (some y), g) w once = elim w [
    | inl (same, not_) ↦ absurd (not_ tool y refl)
    | inr (t, z, r, here, a, digests, new) ↦
        let e : z ≡ y = ground (arith, a) in
        taken-IsOnce p q tool y g r here
          (subst
            (λ v.
              g.run_effect_digests
              ≡ put r (v ∷ reservations_of r p.registry) p.registry.run_effect_digests)
            e digests)
          (subst (λ v. reserved v (reservations_of r p.registry) ≡ false) e new) once
  ]

  released-IsOnce :
      (p : Pool) (t : Task) (rest : List Task) (o : Option String) (y : Option Reservation)
      → t.run_id ≡ o
      → t.reservation ≡ y
      → holders run_id x p.waiting ≡ holders run_id x (t ∷ rest)
      → IsOnce p
      → IsOnce (record p { registry = release o y p.registry; waiting = rest })
  unfolding holders
  released-IsOnce p t rest none y here kept split once = ground (arith, split, once)
  released-IsOnce p t rest (some r) none here kept split once = ground (arith, split, once)
  released-IsOnce p t rest (some r) (some y) here kept split once = ground (
    arith,
    split,
    once,
    here,
    kept,
    release-reservations_of run_id x r y p.registry,
    reserved-release_from y x (reservations_of run_id p.registry),
  )

  raises-IsOnce : (p : Pool) (n : ℕ) → IsOnce p → IsOnce (raise_in (pick n p.waiting) p)
  raises-IsOnce p n once = elim (Option-cases (pick n p.waiting)) [
    | inl out ↦ ground (arith, once, out)
    | inr ((t, rest), found) ↦
        let same : raise_in (some (t, rest)) p ≡ raise_in (pick n p.waiting) p =
          ground (arith, found) in
        subst (λ v. IsOnce v) same
          (released-IsOnce p t rest t.run_id t.reservation refl refl
            (holders-pick run_id x n p.waiting t rest found) once)
  ]

  passes-IsOnce : (p : Pool) (n : ℕ) → IsOnce p → IsOnce (pass_in (pick n p.waiting) p)
  unfolding holders
  passes-IsOnce p n once = elim (Option-cases (pick n p.waiting)) [
    | inl out ↦ ground (arith, once, out)
    | inr ((t, rest), found) ↦
        ground (arith, once, found, holders-pick run_id x n p.waiting t rest found)
  ]

  or_same-IsOnce :
      (p : Pool) (o : Option ToolRegistry)
      → ((g : ToolRegistry) → o ≡ some g → IsOnce (record p { registry = g }))
      → IsOnce p
      → IsOnce (record p { registry = or_same o p.registry })
  or_same-IsOnce p none all once = once
  or_same-IsOnce p (some g) all once = all g refl

  restores-IsOnce :
      (p : Pool) (r : String) (j : Json) (g : ToolRegistry)
      → restore_run_policy_state r j p.registry ≡ some g
      → IsOnce p
      → IsOnce (record p { registry = g })
  unfolding restore_run_policy_state
  restores-IsOnce p r (arr xs) g e once = elim (Bool-cases (policy_run_id_ok r)) [
    | inl good ↦
        IsOnce-grows p g (restore_items-keeps run_id x r xs p.registry g (ground (arith, e, good)))
          once
    | inr bad ↦ absurd (ground (arith, e, bad))
  ]
  restores-IsOnce p r _ g e once = absurd (ground (arith, e))

  step-IsOnce :
      (cx : ToolCodec) (p : Pool) (e : Event)
      → clears run_id e ≡ false
      → IsOnce p
      → IsOnce (step cx p e)
  unfolding step
  step-IsOnce cx p (register_tool tool) c once =
      IsOnce-same p (register tool p.registry) (unfold register in refl) once
  step-IsOnce cx p (unregister_tool name o) c once =
      IsOnce-same p (unregister name o p.registry).1 (unregister-same run_id x name o p.registry)
        once
  step-IsOnce cx p (call q) c once =
      join-IsOnce p q (admit cx q p.registry) (admit-Reserves cx q p.registry) once
  step-IsOnce cx p (barrier_raises n) c once = raises-IsOnce p n once
  step-IsOnce cx p (barrier_passes n) c once = passes-IsOnce p n once
  step-IsOnce cx p (marked_untrusted r) c once =
      or_same-IsOnce p (mark_run_untrusted_content r p.registry)
        (λ g e. IsOnce-same p g (mark-same run_id x r p.registry g e) once) once
  step-IsOnce cx p (restored r j) c once =
      or_same-IsOnce p (restore_run_policy_state r j p.registry)
        (λ g e. restores-IsOnce p r j g e once) once
  step-IsOnce cx p (cleared r) c once =
      IsOnce-grows p (clear_run_policy_state r p.registry)
        (λ was. cleared-reservations_of run_id x r p.registry c was) once

  play-IsOnce :
      (cx : ToolCodec) (es : List Event) (p : Pool)
      → never_cleared run_id es ≡ true
      → IsOnce p
      → IsOnce (play cx p es)
  unfolding play never_cleared
  play-IsOnce cx [] p c once = once
  play-IsOnce cx (e ∷ es) p c once =
      play-IsOnce cx es (step cx p e) (ground (arith, c))
        (step-IsOnce cx p e (ground (arith, c)) once)

-- However the tasks of an event loop interleave, and whatever tools are registered, replaced or removed
-- between their steps: among the calls of one run that reserve the same effect, at most one passes its
-- barrier, as long as the policy state of the run is not cleared.
pub effect_passes_once :
    (cx : ToolCodec) (g : ToolRegistry) (es : List Event) (run_id : String) (x : Reservation)
    → never_cleared run_id es ≡ true
    → holders run_id x (play cx (record { registry = g; waiting = []; passed = [] }) es).passed ≤ 1
unfolding holders
effect_passes_once cx g es run_id x kept =
    let start : Pool = record { registry = g; waiting = []; passed = [] } in
    let once = play-IsOnce run_id x cx es start kept (ground arith) in ground (arith, once)
