-- ===== src/Tools/Owners.antt =====
-- services/tool_registry.py: what an admitted call satisfies.
use study_loop.Base.{
  Bool-cases, Option, Option-cases, String, arith, eq_iff, false, inl, inr, none, refl, some,
  str_eq, subst, sym, true, ◌≡◌, ◌⊎◌,
}
use study_loop.Json.{Json, str}
use study_loop.Scope.{argument}
use study_loop.Table.{find}
use study_loop.Tools.Admission.{
  Invocation, admit, admit_effect, admit_owned, admit_tool, admitted, binding_error, bound_owner,
  in_run, owner_fault, reserve_effect, tainted,
}
use study_loop.Tools.Registry.{Reservation, Tool, ToolRegistry, non_replayable}
use study_loop.Tools.Reservations.{ToolCodec, dedupes, semantic_reservation}

-- The owner argument of a tool is the user of the call.
abbrev pub OwnerIsUser : Tool → Invocation → Type 0
OwnerIsUser tool q =
    (tool.metadata.owner_argument ≡ none)
    ⊎ ((o : String) × (tool.metadata.owner_argument ≡ some o)
        × ((str_eq o "" ≡ true)
            ⊎ ((u : String) × (q.user_id ≡ some u) × (argument o q.arguments ≡ some (str u)))))

bound_owner-some :
    (user_id : Option String) (v : Option Json)
    → bound_owner user_id v ≡ none
    → (u : String) × (user_id ≡ some u) × (v ≡ some (str u))
bound_owner-some none v e = absurd (ground (arith, e))
bound_owner-some (some u) (some (str s)) e = (u, refl, ground (arith, e, eq_iff s u))
bound_owner-some (some u) none e = absurd (ground (arith, e))
bound_owner-some (some u) (some _) e = absurd (ground (arith, e))

owner_fault-none :
    (q : Invocation) (owner : Option String)
    → owner_fault owner q ≡ none
    → (owner ≡ none)
      ⊎ ((o : String) × (owner ≡ some o)
          × ((str_eq o "" ≡ true)
              ⊎ ((u : String) × (q.user_id ≡ some u) × (argument o q.arguments ≡ some (str u)))))
unfolding owner_fault
owner_fault-none q none e = inl refl
owner_fault-none q (some o) e = elim (Bool-cases (str_eq o "")) [
  | inl blank_ ↦ inr (o, refl, inl blank_)
  | inr named_ ↦ inr (
    o,
    refl,
    inr (bound_owner-some q.user_id (argument o q.arguments) (ground (arith, e, named_))),
  )
]

-- Admission looks at the owner, at the taint of the run and at nothing that has run.
module _ (cx : ToolCodec) (q : Invocation) (g : ToolRegistry) where
  abbrev pub Admitted : Tool → Type 0
  Admitted tool =
      OwnerIsUser tool q
      × ((non_replayable tool.metadata.effect_mode ≡ false)
          ⊎ (in_run q.run_id g.run_untrusted_content ≡ false))

  untainted :
      (tool : Tool)
      → tainted tool q g ≡ false
      → (non_replayable tool.metadata.effect_mode ≡ false)
        ⊎ (in_run q.run_id g.run_untrusted_content ≡ false)
  untainted tool e = elim (Bool-cases (non_replayable tool.metadata.effect_mode)) [
    | inr safe ↦ inl safe
    | inl effect ↦ inr (ground (arith, e, effect))
  ]

  reserve_effect-tool :
      (tool t : Tool) (x : Option Reservation) (run_id : String) (r : Option Reservation)
      → (reserve_effect tool q run_id r g).0 ≡ admitted t x
      → t ≡ tool
  unfolding reserve_effect
  reserve_effect-tool tool t x run_id none e = absurd (ground (arith, e))
  reserve_effect-tool tool t x run_id (some y) e = ground (arith, e)

  admit_effect-tool :
      (tool t : Tool) (x : Option Reservation) (run_id : Option String)
      → (admit_effect cx tool q run_id g).0 ≡ admitted t x
      → t ≡ tool
  unfolding admit_effect
  admit_effect-tool tool t x none e = ground (arith, e)
  admit_effect-tool tool t x (some r) e = elim (Bool-cases (dedupes tool.metadata)) [
    | inr open_ ↦ ground (arith, e, open_)
    | inl once ↦
        reserve_effect-tool tool t x r (semantic_reservation cx tool q.arguments g)
          (ground (arith, e, once))
  ]

  owned-Admitted :
      (tool t : Tool) (x : Option Reservation)
      → (admit_owned cx tool q g).0 ≡ admitted t x
      → (t ≡ tool) × Admitted tool
  unfolding admit_owned
  owned-Admitted tool t x e = elim (Option-cases (owner_fault tool.metadata.owner_argument q)) [
    | inr (reason, bad) ↦ absurd (ground (arith, e, bad))
    | inl owned ↦
        let owner = owner_fault-none q tool.metadata.owner_argument owned in
        elim (Bool-cases (tainted tool q g)) [
          | inl bad ↦ absurd (ground (arith, e, owned, bad))
          | inr clean ↦
              let effect : (admit_effect cx tool q q.run_id g).0 ≡ admitted t x =
                ground (arith, e, owned, clean) in
              (admit_effect-tool tool t x q.run_id effect, (owner, untainted tool clean))
        ]
  ]

  pub admit-Admitted :
      (t : Tool) (x : Option Reservation)
      → (admit cx q g).0 ≡ admitted t x
      → (find q.name g.tools ≡ some t) × Admitted t
  unfolding admit admit_tool
  admit-Admitted t x e = elim (Option-cases (find q.name g.tools)) [
    | inl absent ↦ absurd (ground (arith, e, absent))
    | inr (tool, there) ↦ elim (Option-cases (binding_error tool q.arguments)) [
      | inr (m, bad) ↦ absurd (ground (arith, e, there, bad))
      | inl fits ↦
          let owned : (admit_owned cx tool q g).0 ≡ admitted t x = ground (arith, e, there, fits) in
          let (same, admitted_) = owned-Admitted tool t x owned in
          subst (λ y. (find q.name g.tools ≡ some y) × Admitted y) (sym same) (there, admitted_)
    ]
  ]
