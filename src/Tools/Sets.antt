-- ===== src/Tools/Sets.antt =====
-- services/tool_registry.py: the reservations of a run after each write of the policy state.
use study_loop.Base.{
  Bool-cases, List, Option, Option-cases, String, [], arith, eq_iff, false, if◌then◌else◌, inl, inr,
  length, ltb, refl, some, str_eq, subst, true, ℕ, ◌∷◌, ◌≡◌,
}
use study_loop.Json.{Items}
use study_loop.Table.{find, find-put, find-remove, put}
use study_loop.Tools.Registry.{
  Reservation, ToolRegistry, clear_run_policy_state, mark_run_untrusted_content, or_none,
  policy_max_reservations, release_effect_digest, release_from, reservations_of, reserved,
  same_reservation, store_rest, unregister,
}
use study_loop.Tools.Reservations.{length_items, restore_items, union, validated_entries}

pub reserved-release_from :
    (x y : Reservation) (xs : List Reservation)
    → reserved y (release_from x xs) ≡ (if same_reservation x y then false else reserved y xs)
unfolding reserved release_from
reserved-release_from x y [] = ground arith
reserved-release_from x y (z ∷ zs) = ground (
  arith,
  reserved-release_from x y zs,
  eq_iff x.0 y.0,
  eq_iff x.1 y.1,
  eq_iff z.0 x.0,
  eq_iff z.1 x.1,
  eq_iff z.0 y.0,
  eq_iff z.1 y.1,
)

pub reserved-union :
    (x : Reservation) (xs ys : List Reservation)
    → reserved x xs ≡ true
    → reserved x (union xs ys) ≡ true
unfolding union reserved
reserved-union x xs [] h = h
reserved-union x xs (y ∷ ys) h = ground (arith, reserved-union x xs ys h)

module _ (run_id : String) (x : Reservation) where
  pub reservations_of-put :
      (r : String) (xs : List Reservation) (g h : ToolRegistry)
      → h.run_effect_digests ≡ put r xs g.run_effect_digests
      → reservations_of run_id h ≡ (if str_eq r run_id then xs else reservations_of run_id g)
  unfolding reservations_of
  reservations_of-put r xs g h e = ground (arith, e, find-put r run_id xs g.run_effect_digests)

  pub store_rest-reservations_of :
      (r : String) (ys : List Reservation) (g : ToolRegistry)
      → reservations_of run_id (store_rest r ys g)
        ≡ (if str_eq r run_id then ys else reservations_of run_id g)
  unfolding reservations_of
  store_rest-reservations_of r [] g = ground (arith, find-remove r run_id g.run_effect_digests)
  store_rest-reservations_of r (y ∷ ys) g =
      ground (arith, find-put r run_id (y ∷ ys) g.run_effect_digests)

  pub found_at :
      (r : String) (g : ToolRegistry)
      → str_eq r run_id ≡ true
      → reservations_of run_id g ≡ or_none (find r g.run_effect_digests)
  unfolding reservations_of
  found_at r g e = ground (arith, e, eq_iff r run_id)

  pub release-reservations_of :
      (r : String) (y : Reservation) (g : ToolRegistry)
      → reservations_of run_id (release_effect_digest r y g) ≡ (
          if str_eq r run_id
          then release_from y (reservations_of run_id g)
          else reservations_of run_id g)
  unfolding release_effect_digest release_from
  release-reservations_of r y g = elim (Option-cases (find r g.run_effect_digests)) [
    | inl out ↦ ground (arith, out, found_at r g)
    | inr (ys, found) ↦
        ground (arith, found, found_at r g, store_rest-reservations_of r (release_from y ys) g)
  ]

  pub unregister-same :
      (name : String) (o : Option ℕ) (g : ToolRegistry)
      → (unregister name o g).1.run_effect_digests ≡ g.run_effect_digests
  unfolding unregister
  unregister-same name o g = ground arith

  pub mark-same :
      (r : String) (g h : ToolRegistry)
      → mark_run_untrusted_content r g ≡ some h
      → h.run_effect_digests ≡ g.run_effect_digests
  unfolding mark_run_untrusted_content
  mark-same r g h e = ground (arith, e)

  pub cleared-reservations_of :
      (r : String) (g : ToolRegistry)
      → str_eq r run_id ≡ false
      → reserved x (reservations_of run_id g) ≡ true
      → reserved x (reservations_of run_id (clear_run_policy_state r g)) ≡ true
  unfolding clear_run_policy_state reservations_of
  cleared-reservations_of r g apart was =
      ground (arith, apart, was, find-remove r run_id g.run_effect_digests)

  pub restore_items-keeps :
      (r : String) (xs : Items) (g h : ToolRegistry)
      → restore_items r xs g ≡ some h
      → reserved x (reservations_of run_id g) ≡ true
      → reserved x (reservations_of run_id h) ≡ true
  unfolding restore_items
  restore_items-keeps r xs g h e was =
      elim (Bool-cases (ltb policy_max_reservations (length_items xs))) [
        | inl long ↦ absurd (ground (arith, e, long))
        | inr short ↦ elim (Option-cases (validated_entries g xs [])) [
          | inl bad ↦ absurd (ground (arith, e, short, bad))
          | inr (ys, good) ↦
              let all = union (reservations_of r g) ys in
              elim (Bool-cases (ltb policy_max_reservations (length all))) [
                | inl many ↦ absurd (ground (arith, e, short, good, many))
                | inr fits ↦
                    let same : record g { run_effect_digests = put r all g.run_effect_digests }
                        ≡ h =
                      ground (arith, e, short, good, fits) in
                    subst (λ v. reserved x (reservations_of run_id v) ≡ true) same
                      (ground (
                        arith,
                        was,
                        eq_iff r run_id,
                        reservations_of-put r all g
                            (record g { run_effect_digests = put r all g.run_effect_digests }) refl,
                        reserved-union x (reservations_of r g) ys,
                      ))
              ]
        ]
      ]
