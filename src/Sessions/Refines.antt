-- ===== src/Sessions/Refines.antt =====
-- services/autonomous_sessions.py: single statements, as moves of Sessions/Moves.antt.
use study_loop.Base.{
  Bool, Bool-cases, Option, Option-cases, String, ap, arith, eq_iff, eq_refl, inl, inr, none, not,
  some, str_eq, subst, true, ℕ, ◌∙◌, ◌≡◌,
}
use study_loop.Sessions.Moves.{
  Change, Move, Moves, change, expires, from, join, one, reaps, same, stay, stays,
}
use study_loop.Sessions.Row.{Session, Settings}
use study_loop.Sessions.Sweep.{purge_expired, purgeable, reap_row, reap_stale_claims, sweep_target}
use study_loop.Sessions.Thinning.{find-purge_expired, find-reap_stale_claims, find-sweep_target}
use study_loop.Table.{
  Table, delete_where, find, find-remove, keep_if, map_row, remove, update_where,
}
use study_loop.Table.Keys.{Unique, Unique-map_rows, find-delete_where, find-update_where}

-- Where the guard fails or the key is another, nothing moves.
module _ (st : Settings) (now : ℕ) (b : Bool) (cid j : String) (p : Session → Bool)
    (t : Table Session) where
  update-at :
      (f : Session → Session)
      → ((r : Session) → find cid t ≡ some r → p r ≡ true → Change st now r (f r))
      → Moves st now b (find cid t) (find cid (update_where cid p f t).0)
  update-at f step_ =
      let law = find-update_where cid cid p f t in
      elim (Option-cases (find cid t)) [
        | inl absent ↦ stays (ground (arith, absent, law, eq_refl cid))
        | inr (r, there) ↦ elim (Bool-cases (p r)) [
          | inl pass ↦
              from
                (same (one (change (step_ r there pass)))
                  (ground (arith, there, law, pass, eq_refl cid)))
                there
          | inr fail ↦ stays (ground (arith, there, law, fail, eq_refl cid))
        ]
      ]

  pub update-Moves :
      (f : Session → Session)
      → ((r : Session) → find cid t ≡ some r → p r ≡ true → Change st now r (f r))
      → Moves st now b (find j t) (find j (update_where cid p f t).0)
  update-Moves f step_ = elim (Bool-cases (str_eq cid j)) [
    | inl hit ↦
        subst (λ k. Moves st now b (find k t) (find k (update_where cid p f t).0))
          ((eq_iff cid j).0 hit) (update-at f step_)
    | inr other ↦ stays (ground (arith, other, find-update_where cid j p f t))
  ]

  delete-at :
      ((r : Session) → find cid t ≡ some r → p r ≡ true → Move st now b (some r) none)
      → Moves st now b (find cid t) (find cid (delete_where cid p t).0)
  delete-at step_ =
      let law = find-delete_where cid cid p t in
      elim (Option-cases (find cid t)) [
        | inl absent ↦ stays (ground (arith, absent, law, eq_refl cid))
        | inr (r, there) ↦ elim (Bool-cases (p r)) [
          | inl pass ↦
              from (same (one (step_ r there pass)) (ground (arith, there, law, pass, eq_refl cid)))
                there
          | inr fail ↦ stays (ground (arith, there, law, fail, eq_refl cid))
        ]
      ]

  pub delete-Moves :
      ((r : Session) → find cid t ≡ some r → p r ≡ true → Move st now b (some r) none)
      → Moves st now b (find j t) (find j (delete_where cid p t).0)
  delete-Moves step_ = elim (Bool-cases (str_eq cid j)) [
    | inl hit ↦
        subst (λ k. Moves st now b (find k t) (find k (delete_where cid p t).0))
          ((eq_iff cid j).0 hit) (delete-at step_)
    | inr other ↦ stays (ground (arith, other, find-delete_where cid j p t))
  ]

-- `DELETE ... WHERE key = ?` with no other guard.
pub remove-Moves :
    (st : Settings) (now : ℕ) (b : Bool) (cid j : String) (t : Table Session) (r : Session)
    → find cid t ≡ some r
    → Move st now b (some r) none
    → Moves st now b (find j t) (find j (remove cid t))
remove-Moves st now b cid j t r there m = elim (Bool-cases (str_eq cid j)) [
  | inl hit ↦
      subst (λ k. Moves st now b (find k t) (find k (remove cid t))) ((eq_iff cid j).0 hit)
        (from (same (one m) (ground (arith, find-remove cid cid t, eq_refl cid))) there)
  | inr other ↦ stays (ground (arith, other, find-remove cid j t))
]

-- The sweeps.
module _ (st : Settings) (now : ℕ) (b : Bool) where
  pub purge-Moves : (o : Option Session) → Moves st now b o (keep_if (λ r. not (purgeable now r)) o)
  purge-Moves none = stay
  purge-Moves (some r) = elim (Bool-cases (purgeable now r)) [
    | inl gone_ ↦
        same (one (expires r (ground (arith, gone_)) (ground (arith, gone_))))
          (ground (arith, gone_))
    | inr kept ↦ stays (ground (arith, kept))
  ]

  reap-Moves : (o : Option Session) → Moves st now b o (map_row (reap_row now) o)
  reap-Moves none = stay
  reap-Moves (some r) = reaps r

  sweep-Moves :
      (o : Option Session)
      → Moves st now b o (keep_if (λ r. not (purgeable now r)) (map_row (reap_row now) o))
  sweep-Moves o = join (reap-Moves o) (purge-Moves (map_row (reap_row now) o))

  pub sweep_all-Moves :
      (j : String) (t : Table Session)
      → Unique t
      → Moves st now b (find j t) (find j (purge_expired now (reap_stale_claims now t)))
  sweep_all-Moves j t u = same (sweep-Moves (find j t)) (
      find-purge_expired j now (reap_stale_claims now t)
        (unfold reap_stale_claims in Unique-map_rows (reap_row now) t u)
      ∙ ap (keep_if (λ r. not (purgeable now r))) (find-reap_stale_claims j now t))

  pub sweep_target-Moves :
      (cid j : String) (t : Table Session)
      → Moves st now b (find j t) (find j (sweep_target cid now t))
  sweep_target-Moves cid j t = elim (Bool-cases (str_eq cid j)) [
    | inl hit ↦
        subst (λ k. Moves st now b (find k t) (find k (sweep_target cid now t)))
          ((eq_iff cid j).0 hit)
          (same (sweep-Moves (find cid t))
            (ground (arith, find-sweep_target cid cid now t, eq_refl cid)))
    | inr other ↦ stays (ground (arith, other, find-sweep_target cid j now t))
  ]
