-- ===== src/Sessions/Claims.antt =====
-- services/autonomous_sessions.py: `_claim_sync` as a move of the row that it names.
use study_loop.Base.{
  Bool, Bool-cases, Option, Option-cases, String, ap, arith, eq_iff, eq_refl, false, if◌then◌else◌,
  inl, inr, leb, none, refl, some, str_eq, subst, true, ℕ, ◌≡◌, ◌⊎◌,
}
use study_loop.Json.{JsonText}
use study_loop.Sessions.Claim.{
  bound_elsewhere, claim_by_state, claim_in_flight, claim_outcome, claim_paused, claim_row,
  claim_sync, fence_bound, still_stale,
}
use study_loop.Sessions.Moves.{
  Change, Moves, change, claims, expires, from, one, refenced, same, stays, unheld,
}
use study_loop.Sessions.Refines.{remove-Moves}
use study_loop.Sessions.Row.{PhysicalState, Session, Settings, in_flight, paused, row_owned}
use study_loop.Sessions.Taking.{
  Took, claim_row-open, claim_row-told, claim_sync-absent, claim_sync-foreign, claim_sync-owned,
}
use study_loop.Table.{Table, delete_where, find, find-put, put, remove, update_where}

-- What a claim may do to the table.
abbrev pub ClaimWrites :
    Settings → String → String → String → ℕ → Session → Table Session → Table Session → Type 0
ClaimWrites st cid fingerprint token now r t t' =
    (t' ≡ t)
    ⊎ (((t' ≡ remove cid t) × (leb r.expires_at now ≡ true) × (unheld now r ≡ true))
        ⊎ (Took st cid fingerprint token now r t t'
            ⊎ ((t' ≡ put cid (fence_bound fingerprint now r) t)
                × (still_stale r.claim_token now r ≡ true)
                × (bound_elsewhere r fingerprint ≡ false))))

module _ (st : Settings) (cid fingerprint token : String) (now : ℕ) (r : Session)
    (t : Table Session) (there : find cid t ≡ some r) where
  outcome-table :
      (outcome : JsonText)
      → (claim_outcome cid fingerprint now r outcome t).1
        ≡ (if leb r.expires_at now then remove cid t else t)
  unfolding claim_outcome
  outcome-table outcome = ground arith

  outcome-writes :
      (outcome : JsonText)
      → r.outcome_json ≡ some outcome
      → ClaimWrites st cid fingerprint token now r t
          (claim_outcome cid fingerprint now r outcome t).1
  outcome-writes outcome e = elim (Bool-cases (leb r.expires_at now)) [
    | inl late ↦ inr (inl (ground (arith, outcome-table outcome, late), late, ground (arith, e)))
    | inr early ↦ inl (ground (arith, outcome-table outcome, early))
  ]

  paused-writes :
      r.state ≡ paused
      → r.outcome_json ≡ none
      → ClaimWrites st cid fingerprint token now r t
          (claim_paused st cid fingerprint token now r t).1
  unfolding claim_paused update_where
  paused-writes state open_ = grind arith

  in_flight-writes :
      r.state ≡ in_flight
      → r.outcome_json ≡ none
      → ClaimWrites st cid fingerprint token now r t
          (claim_in_flight st cid fingerprint token now r t).1
  unfolding claim_in_flight update_where delete_where
  in_flight-writes state open_ = grind arith

  open-writes :
      (s : PhysicalState)
      → r.state ≡ s
      → r.outcome_json ≡ none
      → ClaimWrites st cid fingerprint token now r t
          (claim_by_state s st cid fingerprint token now r t).1
  open-writes paused state open_ = paused-writes state open_
  open-writes in_flight state open_ = in_flight-writes state open_

  row-writes :
      ClaimWrites st cid fingerprint token now r t (claim_row st cid fingerprint token now r t).1
  row-writes = elim (Option-cases r.outcome_json) [
    | inl open_ ↦
        rw (claim_row-open st cid fingerprint token now r t there open_)
          (open-writes r.state refl open_)
    | inr (outcome, e) ↦
        rw (claim_row-told st cid fingerprint token now r t there outcome e)
          (outcome-writes outcome e)
  ]

put-Moves :
    (st : Settings) (now : ℕ) (b : Bool) (cid j : String) (t : Table Session) (r s : Session)
    → find cid t ≡ some r
    → Change st now r s
    → Moves st now b (find j t) (find j (put cid s t))
put-Moves st now b cid j t r s there c = elim (Bool-cases (str_eq cid j)) [
  | inl hit ↦
      subst (λ k. Moves st now b (find k t) (find k (put cid s t))) ((eq_iff cid j).0 hit)
        (from (same (one (change c)) (ground (arith, find-put cid cid s t, eq_refl cid))) there)
  | inr miss ↦ stays (ground (arith, miss, find-put cid j s t))
]

writes-Moves :
    (st : Settings) (now : ℕ) (b : Bool) (cid fingerprint token j : String) (r : Session)
    (t t' : Table Session)
    → find cid t ≡ some r
    → ClaimWrites st cid fingerprint token now r t t'
    → Moves st now b (find j t) (find j t')
writes-Moves st now b cid fingerprint token j r t t' there (inl kept) = stays (ap (find j) kept)
writes-Moves st now b cid fingerprint token j r t t' there (inr (inl (gone_, late, free))) =
    same (remove-Moves st now b cid j t r there (expires r late free)) (ap (find j) gone_)
writes-Moves st now b cid fingerprint token j r t t' there (inr (inr (inl (w, a, c, d, e)))) =
    same (put-Moves st now b cid j t r _ there (claims r fingerprint token a c d e)) (ap (find j) w)
writes-Moves st now b cid fingerprint token j r t t' there (inr (inr (inr (w, stale, bound)))) =
    same (put-Moves st now b cid j t r _ there (refenced r fingerprint stale bound)) (ap (find j) w)

-- A claim leaves the table alone, or writes the row as `ClaimWrites` says.
pub claim-writes :
    (st : Settings) (cid fingerprint token : String) (owner : Option String) (now : ℕ)
    (t : Table Session)
    → ((claim_sync st cid fingerprint token owner now t).1 ≡ t)
      ⊎ ((r : Session) × (find cid t ≡ some r)
          × ClaimWrites st cid fingerprint token now r t
              (claim_sync st cid fingerprint token owner now t).1)
claim-writes st cid fingerprint token owner now t = elim (Option-cases (find cid t)) [
  | inl absent ↦ inl (ap (λ x. x.1) (claim_sync-absent st cid fingerprint token owner now t absent))
  | inr (r, there) ↦ elim (Bool-cases (row_owned owner r)) [
    | inl owned ↦ inr (
      r,
      there,
      rw (claim_sync-owned st cid fingerprint token owner now t r there owned)
          (row-writes st cid fingerprint token now r t there),
    )
    | inr foreign ↦
        inl
          (ap (λ x. x.1) (claim_sync-foreign st cid fingerprint token owner now t r there foreign))
  ]
]

pub claim-Moves :
    (st : Settings) (now : ℕ) (b : Bool) (cid fingerprint token : String) (owner : Option String)
    (j : String) (t : Table Session)
    → Moves st now b (find j t) (find j (claim_sync st cid fingerprint token owner now t).1)
claim-Moves st now b cid fingerprint token owner j t =
    elim (claim-writes st cid fingerprint token owner now t) [
      | inl kept ↦ stays (ap (find j) kept)
      | inr (r, there, w) ↦ writes-Moves st now b cid fingerprint token j r t _ there w
    ]
