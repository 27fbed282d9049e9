-- ===== src/Sessions/Moves.antt =====
-- services/autonomous_sessions.py: the life of one row, as a relation. `Change` lists what an UPDATE
-- may do to a row and under which guard, `Move` adds insertion and deletion, and `Moves` is what one
-- transaction does to the row of a conversation.
use study_loop.Base.{
  Bool, Bool-cases, Option, String, arith, false, inl, inr, is_none, leb, none, not, some, subst,
  sym, true, ℕ, ◌&&◌, ◌||◌, ◌≡◌,
}
use study_loop.Json.{JsonText}
use study_loop.Sessions.Capacity.{evictable, new_pause}
use study_loop.Sessions.Claim.{bound_elsewhere, fence_bound, still_stale, taken}
use study_loop.Sessions.Owner.{cancelled, finishable, finished, holds_claim, progressed, renewed}
use study_loop.Sessions.Row.{Session, Settings, is_in_flight, is_paused, live}
use study_loop.Sessions.Sweep.{fence, reap_row, stale_clean, stale_dirty, unclaim}

pub data Change (st : Settings) (now : ℕ) : Session → Session → Type 0 where
  fenced : (r : Session) → stale_dirty now r ≡ true → Change st now r (fence now r)
  returned : (r : Session) → stale_clean now r ≡ true → Change st now r (unclaim now r)
  claims :
      (r : Session) (fingerprint token : String)
      → r.outcome_json ≡ none
      → (is_paused r.state || not r.progress_started) ≡ true
      → (is_paused r.state || not (live r.claim_expires_at now)) ≡ true
      → bound_elsewhere r fingerprint ≡ false
      → Change st now r (taken st fingerprint token now r)
  refenced :
      (r : Session) (fingerprint : String)
      → still_stale r.claim_token now r ≡ true
      → bound_elsewhere r fingerprint ≡ false
      → Change st now r (fence_bound fingerprint now r)
  renews :
      (r : Session) (token : String)
      → holds_claim token now r ≡ true
      → Change st now r (renewed st now r)
  progresses :
      (r : Session) (token : String)
      → holds_claim token now r ≡ true
      → Change st now r (progressed st now r)
  cancels :
      (r : Session) (token : String)
      → holds_claim token now r ≡ true
      → r.progress_started ≡ false
      → Change st now r (cancelled now r)
  finishes :
      (r : Session) (token : String) (outcome : JsonText)
      → finishable token now r ≡ true
      → Change st now r (finished st outcome now r)

-- Nobody holds a live claim on the row.
abbrev pub unheld : ℕ → Session → Bool
unheld now r = not (is_in_flight r.state && (live r.claim_expires_at now && is_none r.outcome_json))

pub data Move (st : Settings) (now : ℕ) (may_insert : Bool)
    : Option Session → Option Session → Type 0 where
  change : {r s : Session} → Change st now r s → Move st now may_insert (some r) (some s)
  expires :
      (r : Session)
      → leb r.expires_at now ≡ true
      → unheld now r ≡ true
      → Move st now may_insert (some r) none
  evicts : (r : Session) → evictable r ≡ true → Move st now may_insert (some r) none
  consumes :
      (r : Session) (token : String)
      → holds_claim token now r ≡ true
      → Move st now may_insert (some r) none
  inserts :
      (payload : JsonText) (subject : Option String)
      → may_insert ≡ true
      → Move st now may_insert none (some (new_pause st payload subject now))

pub data Moves (st : Settings) (now : ℕ) (may_insert : Bool) (o : Option Session)
    : Option Session → Type 0 where
  stay : Moves st now may_insert o o
  then_ :
      {p q : Option Session}
      → Moves st now may_insert o p
      → Move st now may_insert p q
      → Moves st now may_insert o q

module _ {st : Settings} {now : ℕ} {may_insert : Bool} where
  pub one : {o p : Option Session} → Move st now may_insert o p → Moves st now may_insert o p
  one m = then_ stay m

  pub join :
      {o p q : Option Session}
      → Moves st now may_insert o p
      → Moves st now may_insert p q
      → Moves st now may_insert o q
  join ms stay = ms
  join ms (then_ ns n) = then_ (join ms ns) n

  pub same :
      {o p q : Option Session} → Moves st now may_insert o p → q ≡ p → Moves st now may_insert o q
  same {o = o} ms e = subst (Moves st now may_insert o) (sym e) ms

  -- A sweep of the row.
  pub reaps : (r : Session) → Moves st now may_insert (some r) (some (reap_row now r))
  unfolding reap_row
  reaps r = elim (Bool-cases (stale_dirty now r)) [
    | inl dirty ↦ same (one (change (fenced r dirty))) (ground arith)
    | inr no_ ↦ elim (Bool-cases (stale_clean now r)) [
      | inl clean ↦ same (one (change (returned r clean))) (ground arith)
      | inr kept ↦ same stay (ground arith)
    ]
  ]

  pub from :
      {o p q : Option Session} → Moves st now may_insert p q → o ≡ p → Moves st now may_insert o q
  from {q = q} ms e = subst (λ x. Moves st now may_insert x q) (sym e) ms

  pub stays : {o p : Option Session} → p ≡ o → Moves st now may_insert o p
  stays e = same stay e
