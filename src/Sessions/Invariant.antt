-- ===== src/Sessions/Invariant.antt =====
-- services/autonomous_sessions.py: the moves of a row, the CHECK clause of the table, and a continuation
-- which has made progress.
use study_loop.Base.{
  Bool, Option, arith, false, is_some, none, refl, some, true, ℕ, ◌&&◌, ◌||◌, ◌≡◌,
}
use study_loop.Sessions.Moves.{
  Change, Move, Moves, cancels, change, claims, consumes, evicts, expires, fenced, finishes,
  inserts, progresses, refenced, renews, returned, stay, then_,
}
use study_loop.Sessions.Row.{Session, Settings, is_in_flight, row_check}

-- The row, if there is one, passes the CHECK clause of the table.
abbrev pub check_of : Option Session → Bool
check_of none = true
check_of (some r) = row_check r

Change-check :
    {st : Settings} {now : ℕ} {r s : Session}
    → Change st now r s
    → row_check r ≡ true
    → row_check s ≡ true
Change-check (fenced r g) h = ground arith
Change-check (returned r g) h = ground arith
Change-check (claims r fingerprint token a b c d) h = ground arith
Change-check (refenced r fingerprint g d) h = ground arith
Change-check (renews r token g) h = ground arith
Change-check (progresses r token g) h = ground arith
Change-check (cancels r token g p) h = ground arith
Change-check (finishes r token outcome g) h = ground arith

Move-check :
    {st : Settings} {now : ℕ} {b : Bool} {o p : Option Session}
    → Move st now b o p
    → check_of o ≡ true
    → check_of p ≡ true
Move-check (change c) h = Change-check c h
Move-check (expires r a f) h = refl
Move-check (evicts r f) h = refl
Move-check (consumes r token g) h = refl
Move-check (inserts payload subject g) h = refl

pub Moves-check :
    {st : Settings} {now : ℕ} {b : Bool} {o p : Option Session}
    → Moves st now b o p
    → check_of o ≡ true
    → check_of p ≡ true
Moves-check stay h = h
Moves-check (then_ ms m) h = Move-check m (Moves-check ms h)

-- A claim that has made progress, or a row with an outcome: no call may claim it again.
abbrev pub spent : Session → Bool
spent r = is_in_flight r.state && (r.progress_started || is_some r.outcome_json)

abbrev pub spent_of : Option Session → Bool
spent_of none = true
spent_of (some r) = spent r

Change-spent :
    {st : Settings} {now : ℕ} {r s : Session} → Change st now r s → spent r ≡ true → spent s ≡ true
Change-spent (fenced r g) h = refl
Change-spent (returned r g) h = ground arith
Change-spent (claims r fingerprint token a b c d) h = ground arith
Change-spent (refenced r fingerprint g d) h = refl
Change-spent (renews r token g) h = ground arith
Change-spent (progresses r token g) h = ground arith
Change-spent (cancels r token g p) h = ground arith
Change-spent (finishes r token outcome g) h = refl

Move-spent :
    {st : Settings} {now : ℕ} {o p : Option Session}
    → Move st now false o p
    → spent_of o ≡ true
    → spent_of p ≡ true
Move-spent (change c) h = Change-spent c h
Move-spent (expires r a f) h = refl
Move-spent (evicts r f) h = refl
Move-spent (consumes r token g) h = refl
Move-spent (inserts payload subject g) h = cc

pub Moves-spent :
    {st : Settings} {now : ℕ} {o p : Option Session}
    → Moves st now false o p
    → spent_of o ≡ true
    → spent_of p ≡ true
Moves-spent stay h = h
Moves-spent (then_ ms m) h = Move-spent m (Moves-spent ms h)
