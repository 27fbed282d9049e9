-- ===== src/Sessions/Thinning.antt =====
-- services/autonomous_sessions.py: the sweeps and the evictions, seen from one row: it is reaped,
-- kept, or deleted.
use study_loop.Base.{
  List, Option-cases, String, [], arith, eq_iff, eq_refl, false, if◌then◌else◌, inl, inr, none, not,
  refl, some, str_eq, ℕ, ◌∷◌, ◌≡◌, ◌⊎◌,
}
use study_loop.Sessions.Capacity.{evict_all, evictable}
use study_loop.Sessions.Row.{Session}
use study_loop.Sessions.Sweep.{
  fence, purge_expired, purge_expired_target, purgeable, reap_row, reap_stale_claims,
  reap_stale_target, stale_clean, stale_dirty, sweep_target, unclaim,
}
use study_loop.Table.{Table, delete_where, find, keep_if, map_row, update_where}
use study_loop.Table.Keys.{
  Unique, find-delete_where, find-keep_rows, find-map_rows, find-update_where,
}
use study_loop.Table.Order.{Key}

-- The row of `cid` is as it was, or gone.
abbrev pub Thins : String → Table Session → Table Session → Type 0
Thins cid t t' = (find cid t' ≡ find cid t) ⊎ (find cid t' ≡ none)

pub find-reap_stale_claims :
    (cid : String) (now : ℕ) (t : Table Session)
    → find cid (reap_stale_claims now t) ≡ map_row (reap_row now) (find cid t)
unfolding reap_stale_claims
find-reap_stale_claims cid now t = find-map_rows cid (reap_row now) t

pub find-purge_expired :
    (cid : String) (now : ℕ) (t : Table Session)
    → Unique t
    → find cid (purge_expired now t) ≡ keep_if (λ r. not (purgeable now r)) (find cid t)
unfolding purge_expired
find-purge_expired cid now t u = find-keep_rows cid (λ r. not (purgeable now r)) t u

find-reap_stale_target :
    (cid j : String) (now : ℕ) (t : Table Session)
    → find j (reap_stale_target cid now t)
      ≡ (if str_eq cid j then map_row (reap_row now) (find cid t) else find j t)
unfolding reap_stale_target reap_row
find-reap_stale_target cid j now t =
    let fenced = (update_where cid (stale_dirty now) (fence now) t).0 in
    elim (Option-cases (find cid t)) [
      | inl absent ↦ ground (
        arith,
        absent,
        eq_iff cid j,
        eq_refl cid,
        find-update_where cid j (stale_clean now) (unclaim now) fenced,
        find-update_where cid j (stale_dirty now) (fence now) t,
        find-update_where cid cid (stale_dirty now) (fence now) t,
      )
      | inr (r, there) ↦ ground (
        arith,
        there,
        eq_iff cid j,
        eq_refl cid,
        find-update_where cid j (stale_clean now) (unclaim now) fenced,
        find-update_where cid j (stale_dirty now) (fence now) t,
        find-update_where cid cid (stale_dirty now) (fence now) t,
      )
    ]

-- The sweep of one row is that of the whole table, at that row.
pub find-sweep_target :
    (cid j : String) (now : ℕ) (t : Table Session)
    → find j (sweep_target cid now t) ≡ (
        if str_eq cid j
        then keep_if (λ r. not (purgeable now r)) (map_row (reap_row now) (find cid t))
        else find j t)
unfolding sweep_target purge_expired_target
find-sweep_target cid j now t = ground (
  arith,
  eq_iff cid j,
  eq_refl cid,
  find-delete_where cid j (purgeable now) (reap_stale_target cid now t),
  find-reap_stale_target cid j now t,
  find-reap_stale_target cid cid now t,
)

-- An eviction deletes paused rows only.
evict_one-Thins : (cid i : String) (t : Table Session) → Thins cid t (delete_where i evictable t).0
evict_one-Thins cid i t = ground (arith, find-delete_where i cid evictable t, eq_iff i cid)

Thins-trans : (cid : String) (t u v : Table Session) → Thins cid t u → Thins cid u v → Thins cid t v
Thins-trans cid t u v p q = grind arith

pub evict_all-Thins :
    (cid : String) (ks : List Key) (t : Table Session) → Thins cid t (evict_all ks t)
unfolding evict_all
evict_all-Thins cid [] t = inl refl
evict_all-Thins cid ((created, i) ∷ ks) t =
    Thins-trans cid t (delete_where i evictable t).0 _ (evict_one-Thins cid i t)
      (evict_all-Thins cid ks (delete_where i evictable t).0)

pub evict_all-keeps :
    (cid : String) (ks : List Key) (t : Table Session) (r : Session)
    → find cid t ≡ some r
    → evictable r ≡ false
    → find cid (evict_all ks t) ≡ some r
unfolding evict_all
evict_all-keeps cid [] t r h e = h
evict_all-keeps cid ((created, i) ∷ ks) t r h e =
    evict_all-keeps cid ks (delete_where i evictable t).0 r
      (ground (arith, find-delete_where i cid evictable t, eq_iff i cid)) e
