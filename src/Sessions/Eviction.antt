-- ===== src/Sessions/Eviction.antt =====
-- services/autonomous_sessions.py: what `_insert_paused_row` and `_enforce_capacity` do to a row.
use study_loop.Base.{
  List, Option, String, [], ap, arith, eq_iff, eq_refl, false, inl, inr, none, refl, some, take,
  true, ℕ, ◌-◌, ◌∙◌, ◌∷◌, ◌≡◌, ◌≢◌, ◌⊎◌,
}
use study_loop.Base.Result.{ok}
use study_loop.Json.{JsonText}
use study_loop.Sessions.Capacity.{
  enforce_capacity, evict_all, evictable, evictable_keys, insert_pause, is_open, new_pause,
}
use study_loop.Sessions.Row.{Session, Settings}
use study_loop.Sessions.Thinning.{Thins, evict_all-Thins, evict_all-keeps}
use study_loop.Table.{Table, count_rows, delete_where, find, find-put, insert_or_ignore, put}
use study_loop.Table.Keys.{find-delete_where}
use study_loop.Table.Order.{Key, sort_keys, unlisted, unlisted-sort_keys, unlisted-take}

unlisted-evictable_keys :
    (cid : String) (t : Table Session) → unlisted cid (evictable_keys cid t) ≡ true
unfolding evictable_keys
unlisted-evictable_keys cid [] = refl
unlisted-evictable_keys cid ((i, r) ∷ t) = ground (arith, unlisted-evictable_keys cid t)

evict_all-unlisted :
    (cid : String) (ks : List Key) (t : Table Session)
    → unlisted cid ks ≡ true
    → find cid (evict_all ks t) ≡ find cid t
unfolding evict_all
evict_all-unlisted cid [] t h = refl
evict_all-unlisted cid ((a, i) ∷ ks) t h =
    evict_all-unlisted cid ks (delete_where i evictable t).0 (ground arith)
    ∙ ground (arith, find-delete_where i cid evictable t)

-- The keys that `_enforce_capacity` deletes.
abbrev pub victims : Settings → String → Table Session → List Key
victims st protected t =
    take (count_rows is_open t - st.max_count) (sort_keys st.id_before (evictable_keys protected t))

pub enforce-evicts :
    (st : Settings) (protected : String) (t t' : Table Session)
    → enforce_capacity st protected t ≡ ok t'
    → (t' ≡ t) ⊎ (t' ≡ evict_all (victims st protected t) t)
unfolding enforce_capacity
enforce-evicts st protected t t' e = ground arith

victims-unlisted :
    (st : Settings) (protected : String) (t : Table Session)
    → unlisted protected (victims st protected t) ≡ true
victims-unlisted st protected t = unlisted-take protected _ _ (
    unlisted-sort_keys st.id_before protected (evictable_keys protected t)
    ∙ unlisted-evictable_keys protected t)

module _ (st : Settings) (protected : String) (t t' : Table Session)
    (e : enforce_capacity st protected t ≡ ok t') where
  pub enforce-Thins : (cid : String) → Thins cid t t'
  enforce-Thins cid = elim (enforce-evicts st protected t t' e) [
    | inl kept ↦ inl (ap (find cid) kept)
    | inr evicted ↦ rw evicted (evict_all-Thins cid (victims st protected t) t)
  ]

  pub enforce-keeps :
      (cid : String) (r : Session)
      → find cid t ≡ some r
      → evictable r ≡ false
      → find cid t' ≡ some r
  enforce-keeps cid r there no_ = elim (enforce-evicts st protected t t' e) [
    | inl kept ↦ rw kept there
    | inr evicted ↦ rw evicted (evict_all-keeps cid (victims st protected t) t r there no_)
  ]

  pub enforce-protects : find protected t' ≡ find protected t
  enforce-protects = elim (enforce-evicts st protected t t' e) [
    | inl kept ↦ ap (find protected) kept
    | inr evicted ↦
        rw evicted (
          evict_all-unlisted protected (victims st protected t) t (victims-unlisted st protected t))
  ]

-- What an insertion that succeeds does to a row: the new one stands, another is kept or evicted,
-- and one that is claimed or has an outcome is kept.
pub record Inserts (st : Settings) (cid : String) (payload : JsonText) (subject : Option String)
    (now : ℕ) (t t' : Table Session) : Type 0 where
  pub was_absent : find cid t ≡ none
  pub stands : find cid t' ≡ some (new_pause st payload subject now)
  pub thins : (j : String) → cid ≢ j → Thins j t t'
  pub keeps :
      (j : String) (r : Session) → find j t ≡ some r → evictable r ≡ false → find j t' ≡ some r

pub insert_pause-enforces :
    (st : Settings) (cid : String) (payload : JsonText) (subject : Option String) (now : ℕ)
    (t t' : Table Session)
    → insert_pause st cid payload subject now t ≡ ok t'
    → (find cid t ≡ none)
      × (enforce_capacity st cid (put cid (new_pause st payload subject now) t) ≡ ok t')
unfolding insert_pause insert_or_ignore
insert_pause-enforces st cid payload subject now t t' e = (grind arith, grind arith)

pub insert_pause-Inserts :
    (st : Settings) (cid : String) (payload : JsonText) (subject : Option String) (now : ℕ)
    (t t' : Table Session)
    → insert_pause st cid payload subject now t ≡ ok t'
    → Inserts st cid payload subject now t t'
insert_pause-Inserts st cid payload subject now t t' e =
    let (absent, room) = insert_pause-enforces st cid payload subject now t t' e in
    let pause = new_pause st payload subject now in
    let u = put cid pause t in
    record {
      was_absent = absent;
      stands =
          enforce-protects st cid u t' room ∙ ground (arith, find-put cid cid pause t, eq_refl cid);
      thins = λ j ne.
          ground
            (arith, enforce-Thins st cid u t' room j, find-put cid j pause t, eq_iff cid j, ne);
      keeps = λ j r there kept.
          enforce-keeps st cid u t' room j r
            (ground (arith, find-put cid j pause t, eq_iff cid j, there, absent)) kept;
    }
