-- ===== src/Sessions/Room.antt =====
-- services/autonomous_sessions.py: `_enforce_capacity` and `_save_sync` against `max_count`.
use study_loop.Base.{
  Bool-cases, List, String, arith, inl, inr, length, ltb, take, true, ℕ, ◌+◌, ◌-◌, ◌==◌, ◌∙◌, ◌≡◌,
  ◌≤◌,
}
use study_loop.Base.Result.{Result, ok}
use study_loop.Sessions.Capacity.{
  enforce_capacity, evict_all, evict_oldest, evictable_keys, is_open,
}
use study_loop.Sessions.Counting.{
  all_evictable, all_evictable-evictable_keys, all_evictable-sort_keys, all_evictable-take,
  count-evict_all, distinct-evictable_keys,
}
use study_loop.Sessions.Row.{Session, Settings}
use study_loop.Table.{Table, count_rows}
use study_loop.Table.Keys.{Unique}
use study_loop.Table.Order.{
  Key, distinct, distinct-sort_keys, distinct-take, length-take, sort_keys,
}

evict_oldest-fits :
    (excess : ℕ) (ks : List Key) (t t' : Table Session)
    → Unique t
    → distinct ks ≡ true
    → all_evictable ks t ≡ true
    → evict_oldest excess ks t ≡ ok t'
    → count_rows is_open t' + excess ≡ count_rows is_open t
unfolding evict_oldest
evict_oldest-fits excess ks t t' u d h e = elim (Bool-cases (ltb (length ks) excess)) [
  | inl few ↦ ground (arith, few)
  | inr enough ↦
      let made : t' ≡ evict_all (take excess ks) t = ground (arith, enough) in
      rw made (
        omega (
          arith,
          length-take excess ks (ground (arith, enough)),
          count-evict_all (take excess ks) t u (distinct-take excess ks d)
              (all_evictable-take excess ks t h),
        ))
]

pub enforce-fits :
    (st : Settings) (protected : String) (t t' : Table Session)
    → Unique t
    → enforce_capacity st protected t ≡ ok t'
    → count_rows is_open t' ≤ st.max_count
unfolding enforce_capacity
enforce-fits st protected t t' u e =
    let ks = sort_keys st.id_before (evictable_keys protected t) in
    let excess = count_rows is_open t - st.max_count in
    elim (Bool-cases (excess == 0)) [
      | inl none_ ↦ ground (arith, none_)
      | inr some_ ↦
          let fits =
            evict_oldest-fits excess ks t t' u
              (distinct-sort_keys st.id_before (evictable_keys protected t)
                ∙ distinct-evictable_keys protected t u)
              (all_evictable-sort_keys st.id_before (evictable_keys protected t) t
                ∙ all_evictable-evictable_keys protected t u)
              (ground (arith, some_)) in
          ground (arith, fits, some_)
    ]
