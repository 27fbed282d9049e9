-- ===== src/Chunks/Bounds.antt =====
-- services/chunker.py: the lengths of the chunks of `AdaptiveChunker`.
use study_loop.Base.{
  Bool-cases, List, [], arith, drop, false, if_holds, if◌then◌else◌, inl, inr, length,
  length-append, length-take-le, ltb, subst, suc, zero, ℕ, ◌++◌, ◌+◌, ◌<◌, ◌∷◌, ◌≡◌, ◌≤◌,
}
use study_loop.Chunks.Chars.{Text, is_empty, normalize, strip}
use study_loop.Chunks.Chunker.{
  Chunking, Packing, add_paragraph, add_piece, add_sentence, empty_packing, flush, for_each,
  hard_cut, joined, merge_from, merge_tiny, semantic_split, split_by_punct, split_long,
}
use study_loop.Chunks.Splits.{listed, punct_split, sentence_split, split_paragraphs}

-- No text is longer than the bound.
abbrev pub AllWithin : ℕ → List Text → Type 0
AllWithin n [] = Unit
AllWithin n (t ∷ ts) = (length t ≤ n) × AllWithin n ts

-- Every text but the last has at least the length.
abbrev pub AllButLast : ℕ → List Text → Type 0
AllButLast n [] = Unit
AllButLast n (t ∷ []) = Unit
AllButLast n (t ∷ u ∷ us) = (n ≤ length t) × AllButLast n (u ∷ us)

AllWithin-append :
    (n : ℕ) (ss ts : List Text) → AllWithin n ss → AllWithin n ts → AllWithin n (ss ++ ts)
AllWithin-append n [] ts hs ht = ht
AllWithin-append n (s ∷ ss) ts (h, hs) ht = (h, AllWithin-append n ss ts hs ht)

hard_cut-AllWithin : (fuel size : ℕ) (t : Text) → AllWithin size (hard_cut fuel size t)
unfolding hard_cut
hard_cut-AllWithin zero size t = tt
hard_cut-AllWithin (suc fuel) size [] = tt
hard_cut-AllWithin (suc fuel) size (c ∷ cs) =
    (length-take-le size (c ∷ cs), hard_cut-AllWithin fuel size (drop size (c ∷ cs)))

module _ (size : ℕ) where
  abbrev Fits : Packing → Type 0
  Fits p = AllWithin size p.chunks × (length p.buf ≤ size)

  flush-AllWithin : (p : Packing) → Fits p → AllWithin size (flush p)
  flush-AllWithin p (h, hb) = elim (Bool-cases (is_empty p.buf)) [
    | inl e ↦ subst (AllWithin size) (ground (arith, e)) h
    | inr e ↦
        subst (AllWithin size) (ground (arith, e))
          (AllWithin-append size p.chunks (p.buf ∷ []) h (hb, tt))
  ]

  for_each-Fits :
      (step : Text → Packing → Packing)
      → ((t : Text) (p : Packing) → Fits p → Fits (step t p))
      → (ts : List Text) (p : Packing) → Fits p
      → Fits (for_each step ts p)
  for_each-Fits step keeps [] p h = h
  for_each-Fits step keeps (t ∷ ts) p h = for_each-Fits step keeps ts (step t p) (keeps t p h)

  closed-Fits :
      (p : Packing) (ts : List Text)
      → Fits p
      → AllWithin size ts
      → Fits (record { chunks = flush p ++ ts; buf = [] })
  closed-Fits p ts h hs = (AllWithin-append size (flush p) ts (flush-AllWithin p h) hs, omega arith)

  started-Fits :
      (p : Packing) (t : Text)
      → Fits p
      → length t ≤ size
      → Fits (record { chunks = flush p; buf = t })
  started-Fits p t h ht = (flush-AllWithin p h, ht)

  add_piece-Fits : (t : Text) (p : Packing) → Fits p → Fits (add_piece size t p)
  unfolding add_piece
  add_piece-Fits t p h =
      if_holds Fits (is_empty t) (λ e. h)
        (λ e.
          if_holds Fits (ltb size (length p.buf + length t))
            (λ over.
              if_holds Fits (ltb size (length t))
                (λ long.
                  closed-Fits p (hard_cut (length t) size t) h
                    (hard_cut-AllWithin (length t) size t))
                (λ short. started-Fits p t h (ground arith)))
            (λ fits. (h.0, ground (arith, length-append p.buf t))))

  split_by_punct-AllWithin : (t : Text) → AllWithin size (split_by_punct size t)
  unfolding split_by_punct
  split_by_punct-AllWithin t =
      flush-AllWithin (for_each (add_piece size) (listed (punct_split t)) empty_packing) (
        for_each-Fits (add_piece size) add_piece-Fits (listed (punct_split t)) empty_packing
          (tt, omega arith))

  add_sentence-Fits : (t : Text) (p : Packing) → Fits p → Fits (add_sentence size t p)
  unfolding add_sentence
  add_sentence-Fits t p h =
      let s = strip t in
      if_holds Fits (is_empty s) (λ e. h)
        (λ e.
          if_holds Fits (ltb size (length s))
            (λ long. closed-Fits p (split_by_punct size s) h (split_by_punct-AllWithin s))
            (λ short.
              if_holds Fits (ltb size (length p.buf + length s))
                (λ over. started-Fits p s h (ground arith))
                (λ fits. (h.0, ground (arith, length-append p.buf s)))))

  split_long-AllWithin : (t : Text) → AllWithin size (split_long size t)
  unfolding split_long
  split_long-AllWithin t =
      flush-AllWithin (for_each (add_sentence size) (listed (sentence_split false t)) empty_packing)
        (for_each-Fits (add_sentence size) add_sentence-Fits (listed (sentence_split false t))
          empty_packing (tt, omega arith))

  length-joined : (s t : Text) → length (joined s t) ≡ length s + length t + 2
  length-joined s t = omega (arith, length-append s (10 ∷ 10 ∷ t))

  add_paragraph-Fits : (t : Text) (p : Packing) → Fits p → Fits (add_paragraph size t p)
  unfolding add_paragraph
  add_paragraph-Fits t p h =
      if_holds Fits (ltb size (length t))
        (λ long. closed-Fits p (split_long size t) h (split_long-AllWithin t))
        (λ short.
          if_holds Fits (ltb size (length p.buf + length t + 2))
            (λ over. started-Fits p t h (ground arith))
            (λ fits. (
              h.0,
              if_holds (λ b. length b ≤ size) (is_empty p.buf) {x = t} {y = joined p.buf t}
                  (λ e. ground arith) (λ e. ground (arith, length-joined p.buf t)),
            )))

  packed-AllWithin :
      (ts : List Text) → AllWithin size (flush (for_each (add_paragraph size) ts empty_packing))
  packed-AllWithin ts =
      flush-AllWithin (for_each (add_paragraph size) ts empty_packing)
        (for_each-Fits (add_paragraph size) add_paragraph-Fits ts empty_packing (tt, omega arith))

  module _ (least : ℕ) where
    abbrev Merged : List Text → Type 0
    Merged ts = AllWithin (size + least + 1) ts × AllButLast least ts

    cons-Merged :
        (t : Text) (ts : List Text)
        → length t ≤ size + least + 1
        → least ≤ length t
        → Merged ts
        → Merged (t ∷ ts)
    cons-Merged t [] h hl hs = ((h, tt), tt)
    cons-Merged t (u ∷ us) h hl (hw, hb) = ((h, hw), (hl, hb))

    merge_from-Merged :
        (cur : Text) (ts : List Text)
        → length cur ≤ size + least + 1
        → AllWithin size ts
        → Merged (merge_from least cur ts)
    unfolding merge_from
    merge_from-Merged cur [] h hs = ((h, tt), tt)
    merge_from-Merged cur (t ∷ ts) h (ht, hs) =
        let short = ltb (length cur) least in
        let next = if short then joined cur t else t in
        let within : length next ≤ size + least + 1 =
          if_holds (λ b. length b ≤ size + least + 1) short {x = joined cur t} {y = t}
            (λ e. ground (arith, length-joined cur t)) (λ e. omega (arith, ht)) in
        let rest = merge_from-Merged next ts within hs in
        if_holds Merged short (λ e. rest)
          (λ e. cons-Merged cur (merge_from least next ts) h (ground arith) rest)

    merge_tiny-Merged : (ts : List Text) → AllWithin size ts → Merged (merge_tiny least ts)
    merge_tiny-Merged [] h = (tt, tt)
    merge_tiny-Merged (t ∷ ts) (h, hs) = merge_from-Merged t ts (omega (arith, h)) hs

-- Chunks are neither long nor tiny: where the chunk size is positive, no chunk of a text is longer than
-- the chunk size plus the least size plus one, and every chunk but the last has at least the least size.
pub semantic_split_bounds :
    (k : Chunking) (t : Text)
    → 0 < k.chunk_size
    → AllWithin (k.chunk_size + k.min_chunk_size + 1) (semantic_split k t)
      × AllButLast k.min_chunk_size (semantic_split k t)
unfolding semantic_split
semantic_split_bounds k t positive =
    let paras = split_paragraphs (normalize t) in
    if_holds (Merged k.chunk_size k.min_chunk_size) (is_empty (normalize t)) (λ e. (tt, tt))
      (λ e.
        merge_tiny-Merged k.chunk_size k.min_chunk_size
          (flush (for_each (add_paragraph k.chunk_size) paras empty_packing))
          (packed-AllWithin k.chunk_size paras))
