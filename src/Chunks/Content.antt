-- ===== src/Chunks/Content.antt =====
-- services/chunker.py: the loops of `AdaptiveChunker` lose no character but white space.
use mathlib.Core.List.{append_assoc, append-nil}
use study_loop.Base.{
  Bool-cases, List, [], ap, arith, drop, false, inl, inr, length, length-drop, ltb, refl, suc, sym,
  take, take-append-drop, true, zero, ℕ, ◌++◌, ◌<◌, ◌∙◌, ◌∷◌, ◌≡◌, ◌≤◌,
}
use study_loop.Chunks.Chars.{Text, is_empty, is_space, normalize, strip}
use study_loop.Chunks.Chunker.{
  Chunking, Packing, add_paragraph, add_piece, add_sentence, empty_packing, flush, for_each,
  hard_cut, joined, merge_from, merge_tiny, semantic_split, split_by_punct, split_long,
}
use study_loop.Chunks.Ink.{
  ink, ink-append, ink-normalize, ink-strip, inks, inks-append, is_empty-nil,
}
use study_loop.Chunks.Kept.{inks-punct_split, inks-sentence_split, inks-split_paragraphs}
use study_loop.Chunks.Splits.{listed, punct_split, sentence_split, split_paragraphs}

-- What the locals of a loop hold.
abbrev packed : Packing → Text
packed p = inks p.chunks ++ ink p.buf

inks-flush : (p : Packing) → inks (flush p) ≡ packed p
inks-flush p = elim (Bool-cases (is_empty p.buf)) [
  | inl e ↦
      let no_ink : ink p.buf ≡ [] = ap ink (is_empty-nil p.buf e) in
      ground (arith, e, sym (append-nil (inks p.chunks)), ap (λ r. inks p.chunks ++ r) no_ink)
  | inr e ↦ ground (arith, e, inks-append p.chunks (p.buf ∷ []), append-nil (ink p.buf))
]

closed-packed :
    (p : Packing) (ts : List Text) (t : Text)
    → inks ts ≡ ink t
    → packed (record { chunks = flush p ++ ts; buf = [] }) ≡ packed p ++ ink t
closed-packed p ts t same =
    append-nil (inks (flush p ++ ts))
    ∙ inks-append (flush p) ts
    ∙ ap (λ r. r ++ inks ts) (inks-flush p)
    ∙ ap (λ r. packed p ++ r) same

started-packed :
    (p : Packing) (t : Text) → packed (record { chunks = flush p; buf = t }) ≡ packed p ++ ink t
started-packed p t = ap (λ r. r ++ ink t) (inks-flush p)

grown-packed :
    (p : Packing) (t u : Text)
    → ink u ≡ ink p.buf ++ ink t
    → packed (record { chunks = p.chunks; buf = u }) ≡ packed p ++ ink t
grown-packed p t u same =
    ap (λ r. inks p.chunks ++ r) same ∙ sym (append_assoc (inks p.chunks) (ink p.buf) (ink t))

for_each-packed :
    (step : Text → Packing → Packing)
    → ((t : Text) (p : Packing) → packed (step t p) ≡ packed p ++ ink t)
    → (ts : List Text) (p : Packing) → packed (for_each step ts p) ≡ packed p ++ inks ts
for_each-packed step keeps [] p = sym (append-nil (packed p))
for_each-packed step keeps (t ∷ ts) p =
    for_each-packed step keeps ts (step t p)
    ∙ ap (λ r. r ++ inks ts) (keeps t p)
    ∙ append_assoc (packed p) (ink t) (inks ts)

pub for_each-inks :
    (step : Text → Packing → Packing)
    → ((t : Text) (p : Packing) → packed (step t p) ≡ packed p ++ ink t)
    → (ts : List Text) → inks (flush (for_each step ts empty_packing)) ≡ inks ts
for_each-inks step keeps ts =
    inks-flush (for_each step ts empty_packing) ∙ for_each-packed step keeps ts empty_packing

hard_cut-inks :
    (fuel size : ℕ) (t : Text) → 0 < size → length t ≤ fuel → inks (hard_cut fuel size t) ≡ ink t
unfolding hard_cut
hard_cut-inks zero size [] positive enough = refl
hard_cut-inks zero size (c ∷ cs) positive enough = absurd (omega (arith, enough))
hard_cut-inks (suc fuel) size [] positive enough = refl
hard_cut-inks (suc fuel) size (c ∷ cs) positive enough =
    let t = c ∷ cs in
    let less : length (drop size t) ≤ fuel = omega (arith, length-drop size t, positive, enough) in
    ap (λ r. ink (take size t) ++ r) (hard_cut-inks fuel size (drop size t) positive less)
    ∙ sym (ink-append (take size t) (drop size t))
    ∙ ap ink (take-append-drop size t)

module _ (size : ℕ) (positive : 0 < size) where
  add_piece-packed : (t : Text) (p : Packing) → packed (add_piece size t p) ≡ packed p ++ ink t
  unfolding add_piece
  add_piece-packed t p = elim (Bool-cases (is_empty t)) [
    | inl e ↦
        let no_ink : ink t ≡ [] = ap ink (is_empty-nil t e) in
        ground (arith, e, append-nil (packed p), ap (λ r. packed p ++ r) no_ink)
    | inr e ↦
        let cut =
          closed-packed p (hard_cut (length t) size t) t
            (hard_cut-inks (length t) size t positive (omega arith)) in
        ground
          (arith, e, cut, started-packed p t, grown-packed p t (p.buf ++ t) (ink-append p.buf t))
  ]

  split_by_punct-inks : (t : Text) → inks (split_by_punct size t) ≡ ink t
  unfolding split_by_punct
  split_by_punct-inks t =
      for_each-inks (add_piece size) add_piece-packed (listed (punct_split t)) ∙ inks-punct_split t

  add_sentence-packed :
      (t : Text) (p : Packing) → packed (add_sentence size t p) ≡ packed p ++ ink t
  unfolding add_sentence
  add_sentence-packed t p =
      let s = strip t in
      let same : packed p ++ ink s ≡ packed p ++ ink t = ap (λ r. packed p ++ r) (ink-strip t) in
      elim (Bool-cases (is_empty s)) [
        | inl e ↦
            let no_ink : ink s ≡ [] = ap ink (is_empty-nil s e) in
            ground (arith, e, same, append-nil (packed p), ap (λ r. packed p ++ r) no_ink)
        | inr e ↦
            let cut = closed-packed p (split_by_punct size s) s (split_by_punct-inks s) in
            let grown = grown-packed p s (p.buf ++ s) (ink-append p.buf s) in
            ground (arith, e, same, cut, started-packed p s, grown)
      ]

  split_long-inks : (t : Text) → inks (split_long size t) ≡ ink t
  unfolding split_long
  split_long-inks t =
      for_each-inks (add_sentence size) add_sentence-packed (listed (sentence_split false t))
      ∙ inks-sentence_split false t

  pub ink-joined : (s t : Text) → ink (joined s t) ≡ ink s ++ ink t
  ink-joined s t =
      let line : is_space 10 ≡ true = unfold is_space in refl in
      let same : ink (10 ∷ 10 ∷ t) ≡ ink t = ground (arith, line) in
      ink-append s (10 ∷ 10 ∷ t) ∙ ap (λ r. ink s ++ r) same

  add_paragraph-packed :
      (t : Text) (p : Packing) → packed (add_paragraph size t p) ≡ packed p ++ ink t
  unfolding add_paragraph
  add_paragraph-packed t p =
      let cut = closed-packed p (split_long size t) t (split_long-inks t) in
      let grown = grown-packed p t (joined p.buf t) (ink-joined p.buf t) in
      elim (Bool-cases (is_empty p.buf)) [
        | inl e ↦
            let first =
              grown-packed p t t (ap (λ b. ink b ++ ink t) (sym (is_empty-nil p.buf e))) in
            ground (arith, e, cut, started-packed p t, first)
        | inr e ↦ ground (arith, e, cut, started-packed p t, grown)
      ]

  merge_from-inks :
      (least : ℕ) (cur : Text) (ts : List Text)
      → inks (merge_from least cur ts) ≡ ink cur ++ inks ts
  unfolding merge_from
  merge_from-inks least cur [] = refl
  merge_from-inks least cur (t ∷ ts) = elim (Bool-cases (ltb (length cur) least)) [
    | inl e ↦
        let rest = merge_from-inks least (joined cur t) ts in
        let whole = ap (λ r. r ++ inks ts) (ink-joined cur t) in
        ground (arith, e, rest, whole, append_assoc (ink cur) (ink t) (inks ts))
    | inr e ↦ ground (arith, e, ap (λ r. ink cur ++ r) (merge_from-inks least t ts))
  ]

  merge_tiny-inks : (least : ℕ) (ts : List Text) → inks (merge_tiny least ts) ≡ inks ts
  merge_tiny-inks least [] = refl
  merge_tiny-inks least (t ∷ ts) = merge_from-inks least t ts

pub semantic_split-inks :
    (k : Chunking) (t : Text) → 0 < k.chunk_size → inks (semantic_split k t) ≡ ink t
unfolding semantic_split
semantic_split-inks k t positive =
    let text = normalize t in
    let size = k.chunk_size in
    let paras = split_paragraphs text in
    let same : inks
          (merge_tiny k.min_chunk_size (flush (for_each (add_paragraph size) paras empty_packing)))
        ≡ ink t =
      merge_tiny-inks size positive k.min_chunk_size
        (flush (for_each (add_paragraph size) paras empty_packing))
      ∙ for_each-inks (add_paragraph size) (add_paragraph-packed size positive) paras
      ∙ inks-split_paragraphs text
      ∙ ink-normalize t in
    elim (Bool-cases (is_empty text)) [
      | inl e ↦
          let no_ink : [] ≡ ink t = ap ink (sym (is_empty-nil text e)) ∙ ink-normalize t in
          ground (arith, e, no_ink)
      | inr e ↦ ground (arith, e, same)
    ]
