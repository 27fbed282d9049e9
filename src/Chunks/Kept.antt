-- ===== src/Chunks/Kept.antt =====
-- services/chunker.py: the three splits lose no character but white space.
use study_loop.Base.{
  Bool, Bool-cases, List, [], and_left, and_right, ap, arith, false, false≢true, inl, inr, refl,
  sym, true, ℕ, ◌&&◌, ◌==◌, ◌∙◌, ◌∷◌, ◌≡◌,
}
use study_loop.Chunks.Chars.{Text, is_empty, is_in, is_space, strip}
use study_loop.Chunks.Ink.{ink, ink-strip, inks, is_empty-nil, space_of}
use study_loop.Chunks.Splits.{
  listed, newline_ahead, paragraph_split, punct_split, sentence_split, split_paragraphs, stops,
  stripped,
}

newline_ahead-is_space : (c : ℕ) (cs : Text) → newline_ahead (c ∷ cs) ≡ true → is_space c ≡ true
newline_ahead-is_space c cs h = elim (Bool-cases (c == 10)) [
  | inl e ↦ space_of c 10 e (unfold is_space in refl)
  | inr e ↦ ground arith
]

cons-inks :
    (c : ℕ) (cs : Text) (r : Text × List Text)
    → inks (listed r) ≡ ink cs
    → inks ((c ∷ r.0) ∷ r.1) ≡ ink (c ∷ cs)
cons-inks c cs r same = ground (arith, same)

cut-inks :
    (c : ℕ) (cs : Text) (r : Text × List Text)
    → inks (listed r) ≡ ink cs
    → inks ((c ∷ []) ∷ listed r) ≡ ink (c ∷ cs)
cut-inks c cs r same = ground (arith, same)

pub inks-paragraph_split :
    (b : Bool) (t : Text)
    → (b ≡ true → newline_ahead t ≡ true)
    → inks (listed (paragraph_split b t)) ≡ ink t
unfolding paragraph_split
inks-paragraph_split b [] h = refl
inks-paragraph_split true (c ∷ cs) h =
    let space = newline_ahead-is_space c cs (h refl) in
    ground (arith, space, inks-paragraph_split (newline_ahead cs) cs (λ e. e))
inks-paragraph_split false (c ∷ cs) h =
    let g = c == 10 && newline_ahead cs in
    let rest = inks-paragraph_split g cs (λ e. and_right (c == 10) (newline_ahead cs) e) in
    elim (Bool-cases g) [
      | inl e ↦
          let space =
            space_of c 10 (and_left (c == 10) (newline_ahead cs) e) (unfold is_space in refl) in
          ground (arith, e, space, rest)
      | inr e ↦ ground (arith, e, cons-inks c cs (paragraph_split g cs) rest)
    ]

pub inks-sentence_split : (b : Bool) (t : Text) → inks (listed (sentence_split b t)) ≡ ink t
unfolding sentence_split
inks-sentence_split b [] = refl
inks-sentence_split b (c ∷ cs) =
    let r = sentence_split (is_in c stops) cs in
    let rest = inks-sentence_split (is_in c stops) cs in
    ground (arith, cons-inks c cs r rest, cut-inks c cs r rest)

pub inks-punct_split : (t : Text) → inks (listed (punct_split t)) ≡ ink t
unfolding punct_split
inks-punct_split [] = refl
inks-punct_split (c ∷ cs) =
    let rest = inks-punct_split cs in
    ground (arith, cons-inks c cs (punct_split cs) rest, cut-inks c cs (punct_split cs) rest)

pub inks-stripped : (ts : List Text) → inks (stripped ts) ≡ inks ts
inks-stripped [] = refl
inks-stripped (t ∷ ts) = elim (Bool-cases (is_empty (strip t))) [
  | inl e ↦
      let no_ink : ink t ≡ [] = sym (ink-strip t) ∙ ap ink (is_empty-nil (strip t) e) in
      ground (arith, e, no_ink, inks-stripped ts)
  | inr e ↦ ground (arith, e, ink-strip t, inks-stripped ts)
]

pub inks-split_paragraphs : (t : Text) → inks (split_paragraphs t) ≡ ink t
unfolding split_paragraphs
inks-split_paragraphs t =
    inks-stripped (listed (paragraph_split false t))
    ∙ inks-paragraph_split false t (λ e. absurd (false≢true e))
