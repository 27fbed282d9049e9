-- ===== src/Chunks/Ink.antt =====
-- services/chunker.py: the characters of a text other than white space, under `strip`, `_normalize`
-- and the three splits.
use mathlib.Core.List.{append_assoc}
use study_loop.Base.{
  ==_iff, Bool, Bool-cases, List, [], ap, arith, false, if◌then◌else◌, inl, inr, refl, subst, sym,
  true, ℕ, ◌++◌, ◌==◌, ◌||◌, ◌∙◌, ◌∷◌, ◌≡◌,
}
use study_loop.Chunks.Chars.{
  Text, is_empty, is_space, lstrip, normalize, replace_crlf, replace_ideographic, rstrip, squeeze,
  strip,
}

-- The characters other than white space, in their order.
abbrev pub ink : Text → Text
ink [] = []
ink (c ∷ cs) = let rest = ink cs in if is_space c then rest else c ∷ rest

abbrev pub inks : List Text → Text
inks [] = []
inks (t ∷ ts) = ink t ++ inks ts

pub ink-append : (s t : Text) → ink (s ++ t) ≡ ink s ++ ink t
ink-append [] t = refl
ink-append (c ∷ cs) t = ground (arith, ink-append cs t)

pub inks-append : (ss ts : List Text) → inks (ss ++ ts) ≡ inks ss ++ inks ts
inks-append [] ts = refl
inks-append (s ∷ ss) ts =
    ap (λ r. ink s ++ r) (inks-append ss ts) ∙ sym (append_assoc (ink s) (inks ss) (inks ts))

pub is_empty-nil : (t : Text) → is_empty t ≡ true → t ≡ []
is_empty-nil [] h = refl
is_empty-nil (c ∷ cs) h = ground arith

ink-lstrip : (t : Text) → ink (lstrip t) ≡ ink t
ink-lstrip [] = refl
ink-lstrip (c ∷ cs) = ground (arith, ink-lstrip cs)

ink-rstrip : (t : Text) → ink (rstrip t) ≡ ink t
ink-rstrip [] = refl
ink-rstrip (c ∷ cs) = elim (Bool-cases (is_empty (rstrip cs))) [
  | inl e ↦
      let no_ink : ink cs ≡ [] = sym (ink-rstrip cs) ∙ ap ink (is_empty-nil (rstrip cs) e) in
      ground (arith, e, no_ink, ink-rstrip cs)
  | inr e ↦ ground (arith, e, ink-rstrip cs)
]

pub ink-strip : (t : Text) → ink (strip t) ≡ ink t
ink-strip t = ink-rstrip (lstrip t) ∙ ink-lstrip t

pub space_of : (c n : ℕ) → (c == n) ≡ true → is_space n ≡ true → is_space c ≡ true
space_of c n e h = subst (λ x. is_space x ≡ true) (sym ((==_iff c n).0 e)) h

ink-replace_crlf : (t : Text) → ink (replace_crlf t) ≡ ink t
ink-replace_crlf [] = refl
ink-replace_crlf (c ∷ cs) = elim (Bool-cases (c == 13)) [
  | inl e ↦ ground (arith, space_of c 13 e (unfold is_space in refl), ink-replace_crlf cs)
  | inr e ↦ ground (arith, e, ink-replace_crlf cs)
]

ink-replace_ideographic : (t : Text) → ink (replace_ideographic t) ≡ ink t
ink-replace_ideographic [] = refl
ink-replace_ideographic (c ∷ cs) = elim (Bool-cases (c == 12288)) [
  | inl e ↦
      let wide = space_of c 12288 e (unfold is_space in refl) in
      let plain : is_space 32 ≡ true = unfold is_space in refl in
      ground (arith, e, wide, plain, ink-replace_ideographic cs)
  | inr e ↦ ground (arith, e, ink-replace_ideographic cs)
]

is_tab-is_space : (c : ℕ) → (c == 32 || c == 9) ≡ true → is_space c ≡ true
is_tab-is_space c h = elim (Bool-cases (c == 32)) [
  | inl e ↦ space_of c 32 e (unfold is_space in refl)
  | inr e ↦ space_of c 9 (ground arith) (unfold is_space in refl)
]

ink-squeeze : (b : Bool) (t : Text) → ink (squeeze b t) ≡ ink t
ink-squeeze b [] = refl
ink-squeeze b (c ∷ cs) = elim (Bool-cases (c == 32 || c == 9)) [
  | inl e ↦
      let plain : is_space 32 ≡ true = unfold is_space in refl in
      ground (arith, e, is_tab-is_space c e, plain, ink-squeeze (c == 32 || c == 9) cs)
  | inr e ↦ ground (arith, e, ink-squeeze (c == 32 || c == 9) cs)
]

pub ink-normalize : (t : Text) → ink (normalize t) ≡ ink t
unfolding normalize
ink-normalize t =
    let u = replace_ideographic (replace_crlf t) in
    ink-strip (squeeze false u)
    ∙ ink-squeeze false u
    ∙ ink-replace_ideographic (replace_crlf t)
    ∙ ink-replace_crlf t
