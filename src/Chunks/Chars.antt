-- ===== src/Chunks/Chars.antt =====
-- services/chunker.py: texts as lists of code points, the character classes of its expressions,
-- `str.strip` and `AdaptiveChunker._normalize`.
-- A character of `\s`, of `str.strip` and of `str.isspace` is one of the 29 of the language.
use study_loop.Base.{Bool, List, [], false, if◌then◌else◌, leb, true, ℕ, ◌&&◌, ◌==◌, ◌||◌, ◌∷◌}

abbrev pub Text : Type 0
Text = List ℕ

abbrev pub is_in : ℕ → List ℕ → Bool
is_in c [] = false
is_in c (x ∷ xs) = c == x || is_in c xs

abbrev pub wide_spaces : List ℕ
wide_spaces = 133 ∷ 160 ∷ 5760 ∷ 8232 ∷ 8233 ∷ 8239 ∷ 8287 ∷ 12288 ∷ []

-- `c.isspace()`.
unfoldable pub is_space : ℕ → Bool
is_space c =
    (leb 9 c && leb c 13)
    || (leb 28 c && leb c 32)
    || (leb 8192 c && leb c 8202)
    || is_in c wide_spaces

abbrev pub is_empty : Text → Bool
is_empty [] = true
is_empty (c ∷ cs) = false

abbrev pub lstrip : Text → Text
lstrip [] = []
lstrip (c ∷ cs) = let rest = lstrip cs in if is_space c then rest else c ∷ cs

abbrev pub rstrip : Text → Text
rstrip [] = []
rstrip (c ∷ cs) = let rest = rstrip cs in if is_space c && is_empty rest then [] else c ∷ rest

-- `text.strip()`.
abbrev pub strip : Text → Text
strip t = rstrip (lstrip t)

abbrev newline_first : Text → Bool
newline_first [] = false
newline_first (c ∷ cs) = c == 10

-- `text.replace("\r\n", "\n")`.
abbrev pub replace_crlf : Text → Text
replace_crlf [] = []
replace_crlf (c ∷ cs) =
    let rest = replace_crlf cs in if c == 13 && newline_first cs then rest else c ∷ rest

-- `text.replace("\u3000", " ")`.
abbrev pub replace_ideographic : Text → Text
replace_ideographic [] = []
replace_ideographic (c ∷ cs) = (if c == 12288 then 32 else c) ∷ replace_ideographic cs

-- `re.sub(r"[ \t]+", " ", text)`; the flag says that a run of blanks goes on before the text.
abbrev pub squeeze : Bool → Text → Text
squeeze inside [] = []
squeeze inside (c ∷ cs) =
    let is_tab = c == 32 || c == 9 in
    let rest = squeeze is_tab cs in if is_tab then if inside then rest else 32 ∷ rest else c ∷ rest

-- `_normalize`.
unfoldable pub normalize : Text → Text
normalize text = strip (squeeze false (replace_ideographic (replace_crlf text)))
