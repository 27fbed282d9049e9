-- ===== src/Chunks/Splits.antt =====
-- services/chunker.py: the splits at `_PARAGRAPH_SEP`, `_SENTENCE_SEP` and `_PUNCT_SEP`.
-- A split is read from left to right: its first piece, and the pieces after it.
use study_loop.Base.{Bool, List, [], false, if◌then◌else◌, ℕ, ◌&&◌, ◌==◌, ◌||◌, ◌∷◌}
use study_loop.Chunks.Chars.{Text, is_empty, is_in, is_space, strip}

-- A newline in the white space that the text begins with.
abbrev pub newline_ahead : Text → Bool
newline_ahead [] = false
newline_ahead (c ∷ cs) = c == 10 || (is_space c && newline_ahead cs)

-- `_PARAGRAPH_SEP.split(text)`: a separator goes from a newline to the last newline of the white space
-- that follows; the flag says that the text begins inside one.
unfoldable pub paragraph_split : Bool → Text → Text × List Text
paragraph_split inside [] = ([], [])
paragraph_split inside (c ∷ cs) =
    let goes_on = (inside || c == 10) && newline_ahead cs in
    let (piece, pieces) = paragraph_split goes_on cs in
    if inside
    then (piece, pieces)
    else if goes_on
    then ([], piece ∷ pieces)
    else (c ∷ piece, pieces)

-- The marks 。！？； and .!?; that end a sentence, the second four only before white space.
abbrev pub wide_stops : List ℕ
wide_stops = 12290 ∷ 65281 ∷ 65311 ∷ 65307 ∷ []

abbrev pub stops : List ℕ
stops = 46 ∷ 33 ∷ 63 ∷ 59 ∷ []

-- The marks ，、：:, that end a piece of a sentence.
abbrev pub commas : List ℕ
commas = 65292 ∷ 12289 ∷ 65306 ∷ 58 ∷ 44 ∷ []

-- `_SENTENCE_SEP` matches after `c`; the flag says that the character before it is one of `.!?;`.
abbrev pub ends_sentence : Bool → ℕ → Bool
ends_sentence stopped c = is_in c wide_stops || (stopped && is_space c)

-- `_SENTENCE_SEP.split(text)`.
unfoldable pub sentence_split : Bool → Text → Text × List Text
sentence_split stopped [] = ([], [])
sentence_split stopped (c ∷ cs) =
    let (piece, pieces) = sentence_split (is_in c stops) cs in
    if ends_sentence stopped c then (c ∷ [], piece ∷ pieces) else (c ∷ piece, pieces)

-- `_PUNCT_SEP.split(text)`.
unfoldable pub punct_split : Text → Text × List Text
punct_split [] = ([], [])
punct_split (c ∷ cs) =
    let (piece, pieces) = punct_split cs in
    if is_in c commas then (c ∷ [], piece ∷ pieces) else (c ∷ piece, pieces)

abbrev pub listed : Text × List Text → List Text
listed (piece, pieces) = piece ∷ pieces

abbrev pub stripped : List Text → List Text
stripped [] = []
stripped (p ∷ ps) =
    let rest = stripped ps in let q = strip p in if is_empty q then rest else q ∷ rest

-- `_split_paragraphs`.
unfoldable pub split_paragraphs : Text → List Text
split_paragraphs text = stripped (listed (paragraph_split false text))
