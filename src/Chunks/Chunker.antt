-- ===== src/Chunks/Chunker.antt =====
-- services/chunker.py: `AdaptiveChunker`, from the hard cut up to `split_documents`.
-- The splitter of a package that PDF files go to is the parameter `pdf_fallback`. `chunk_overlap` is
-- read by it alone, and `chunk_size` is positive where `range` is stepped by it.
use study_loop.Base.{
  Bool, List, Option, [], drop, false, if◌then◌else◌, leb, length, ltb, some, suc, take, true, zero,
  ℕ, ◌&&◌, ◌++◌, ◌+◌, ◌==◌, ◌∷◌,
}
use study_loop.Chunks.Chars.{Text, is_empty, normalize, strip}
use study_loop.Chunks.Splits.{listed, punct_split, sentence_split, split_paragraphs}
use study_loop.Json.{Fields}

pub record Chunking : Type 0 where
  pub chunk_size : ℕ
  pub min_chunk_size : ℕ

-- The locals `chunks` and `buf` of a loop.
pub record Packing : Type 0 where
  pub chunks : List Text
  pub buf : Text

abbrev pub empty_packing : Packing
empty_packing = record { chunks = []; buf = [] }

-- `if buf: chunks.append(buf)`.
abbrev pub flush : Packing → List Text
flush p = if is_empty p.buf then p.chunks else p.chunks ++ p.buf ∷ []

abbrev pub for_each : (Text → Packing → Packing) → List Text → Packing → Packing
for_each step [] p = p
for_each step (x ∷ xs) p = for_each step xs (step x p)

-- `for i in range(0, len(piece), size): chunks.append(piece[i:i + size])`, in at most `fuel` steps.
unfoldable pub hard_cut : ℕ → ℕ → Text → List Text
hard_cut zero size piece = []
hard_cut (suc fuel) size piece =
    let rest = hard_cut fuel size (drop size piece) in
    if is_empty piece then [] else take size piece ∷ rest

-- One round of the loop of `_split_by_punct`.
unfoldable pub add_piece : ℕ → Text → Packing → Packing
add_piece size piece p =
    if is_empty piece
    then p
    else if ltb size (length p.buf + length piece)
    then if ltb size (length piece)
      then record { chunks = flush p ++ hard_cut (length piece) size piece; buf = [] }
      else record { chunks = flush p; buf = piece }
    else record { chunks = p.chunks; buf = p.buf ++ piece }

-- `_split_by_punct`.
unfoldable pub split_by_punct : ℕ → Text → List Text
split_by_punct size text =
    flush (for_each (add_piece size) (listed (punct_split text)) empty_packing)

-- One round of the loop of `_split_long`.
unfoldable pub add_sentence : ℕ → Text → Packing → Packing
add_sentence size sentence p =
    let sent = strip sentence in
    if is_empty sent
    then p
    else if ltb size (length sent)
    then record { chunks = flush p ++ split_by_punct size sent; buf = [] }
    else if ltb size (length p.buf + length sent)
    then record { chunks = flush p; buf = sent }
    else record { chunks = p.chunks; buf = p.buf ++ sent }

-- `_split_long`.
unfoldable pub split_long : ℕ → Text → List Text
split_long size paragraph =
    flush (for_each (add_sentence size) (listed (sentence_split false paragraph)) empty_packing)

-- `f"{one}\n\n{two}"`.
abbrev pub joined : Text → Text → Text
joined one two = one ++ 10 ∷ 10 ∷ two

-- One round of the loop of `_semantic_split`.
unfoldable pub add_paragraph : ℕ → Text → Packing → Packing
add_paragraph size para p =
    if ltb size (length para)
    then record { chunks = flush p ++ split_long size para; buf = [] }
    else if ltb size (length p.buf + length para + 2)
    then record { chunks = flush p; buf = para }
    else record { chunks = p.chunks; buf = if is_empty p.buf then para else joined p.buf para }

-- The loop of `_merge_tiny`, with its local `cur`.
unfoldable pub merge_from : ℕ → Text → List Text → List Text
merge_from least cur [] = cur ∷ []
merge_from least cur (nxt ∷ rest) =
    let short = ltb (length cur) least in
    let merged = merge_from least (if short then joined cur nxt else nxt) rest in
    if short then merged else cur ∷ merged

-- `_merge_tiny`.
abbrev pub merge_tiny : ℕ → List Text → List Text
merge_tiny least [] = []
merge_tiny least (c ∷ cs) = merge_from least c cs

-- `_semantic_split`.
unfoldable pub semantic_split : Chunking → Text → List Text
semantic_split k content =
    let text = normalize content in
    if is_empty text
    then []
    else merge_tiny k.min_chunk_size
        (flush (for_each (add_paragraph k.chunk_size) (split_paragraphs text) empty_packing))

-- `doc.metadata`: `file_type`, empty where it is missing, the keys that the chunker sets, and the rest.
pub record Metadata : Type 0 where
  pub file_type : Text
  pub chunk_index : Option ℕ
  pub total_chunks : Option ℕ
  pub others : Fields

pub record Document : Type 0 where
  pub page_content : Text
  pub metadata : Metadata

-- `lower()` on the letters A to Z; no other character becomes a letter of the two names below.
abbrev lower : Text → Text
lower [] = []
lower (c ∷ cs) = (if leb 65 c && leb c 90 then c + 32 else c) ∷ lower cs

abbrev text_eq : Text → Text → Bool
text_eq [] [] = true
text_eq [] (d ∷ ds) = false
text_eq (c ∷ cs) [] = false
text_eq (c ∷ cs) (d ∷ ds) = c == d && text_eq cs ds

-- `file_type == "pdf"` and `file_type == "image"`.
abbrev pub is_pdf : Document → Bool
is_pdf d = text_eq (lower d.metadata.file_type) (112 ∷ 100 ∷ 102 ∷ [])

abbrev pub is_image : Document → Bool
is_image d = text_eq (lower d.metadata.file_type) (105 ∷ 109 ∷ 97 ∷ 103 ∷ 101 ∷ [])

-- The pieces of a document, by its file type.
unfoldable pub pieces_of : (Text → List Text) → Chunking → Document → List Text
pieces_of pdf_fallback k d =
    if is_pdf d
    then pdf_fallback d.page_content
    else if is_image d
    then if is_empty (strip d.page_content) then [] else d.page_content ∷ []
    else semantic_split k d.page_content

-- The chunks of a document, from the piece of index `i` on.
abbrev pub chunks_of : Metadata → ℕ → ℕ → List Text → List Document
chunks_of m total i [] = []
chunks_of m total i (piece ∷ pieces) =
    let rest = chunks_of m total (suc i) pieces in
    if is_empty (strip piece)
    then rest
    else record {
      page_content = piece;
      metadata = record m { chunk_index = some i; total_chunks = some total };
    }
      ∷ rest

-- `split_documents`.
unfoldable pub split_documents : (Text → List Text) → Chunking → List Document → List Document
split_documents pdf_fallback k [] = []
split_documents pdf_fallback k (d ∷ ds) =
    let pieces = pieces_of pdf_fallback k d in
    chunks_of d.metadata (length pieces) 0 pieces ++ split_documents pdf_fallback k ds
