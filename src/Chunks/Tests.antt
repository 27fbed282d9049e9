-- ===== src/Chunks/Tests.antt =====
-- Chunking of a small document, and the theorems at that input.
use study_loop.Base.{[], arith, none, refl, ◌∷◌, ◌≡◌}
use study_loop.Chunks.Bounds.{AllButLast, AllWithin, semantic_split_bounds}
use study_loop.Chunks.Chars.{Text, is_space, normalize}
use study_loop.Chunks.Chunker.{
  Chunking, Document, add_paragraph, add_piece, add_sentence, hard_cut, merge_from, pieces_of,
  semantic_split, split_by_punct, split_documents, split_long,
}
use study_loop.Chunks.Documents.{pages, split_documents_keeps_text}
use study_loop.Chunks.Ink.{inks}
use study_loop.Chunks.Splits.{paragraph_split, punct_split, sentence_split, split_paragraphs}
use study_loop.Json.{end}

-- Chunks of at most 4 characters, the least size 2.
abbrev small : Chunking
small = record { chunk_size = 4; min_chunk_size = 2 }

-- The text "a\t b\r\n \n\ncd。efghij" of two paragraphs.
abbrev two_paragraphs : Text
two_paragraphs =
    97 ∷ 9 ∷ 32 ∷ 98 ∷ 13 ∷ 10 ∷ 32 ∷ 10 ∷ 10 ∷ 99 ∷ 100 ∷ 12290 ∷ 101 ∷ 102 ∷ 103 ∷ 104 ∷ 105 ∷ 106
    ∷ []

abbrev note : Document
note = record {
  page_content = two_paragraphs;
  metadata = record {
    file_type = 84 ∷ 88 ∷ 84 ∷ [];
    chunk_index = none;
    total_chunks = none;
    others = end;
  };
}

note_chunks :
    pages (split_documents (λ t. t ∷ []) small (note ∷ []))
    ≡ (97 ∷ 32 ∷ 98 ∷ [])
      ∷ (99 ∷ 100 ∷ 12290 ∷ [])
      ∷ (101 ∷ 102 ∷ 103 ∷ 104 ∷ [])
      ∷ (105 ∷ 106 ∷ [])
      ∷ []
unfolding split_documents semantic_split normalize is_space split_paragraphs paragraph_split
    pieces_of sentence_split punct_split hard_cut add_piece split_by_punct add_sentence split_long
    add_paragraph merge_from
note_chunks = refl

split_documents_keeps_text_example :
    inks (pages (split_documents (λ t. t ∷ []) small (note ∷ [])))
    ≡ 97 ∷ 98 ∷ 99 ∷ 100 ∷ 12290 ∷ 101 ∷ 102 ∷ 103 ∷ 104 ∷ 105 ∷ 106 ∷ []
unfolding is_space
split_documents_keeps_text_example =
    split_documents_keeps_text (λ t. t ∷ []) small (omega arith) (note ∷ []) (refl, tt)

semantic_split_bounds_example :
    AllWithin 7 (semantic_split small two_paragraphs)
    × AllButLast 2 (semantic_split small two_paragraphs)
semantic_split_bounds_example = semantic_split_bounds small two_paragraphs (omega arith)
