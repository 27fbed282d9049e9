-- ===== src/Chunks/Documents.antt =====
-- services/chunker.py: the chunks of documents hold what the documents hold.
use mathlib.Core.List.{append-nil}
use study_loop.Base.{
  Bool-cases, List, [], ap, arith, false, inl, inr, length, refl, suc, sym, ℕ, ◌++◌, ◌<◌, ◌∙◌, ◌∷◌,
  ◌≡◌,
}
use study_loop.Chunks.Chars.{Text, is_empty, strip}
use study_loop.Chunks.Chunker.{
  Chunking, Document, Metadata, chunks_of, is_pdf, pieces_of, split_documents,
}
use study_loop.Chunks.Content.{semantic_split-inks}
use study_loop.Chunks.Ink.{ink, ink-strip, inks, inks-append, is_empty-nil}

-- The texts of documents.
abbrev pub pages : List Document → List Text
pages [] = []
pages (d ∷ ds) = d.page_content ∷ pages ds

-- No document is a PDF.
abbrev pub NoPdf : List Document → Type 0
NoPdf [] = Unit
NoPdf (d ∷ ds) = (is_pdf d ≡ false) × NoPdf ds

pages-append : (ds es : List Document) → pages (ds ++ es) ≡ pages ds ++ pages es
pages-append [] es = refl
pages-append (d ∷ ds) es = ap (λ r. d.page_content ∷ r) (pages-append ds es)

inks-chunks_of :
    (m : Metadata) (total i : ℕ) (ts : List Text) → inks (pages (chunks_of m total i ts)) ≡ inks ts
inks-chunks_of m total i [] = refl
inks-chunks_of m total i (t ∷ ts) = elim (Bool-cases (is_empty (strip t))) [
  | inl e ↦
      let no_ink : ink t ≡ [] = sym (ink-strip t) ∙ ap ink (is_empty-nil (strip t) e) in
      ground (arith, e, no_ink, inks-chunks_of m total (suc i) ts)
  | inr e ↦ ground (arith, e, inks-chunks_of m total (suc i) ts)
]

module _ (pdf_fallback : Text → List Text) (k : Chunking) (positive : 0 < k.chunk_size) where
  inks-pieces_of :
      (d : Document) → is_pdf d ≡ false → inks (pieces_of pdf_fallback k d) ≡ ink d.page_content
  unfolding pieces_of
  inks-pieces_of d h = elim (Bool-cases (is_empty (strip d.page_content))) [
    | inl e ↦
        let no_ink : [] ≡ ink d.page_content =
          ap ink (sym (is_empty-nil (strip d.page_content) e)) ∙ ink-strip d.page_content in
        ground (arith, h, e, no_ink, semantic_split-inks k d.page_content positive)
    | inr e ↦ ground (
      arith,
      h,
      e,
      append-nil (ink d.page_content),
      semantic_split-inks k d.page_content positive,
    )
  ]

  -- No character but white space is lost, doubled or moved: the chunks of documents that are no PDF
  -- hold, in order, the characters of the documents other than white space, where the chunk size is
  -- positive.
  pub split_documents_keeps_text :
      (ds : List Document)
      → NoPdf ds
      → inks (pages (split_documents pdf_fallback k ds)) ≡ inks (pages ds)
  unfolding split_documents
  split_documents_keeps_text [] h = refl
  split_documents_keeps_text (d ∷ ds) (h, hs) =
      let pieces = pieces_of pdf_fallback k d in
      let chunks = chunks_of d.metadata (length pieces) 0 pieces in
      ap inks (pages-append chunks (split_documents pdf_fallback k ds))
      ∙ inks-append (pages chunks) (pages (split_documents pdf_fallback k ds))
      ∙ ap (λ r. r ++ inks (pages (split_documents pdf_fallback k ds)))
          (inks-chunks_of d.metadata (length pieces) 0 pieces ∙ inks-pieces_of d h)
      ∙ ap (λ r. ink d.page_content ++ r) (split_documents_keeps_text ds hs)
