-- ===== src/Streaming/Chunks.antt =====
-- A stream of chunks: what `consumeSseChunk` finds over all of them.
use codex_pooler.Prelude.{
  ℕ, ◌≡◌, ◌≢◌, refl, sym, ap, ◌∙◌, true, false, none, some, List, [], ◌∷◌, ◌++◌, Option-cases, inl,
  inr, append_assoc, All,
}
use codex_pooler.Streaming.{
  Text, Parser, create_sse_parser_state, split_blocks, split_sse_blocks, replace_newlines,
  ends_with_cr, consume_chunks, pending_sse_block,
}
use codex_pooler.Streaming.Feed.{feed}
use codex_pooler.Streaming.Newlines.{replace_newlines-append, replace_cr-replace_crlf}
use codex_pooler.Streaming.Blocks.{held, feed-blocks, split_blocks-held, consume_sse_chunk-feed}

unfoldable pub concat : List Text → Text
concat [] = []
concat (t ∷ ts) = t ++ concat ts

abbrev pub IsNonEmpty : Text → Type 0
IsNonEmpty t = t ≢ []

consume_chunks_finished :
    (p : Parser) (bs : List Text) (c : ℕ) (cs : Text) (chunks : List Text) (q : Parser × List Text)
    → feed p [] (replace_newlines p.skip_leading_lf (c ∷ cs)) ≡ some q
    → consume_chunks p bs ((c ∷ cs) ∷ chunks)
      ≡ consume_chunks (record q.0 { skip_leading_lf = ends_with_cr (c ∷ cs) }) (bs ++ q.1) chunks
unfolding consume_chunks
consume_chunks_finished p bs c cs chunks q e = rw (consume_sse_chunk-feed p (c ∷ cs), e) refl

consume_chunks_overflown :
    (p : Parser) (bs : List Text) (c : ℕ) (cs : Text) (chunks : List Text)
    → feed p [] (replace_newlines p.skip_leading_lf (c ∷ cs)) ≡ none
    → (consume_chunks p bs ((c ∷ cs) ∷ chunks)).overflow ≡ true
unfolding consume_chunks
consume_chunks_overflown p bs c cs chunks e = rw (consume_sse_chunk-feed p (c ∷ cs), e) refl

consume_chunks-blocks :
    (p : Parser) (bs chunks : List Text)
    → All IsNonEmpty chunks
    → (consume_chunks p bs chunks).overflow ≡ false
    → (consume_chunks p bs chunks).blocks
        ++ pending_sse_block (consume_chunks p bs chunks).state ∷ []
      ≡ bs ++ split_blocks p.text (held p (replace_newlines p.skip_leading_lf (concat chunks)))
unfolding concat replace_newlines consume_chunks
consume_chunks-blocks p bs [] full done = sym (ap (λ t. bs ++ t) (split_blocks-held p))
consume_chunks-blocks p bs ([] ∷ chunks) (bad, full) done = elim (bad refl) [ ]
consume_chunks-blocks p bs ((c ∷ cs) ∷ chunks) (_, full) done =
    let normal = replace_newlines p.skip_leading_lf (c ∷ cs) in
    let rest = replace_newlines (ends_with_cr (c ∷ cs)) (concat chunks) in
    elim (Option-cases (feed p [] normal)) [
      | inl e ↦ cc (consume_chunks_overflown p bs c cs chunks e, done)
      | inr (q, e) ↦
          let next = record q.0 { skip_leading_lf = ends_with_cr (c ∷ cs) } in
          let finished = consume_chunks_finished p bs c cs chunks q e in
          let held_on = consume_chunks-blocks next (bs ++ q.1) chunks full (rw finished at done) in
          ap (λ r. r.blocks ++ pending_sse_block r.state ∷ []) finished
          ∙ held_on
          ∙ append_assoc bs q.1 (split_blocks q.0.text (held q.0 rest))
          ∙ ap (λ t. bs ++ t) (feed-blocks p [] normal rest q e)
          ∙ ap (λ t. bs ++ split_blocks p.text (held p t))
              (sym (replace_newlines-append p.skip_leading_lf (c ∷ cs) (concat chunks)))
    ]

-- The chunks of a stream may be cut anywhere: when no event is too long and no chunk is empty, the
-- blocks that the parser finds from its initial state, followed by the one it still holds, are the
-- blocks that `splitSseBlocks` cuts from the whole text.
pub consume_chunks-split_sse_blocks :
    (chunks : List Text)
    → All IsNonEmpty chunks
    → (consume_chunks create_sse_parser_state [] chunks).overflow ≡ false
    → (consume_chunks create_sse_parser_state [] chunks).blocks
        ++ pending_sse_block (consume_chunks create_sse_parser_state [] chunks).state ∷ []
      ≡ split_sse_blocks (concat chunks)
unfolding split_sse_blocks
consume_chunks-split_sse_blocks chunks full done =
    consume_chunks-blocks create_sse_parser_state [] chunks full done
    ∙ ap (split_blocks []) (sym (replace_cr-replace_crlf (concat chunks)))
