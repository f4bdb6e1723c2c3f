-- ===== src/Streaming/Tests.antt =====
-- Runs of the parser on small streams, and the theorems at concrete inputs.
use codex_pooler.Prelude.{ℕ, ◌≡◌, ◌≢◌, refl, false, List, [], ◌∷◌, ◌++◌, arith}
use codex_pooler.Streaming.{
  Text, lf, cr, create_sse_parser_state, split_sse_blocks, replace_newlines, ends_with_cr,
  consume_sse_chunk, consume_chunks, to_consumed, pending_sse_block,
}
use codex_pooler.Streaming.Feed.{feed}
use codex_pooler.Streaming.Blocks.{consume_sse_chunk-feed}
use codex_pooler.Streaming.Chunks.{concat, consume_chunks-split_sse_blocks}

-- "a\r", "\n\r", "\nb": an event and what follows it, cut between carriage returns and line feeds.
abbrev cut_chunks : List Text
cut_chunks = (97 ∷ cr ∷ []) ∷ (lf ∷ cr ∷ []) ∷ (lf ∷ 98 ∷ []) ∷ []

Runs : Type 0
Runs =
    (consume_chunks create_sse_parser_state [] cut_chunks).blocks ≡ (97 ∷ []) ∷ []
    × pending_sse_block (consume_chunks create_sse_parser_state [] cut_chunks).state ≡ 98 ∷ []
    × split_sse_blocks (concat cut_chunks) ≡ (97 ∷ []) ∷ (98 ∷ []) ∷ []

runs : Runs
unfolding Runs consume_chunks split_sse_blocks concat
runs = (refl, refl, refl)

full_chunk : {c : ℕ} {cs : Text} → (c ∷ cs) ≢ []
full_chunk = grind arith

consume_chunks-split_sse_blocks_example :
    (consume_chunks create_sse_parser_state [] cut_chunks).blocks
      ++ pending_sse_block (consume_chunks create_sse_parser_state [] cut_chunks).state ∷ []
    ≡ split_sse_blocks (concat cut_chunks)
unfolding consume_chunks
consume_chunks-split_sse_blocks_example =
    consume_chunks-split_sse_blocks cut_chunks (full_chunk, (full_chunk, (full_chunk, tt))) refl

consume_sse_chunk-feed_example :
    consume_sse_chunk create_sse_parser_state (97 ∷ cr ∷ lf ∷ [])
    ≡ to_consumed
        (ends_with_cr (97 ∷ cr ∷ lf ∷ []))
        (feed create_sse_parser_state [] (replace_newlines false (97 ∷ cr ∷ lf ∷ [])))
consume_sse_chunk-feed_example = consume_sse_chunk-feed create_sse_parser_state (97 ∷ cr ∷ lf ∷ [])
