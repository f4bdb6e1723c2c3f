-- ===== src/Streaming/Blocks.antt =====
-- The blocks that the parser cuts from a stream of chunks, against `splitSseBlocks` on the whole text.
use codex_pooler.Prelude.{
  ℕ, ◌+◌, ◌≡◌, refl, sym, ap, ◌∙◌, Bool, true, false, some, List, [], ◌∷◌, ◌++◌, arith, ltb, ◌==◌,
  if◌then◌else◌, Bool-cases, ==_iff, Option-cases, inl, inr, append_assoc,
}
use codex_pooler.Streaming.{
  Text, lf, Parser, split_blocks, replace_newlines, drop_leading_lf, ends_with_cr, add_part,
  add_newline, consume_sse_chunk, to_consumed, pending_sse_block, max_sse_event_bytes, utf8_width,
}
use codex_pooler.Streaming.Feed.{feed, take_char, consume_lines-feed}
use codex_pooler.Streaming.Newlines.{replace_newlines-drop_leading_lf}

-- The text of an unfinished event that the parser holds.
abbrev pub held : Parser → Text → Text
held p t = if p.pending_lf then lf ∷ t else t

split_blocks-cons :
    (acc : Text) (c : ℕ) (t : Text)
    → c == lf ≡ false
    → split_blocks acc (c ∷ t) ≡ split_blocks (acc ++ c ∷ []) t
unfolding split_blocks
split_blocks-cons acc c [] e = refl
split_blocks-cons acc c (d ∷ t) e = rw (e, split_blocks) refl

split_blocks_single :
    (acc : Text) (c : ℕ) (t : Text)
    → c == lf ≡ false
    → split_blocks acc (lf ∷ c ∷ t) ≡ split_blocks (acc ++ lf ∷ []) (c ∷ t)
unfolding split_blocks
split_blocks_single acc c t e = rw (e, split_blocks) refl

abbrev with_pending : Parser → Bool → Parser
with_pending p pending = record p { pending_lf = pending }

-- A newline keeps the blocks of what is cut already, of the held text and of the rest.
add_newline-blocks :
    (p : Parser) (pending : Bool) (bs : List Text) (r : Parser × List Text) (cs : Text)
    → add_newline (with_pending p pending) bs ≡ some r
    → r.1 ++ split_blocks r.0.text (held r.0 cs)
      ≡ bs ++ split_blocks p.text (held (with_pending p pending) (lf ∷ cs))
unfolding add_newline split_blocks
add_newline-blocks p true bs r cs h =
    let same : r ≡ (record p { text = []; bytes = 0; pending_lf = false }, bs ++ p.text ∷ []) =
      cc in
    rw (same, add_newline) (append_assoc bs (p.text ∷ []) (split_blocks [] cs))
add_newline-blocks p false bs r cs h = elim (Bool-cases (ltb max_sse_event_bytes (p.bytes + 1))) [
  | inl e ↦ cc (rw e at h)
  | inr e ↦
      let opened : some (record p { pending_lf = true }, bs) ≡ some r = rw e at h in
      let same : r ≡ (record p { pending_lf = true }, bs) = cc in rw same refl
]

-- So does any other character.
add_part-blocks :
    (p : Parser) (pending : Bool) (q : Parser) (c : ℕ) (cs : Text)
    → c == lf ≡ false
    → add_part (with_pending p pending) (c ∷ []) ≡ some q
    → split_blocks q.text (held q cs) ≡ split_blocks p.text (held (with_pending p pending) (c ∷ cs))
unfolding add_part
add_part-blocks p true q c cs e h =
    elim (Bool-cases (ltb max_sse_event_bytes (p.bytes + 1 + (utf8_width c + 0)))) [
      | inl l ↦ cc (rw l at h)
      | inr l ↦
          let same : q ≡ (record p {
            text = (p.text ++ lf ∷ []) ++ c ∷ [];
            bytes = p.bytes + 1 + (utf8_width c + 0);
            pending_lf = false;
          }) =
            cc (rw l at h) in
          rw same
            (sym (split_blocks_single p.text c cs e ∙ split_blocks-cons (p.text ++ lf ∷ []) c cs e))
    ]
add_part-blocks p false q c cs e h =
    elim (Bool-cases (ltb max_sse_event_bytes (p.bytes + (utf8_width c + 0)))) [
      | inl l ↦ cc (rw l at h)
      | inr l ↦
          let same : q ≡ (record p {
            text = p.text ++ c ∷ [];
            bytes = p.bytes + (utf8_width c + 0);
            pending_lf = false;
          }) =
            cc (rw l at h) in
          rw same (sym (split_blocks-cons p.text c cs e))
    ]

take_char-blocks :
    (p : Parser) (bs : List Text) (c : ℕ) (r : Parser × List Text) (cs : Text)
    → take_char p bs c ≡ some r
    → r.1 ++ split_blocks r.0.text (held r.0 cs) ≡ bs ++ split_blocks p.text (held p (c ∷ cs))
unfolding add_part
take_char-blocks p bs c r cs h = elim (Bool-cases (c == lf)) [
  | inl e ↦
      let newline : c ≡ lf = (==_iff c lf).0 e in
      rw newline (add_newline-blocks p p.pending_lf bs r cs (rw e at h))
  | inr e ↦ elim (Option-cases (add_part p (c ∷ []))) [
    | inl n ↦ cc (rw (e, n) at h)
    | inr (q, n) ↦
        let same : r ≡ (q, bs) = cc (rw (e, n) at h) in
        rw same (ap (λ t. bs ++ t) (add_part-blocks p p.pending_lf q c cs e n))
  ]
]

pub feed-blocks :
    (p : Parser) (bs : List Text) (t u : Text) (r : Parser × List Text)
    → feed p bs t ≡ some r
    → r.1 ++ split_blocks r.0.text (held r.0 u) ≡ bs ++ split_blocks p.text (held p (t ++ u))
unfolding feed
feed-blocks p bs [] u r h = let same : r ≡ (p, bs) = cc in rw same refl
feed-blocks p bs (c ∷ cs) u r h = elim (Option-cases (take_char p bs c)) [
  | inl n ↦ cc (rw (n, feed) at h)
  | inr (q, n) ↦
      feed-blocks q.0 q.1 cs u r (rw (n, feed) at h) ∙ take_char-blocks p bs c q (cs ++ u) n
]

pub split_blocks-held : (p : Parser) → split_blocks p.text (held p []) ≡ pending_sse_block p ∷ []
unfolding split_blocks
split_blocks-held p = ground arith

-- A chunk makes of the state what the machine makes of its characters.
pub consume_sse_chunk-feed :
    (p : Parser) (input : Text)
    → consume_sse_chunk p input
      ≡ to_consumed (ends_with_cr input) (feed p [] (replace_newlines p.skip_leading_lf input))
unfolding consume_sse_chunk
consume_sse_chunk-feed p input =
    let normalized = replace_newlines false (drop_leading_lf p.skip_leading_lf input) in
    ap (to_consumed (ends_with_cr input)) (consume_lines-feed p [] normalized)
    ∙ ap (λ t. to_consumed (ends_with_cr input) (feed p [] t))
        (replace_newlines-drop_leading_lf p.skip_leading_lf input)
