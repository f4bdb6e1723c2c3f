-- ===== src/Streaming.antt =====
-- node/src/openai-streaming.js: the parser that cuts a stream of server-sent events into blocks,
-- `consumeSseChunk` and `pendingSseBlock`, and `splitSseBlocks`, which cuts a whole text. A text is
-- the list of its code points; the parts that the parser joins are kept joined.
pub mod Feed
pub mod Newlines
pub mod Blocks
pub mod Chunks
mod Tests
use codex_pooler.Prelude.{
  ℕ, ◌+◌, ◌*◌, ◌≤◌, Bool, true, false, not, ◌&&◌, ◌||◌, Option, none, some, List, [], ◌∷◌, ◌++◌,
  leb, ltb, ◌==◌, if◌then◌else◌,
}

abbrev pub Text : Type 0
Text = List ℕ

abbrev pub lf : ℕ
lf = 10

abbrev pub cr : ℕ
cr = 13

abbrev pub max_sse_event_bytes : ℕ
max_sse_event_bytes = 8 * 1024 * 1024

-- The bytes of a code point in UTF-8.
abbrev pub utf8_width : ℕ → ℕ
utf8_width c = if ltb c 128 then 1 else if ltb c 2048 then 2 else if ltb c 65536 then 3 else 4

abbrev pub byte_length : Text → ℕ
byte_length [] = 0
byte_length (c ∷ cs) = utf8_width c + byte_length cs

-- `replace(/\r\n/g, '\n')`, then `replace(/\r/g, '\n')`.
unfoldable pub replace_crlf : Text → Text
replace_crlf [] = []
replace_crlf (c ∷ []) = c ∷ []
replace_crlf (c ∷ d ∷ r) =
    let pair = lf ∷ replace_crlf r in
    let single = c ∷ replace_crlf (d ∷ r) in if c == cr && d == lf then pair else single

unfoldable pub replace_cr : Text → Text
replace_cr [] = []
replace_cr (c ∷ cs) = (if c == cr then lf else c) ∷ replace_cr cs

-- `split('\n\n')`, with the text since the last cut.
unfoldable pub split_blocks : Text → Text → List Text
split_blocks text [] = text ∷ []
split_blocks text (c ∷ []) = (text ++ c ∷ []) ∷ []
split_blocks text (c ∷ d ∷ r) =
    let cut = text ∷ split_blocks [] r in
    let on = split_blocks (text ++ c ∷ []) (d ∷ r) in if c == lf && d == lf then cut else on

unfoldable pub split_sse_blocks : Text → List Text
unfolding replace_crlf replace_cr split_blocks
split_sse_blocks t = split_blocks [] (replace_cr (replace_crlf t))

pub record Parser : Type 0 where
  pub text : Text
  pub bytes : ℕ
  pub pending_lf : Bool
  pub skip_leading_lf : Bool

abbrev pub create_sse_parser_state : Parser
create_sse_parser_state = record {
  text = [];
  bytes = 0;
  pending_lf = false;
  skip_leading_lf = false;
}

-- `replace(/\r\n?/g, '\n')`; the flag says that the character before was a carriage return.
unfoldable pub replace_newlines : Bool → Text → Text
replace_newlines after [] = []
replace_newlines after (c ∷ cs) =
    let returned = lf ∷ replace_newlines true cs in
    let rest = replace_newlines false cs in
    if c == cr then returned else if after && c == lf then rest else c ∷ rest

unfoldable pub drop_leading_lf : Bool → Text → Text
drop_leading_lf skip [] = []
drop_leading_lf skip (c ∷ cs) = if skip && c == lf then cs else c ∷ cs

unfoldable pub ends_with_cr : Text → Bool
ends_with_cr [] = false
ends_with_cr (c ∷ []) = c == cr
ends_with_cr (c ∷ d ∷ r) = ends_with_cr (d ∷ r)

-- The lines that `indexOf` finds: what stands before the first newline, and the lines after it.
unfoldable pub split_lines : Text → Text × List Text
split_lines [] = ([], [])
split_lines (c ∷ cs) =
    let (line, lines) = split_lines cs in if c == lf then ([], line ∷ lines) else (c ∷ line, lines)

abbrev pub flush_lf : Parser → Parser
flush_lf p =
    if p.pending_lf
    then record p { text = p.text ++ lf ∷ []; bytes = p.bytes + 1; pending_lf = false }
    else p

abbrev pub push_part : Parser → Text → Parser
push_part p part = record p { text = p.text ++ part; bytes = p.bytes + byte_length part }

-- `none` where the event has become too long.
abbrev pub check_bytes : Parser → Option Parser
check_bytes p = if ltb max_sse_event_bytes p.bytes then none else some p

unfoldable pub add_part : Parser → Text → Option Parser
add_part p [] = some p
add_part p (c ∷ cs) = check_bytes (push_part (flush_lf p) (c ∷ cs))

-- A newline: the second in a row ends the block.
abbrev pub cut_block : Parser → Parser
cut_block p = record p { text = []; bytes = 0; pending_lf = false }

unfoldable pub add_newline : Parser → List Text → Option (Parser × List Text)
add_newline p blocks =
    if p.pending_lf
    then some (cut_block p, blocks ++ p.text ∷ [])
    else if ltb max_sse_event_bytes (p.bytes + 1)
    then none
    else some (record p { pending_lf = true }, blocks)

infixl 20 ◌>>=◌
abbrev pub ◌>>=◌ : {A B : Type 0} → Option A → (A → Option B) → Option B
none >>= f = none
(some a) >>= f = f a

-- The loop over a chunk, with the blocks found so far.
unfoldable pub consume_lines : Parser → List Text → Text → List Text → Option (Parser × List Text)
unfolding add_part add_newline
consume_lines p blocks line [] = do p' ← add_part p line; some (p', blocks)
consume_lines p blocks line (next ∷ lines) = do
  p' ← add_part p line
  r ← add_newline p' blocks
  consume_lines r.0 r.1 next lines

pub record Consumed : Type 0 where
  pub blocks : List Text
  pub overflow : Bool
  pub state : Parser

abbrev pub overflow_result : Consumed
overflow_result = record { blocks = []; overflow = true; state = create_sse_parser_state }

abbrev pub to_consumed : Bool → Option (Parser × List Text) → Consumed
to_consumed skip none = overflow_result
to_consumed skip (some (p, blocks)) = record {
  blocks = blocks;
  overflow = false;
  state = record p { skip_leading_lf = skip };
}

unfoldable pub consume_sse_chunk : Parser → Text → Consumed
unfolding replace_newlines drop_leading_lf ends_with_cr split_lines consume_lines
consume_sse_chunk p input =
    let normalized = replace_newlines false (drop_leading_lf p.skip_leading_lf input) in
    let (line, lines) = split_lines normalized in
    to_consumed (ends_with_cr input) (consume_lines p [] line lines)

abbrev pub pending_sse_block : Parser → Text
pending_sse_block p = if p.pending_lf then p.text ++ lf ∷ [] else p.text

-- A stream: the chunks one after another until one overflows, with all blocks.
unfoldable pub consume_chunks : Parser → List Text → List Text → Consumed
unfolding consume_sse_chunk
consume_chunks p blocks [] = record { blocks = blocks; overflow = false; state = p }
consume_chunks p blocks (chunk ∷ chunks) =
    let r = consume_sse_chunk p chunk in
    let rest = consume_chunks r.state (blocks ++ r.blocks) chunks in
    if r.overflow then record r { blocks = blocks } else rest
