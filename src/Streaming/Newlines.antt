-- ===== src/Streaming/Newlines.antt =====
-- Carriage returns across chunks.
use codex_pooler.Prelude.{
  ℕ, ◌≡◌, refl, sym, ap, ◌∙◌, Bool, false, ◌&&◌, [], ◌∷◌, ◌++◌, arith, ◌==◌, if◌then◌else◌,
  append_assoc,
}
use codex_pooler.Streaming.{
  Text, lf, cr, replace_crlf, replace_cr, replace_newlines, drop_leading_lf, ends_with_cr,
}

-- What the flag has become after a chunk.
abbrev pub after_chunk : Bool → Text → Bool
after_chunk after [] = after
after_chunk after (c ∷ cs) = ends_with_cr (c ∷ cs)

-- A leading line feed that is skipped is the rest of a carriage return before it.
pub replace_newlines-drop_leading_lf :
    (skip : Bool) (t : Text)
    → replace_newlines false (drop_leading_lf skip t) ≡ replace_newlines skip t
unfolding replace_newlines drop_leading_lf
replace_newlines-drop_leading_lf skip [] = refl
replace_newlines-drop_leading_lf skip (c ∷ cs) = ground arith

replace_newlines_flag :
    (after : Bool) (c : ℕ) (cs : Text)
    → replace_newlines after (c ∷ cs)
      ≡ (if after && c == lf then [] else (if c == cr then lf else c) ∷ [])
        ++ replace_newlines (c == cr) cs
unfolding replace_newlines
replace_newlines_flag after c cs = ground arith

after_chunk-cons : (c : ℕ) (a : Text) → after_chunk (c == cr) a ≡ ends_with_cr (c ∷ a)
unfolding ends_with_cr
after_chunk-cons c [] = refl
after_chunk-cons c (d ∷ a) = refl

pub replace_newlines-append :
    (after : Bool) (a b : Text)
    → replace_newlines after (a ++ b)
      ≡ replace_newlines after a ++ replace_newlines (after_chunk after a) b
unfolding replace_newlines
replace_newlines-append after [] b = refl
replace_newlines-append after (c ∷ a) b =
    let out = if after && c == lf then [] else (if c == cr then lf else c) ∷ [] in
    let rest = replace_newlines (c == cr) a in
    replace_newlines_flag after c (a ++ b)
    ∙ ap (λ t. out ++ t) (replace_newlines-append (c == cr) a b)
    ∙ sym (append_assoc out rest (replace_newlines (after_chunk (c == cr) a) b))
    ∙ ap (λ t. t ++ replace_newlines (after_chunk (c == cr) a) b)
        (sym (replace_newlines_flag after c a))
    ∙ ap (λ f. replace_newlines after (c ∷ a) ++ replace_newlines f b) (after_chunk-cons c a)

-- The two replacements of `splitSseBlocks` are the one of the parser.
pub replace_cr-replace_crlf : (t : Text) → replace_cr (replace_crlf t) ≡ replace_newlines false t
unfolding replace_cr replace_crlf replace_newlines
replace_cr-replace_crlf [] = refl
replace_cr-replace_crlf (c ∷ []) = ground arith
replace_cr-replace_crlf (c ∷ d ∷ r) =
    ground (arith, replace_cr-replace_crlf r, replace_cr-replace_crlf (d ∷ r))
