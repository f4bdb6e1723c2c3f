-- ===== src/Streaming/Feed.antt =====
-- The loop over the lines of a chunk, seen as a machine that takes one character at a time.
use codex_pooler.Prelude.{
  ℕ, ◌+◌, ◌≡◌, refl, sym, ap, ◌∙◌, false, Option, none, some, List, [], ◌∷◌, ◌++◌, arith, ◌==◌,
  if◌then◌else◌, if_elim, Bool-cases, Option-cases, inl, inr, append_assoc,
}
use codex_pooler.Streaming.{
  Text, lf, Parser, add_part, add_newline, consume_lines, split_lines, check_bytes, flush_lf,
  push_part, byte_length, ◌>>=◌,
}

-- One character of the text without carriage returns.
abbrev pub take_char : Parser → List Text → ℕ → Option (Parser × List Text)
take_char p blocks c =
    if c == lf then add_newline p blocks else add_part p (c ∷ []) >>= (λ p'. some (p', blocks))

unfoldable pub feed : Parser → List Text → Text → Option (Parser × List Text)
feed p blocks [] = some (p, blocks)
feed p blocks (c ∷ cs) = take_char p blocks c >>= (λ r. feed r.0 r.1 cs)

byte_length-append : (a b : Text) → byte_length (a ++ b) ≡ byte_length a + byte_length b
byte_length-append [] b = omega arith
byte_length-append (c ∷ a) b = omega (arith, byte_length-append a b)

bind_some : {A : Type 0} (m : Option A) → m ≡ (m >>= some)
bind_some none = refl
bind_some (some a) = refl

bind_assoc :
    {A B C : Type 0} (m : Option A) (f : A → Option B) (g : B → Option C)
    → ((m >>= f) >>= g) ≡ (m >>= (λ a. f a >>= g))
bind_assoc none f g = refl
bind_assoc (some a) f g = refl

flush_lf-pending : (p : Parser) → (flush_lf p).pending_lf ≡ false
flush_lf-pending p =
    if_elim {A = Parser} (λ q. q.pending_lf ≡ false) p.pending_lf (λ _. refl) (λ e. e)

push_part_twice :
    (b : Parser) (c d : ℕ) (cs : Text)
    → b.pending_lf ≡ false
    → check_bytes (push_part b (c ∷ d ∷ cs)) ≡ (
        check_bytes (push_part b (c ∷ [])) >>= (λ q. check_bytes (push_part (flush_lf q) (d ∷ cs))))
push_part_twice b c d cs quiet = ground (arith, append_assoc b.text (c ∷ []) (d ∷ cs))

-- Adding a part at once or its first character before the rest is the same.
add_part-cons :
    (p : Parser) (c : ℕ) (cs : Text)
    → add_part p (c ∷ cs) ≡ (add_part p (c ∷ []) >>= (λ q. add_part q cs))
unfolding add_part
add_part-cons p c [] = bind_some (check_bytes (push_part (flush_lf p) (c ∷ [])))
add_part-cons p c (d ∷ cs) = push_part_twice (flush_lf p) c d cs (flush_lf-pending p)

pub feed-append :
    (p : Parser) (blocks : List Text) (a b : Text)
    → feed p blocks (a ++ b) ≡ (feed p blocks a >>= (λ r. feed r.0 r.1 b))
unfolding feed
feed-append p blocks [] b = refl
feed-append p blocks (c ∷ a) b = elim (Option-cases (take_char p blocks c)) [
  | inl e ↦ rw (e, feed) refl
  | inr (r, e) ↦ rw (e, feed) (feed-append r.0 r.1 a b)
]

consume_lines-cons :
    (p : Parser) (blocks : List Text) (c : ℕ) (line : Text) (lines : List Text)
    → consume_lines p blocks (c ∷ line) lines
      ≡ (add_part p (c ∷ []) >>= (λ q. consume_lines q blocks line lines))
unfolding consume_lines
consume_lines-cons p blocks c line [] =
    ap (λ m. m >>= (λ q. some (q, blocks))) (add_part-cons p c line)
    ∙ bind_assoc (add_part p (c ∷ [])) (λ q. add_part q line) (λ q. some (q, blocks))
consume_lines-cons p blocks c line (next ∷ lines) =
    let go = λ (q : Parser). add_newline q blocks >>= (λ r. consume_lines r.0 r.1 next lines) in
    ap (λ m. m >>= go) (add_part-cons p c line)
    ∙ bind_assoc (add_part p (c ∷ [])) (λ q. add_part q line) go

bind_next :
    {A B : Type 0} (m : Option A) (f g : A → Option B)
    → ((a : A) → f a ≡ g a)
    → (m >>= f) ≡ (m >>= g)
bind_next none f g h = refl
bind_next (some a) f g h = h a

-- The loop over the lines does what the machine does on their characters.
pub consume_lines-feed :
    (p : Parser) (blocks : List Text) (t : Text)
    → consume_lines p blocks (split_lines t).0 (split_lines t).1 ≡ feed p blocks t
unfolding consume_lines split_lines feed add_part
consume_lines-feed p blocks [] = refl
consume_lines-feed p blocks (c ∷ cs) = elim (Bool-cases (c == lf)) [
  | inl e ↦
      rw (e, split_lines)
        (elim (Option-cases (add_newline p blocks)) [
          | inl n ↦ rw n refl
          | inr (r, n) ↦ rw n (consume_lines-feed r.0 r.1 cs)
        ])
  | inr e ↦
      rw (e, split_lines)
        (consume_lines-cons p blocks c (split_lines cs).0 (split_lines cs).1
          ∙ bind_next (add_part p (c ∷ []))
              (λ q. consume_lines q blocks (split_lines cs).0 (split_lines cs).1)
              (λ q. feed q blocks cs) (λ q. consume_lines-feed q blocks cs)
          ∙ sym (bind_assoc (add_part p (c ∷ [])) (λ q. some (q, blocks)) (λ r. feed r.0 r.1 cs)))
]
