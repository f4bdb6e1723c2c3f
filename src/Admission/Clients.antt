-- ===== src/Admission/Clients.antt =====
-- Which address counts as the client's.
use codex_pooler.Prelude.{
  ℕ, ◌≡◌, refl, ap, ◌∙◌, ◌⊎◌, inl, inr, Bool, true, false, not, Option, none, some, List, [], ◌∷◌,
  ◌++◌, map, ◌==◌, ==_iff, any, Bool-cases, first_some, All,
}
use codex_pooler.Admission.{
  Text, split_on, find_text, reverse_onto, present, Request, Policy, matches, address,
  forwarded_addresses, client_ip,
}

find_text_splits :
    (p : Text → Bool) (ts : List Text)
    → ((t : Text) × (before after : List Text) × (ts ≡ before ++ t ∷ after)
        × All (λ s. p s ≡ false) before
        × (p t ≡ true)
        × (find_text p ts ≡ some t))
      ⊎ (All (λ s. p s ≡ false) ts × (find_text p ts ≡ none))
find_text_splits p [] = inr (tt, refl)
find_text_splits p (t ∷ ts) = elim (Bool-cases (p t)) [
  | inl e ↦ inl (t, [], ts, refl, tt, e, rw e refl)
  | inr e ↦ elim (find_text_splits p ts) [
    | inl (u, before, after, split, passed, found, same) ↦
        inl (u, t ∷ before, after, ap (λ us. t ∷ us) split, (e, passed), found, rw e same)
    | inr (passed, same) ↦ inr ((e, passed), rw e same)
  ]
]

split_on_plain : (c : ℕ) (t : Text) → any (λ x. x == c) t ≡ false → split_on c t ≡ t ∷ []
unfolding split_on
split_on_plain c [] h = refl
split_on_plain c (x ∷ xs) h = elim (Bool-cases (x == c)) [
  | inl e ↦ cc (rw e at h)
  | inr e ↦ let rest = split_on_plain c xs (rw e at h) in rw (e, rest) refl
]

split_on_some : (c : ℕ) (t : Text) → (p : Text) × (ps : List Text) × (split_on c t ≡ p ∷ ps)
unfolding split_on
split_on_some c [] = ([], [], refl)
split_on_some c (x ∷ xs) = elim (Bool-cases (x == c)) [
  | inl e ↦ ([], split_on c xs, rw e refl)
  | inr e ↦ let (p, ps, same) = split_on_some c xs in (x ∷ p, ps, rw (e, same) refl)
]

-- A last part that holds no separator is split off alone.
split_on-append :
    (c : ℕ) (h t : Text)
    → any (λ x. x == c) t ≡ false
    → split_on c (h ++ c ∷ t) ≡ split_on c h ++ t ∷ []
unfolding split_on
split_on-append c [] t plain =
    let here : c == c ≡ true = (==_iff c c).1 refl in rw (here, split_on_plain c t plain) refl
split_on-append c (x ∷ xs) t plain =
    let later = split_on-append c xs t plain in
    let (p, ps, same) = split_on_some c xs in
    elim (Bool-cases (x == c)) [ inl e ↦ rw (e, later) refl | inr e ↦ rw (e, later, same) refl ]

reverse_onto-append :
    (acc ts : List Text) (t : Text) → reverse_onto acc (ts ++ t ∷ []) ≡ t ∷ reverse_onto acc ts
reverse_onto-append acc [] t = refl
reverse_onto-append acc (s ∷ ts) t = reverse_onto-append (s ∷ acc) ts t

map-append_last :
    (f : Text → Option Text) (ts : List Text) (t : Text)
    → map f (ts ++ t ∷ []) ≡ map f ts ++ f t ∷ []
map-append_last f [] t = refl
map-append_last f (s ∷ ts) t = ap (λ us. f s ∷ us) (map-append_last f ts t)

present-append_last :
    (os : List (Option Text)) (t : Text) → present (os ++ some t ∷ []) ≡ present os ++ t ∷ []
present-append_last [] t = refl
present-append_last (none ∷ os) t = present-append_last os t
present-append_last ((some s) ∷ os) t = ap (λ us. s ∷ us) (present-append_last os t)

module _ (is_ip : Text → ℕ) (trim to_lower : Text → Text) where
  abbrev pub IsTrusted : Policy → Text → Type 0
  IsTrusted policy ip = matches is_ip trim to_lower ip policy.trusted_proxies ≡ true

  -- A peer that is no trusted proxy is the client, whatever its headers say. Behind a trusted proxy the
  -- client is the last forwarded address that is no trusted proxy; when all are, it is the address of
  -- x-real-ip or else the peer.
  pub client_ip_lem :
      (req : Request) (policy : Policy) (peer : Text)
      → address is_ip trim to_lower req.remote_address ≡ some peer
      → let client = client_ip is_ip trim to_lower req policy in
        let forwarded = forwarded_addresses is_ip trim to_lower req.forwarded_for in
        let trusted = λ (t : Text). matches is_ip trim to_lower t policy.trusted_proxies in
        ((trusted peer ≡ false) × (client ≡ some peer))
        ⊎ ((ip : Text) × (later earlier : List Text) × (forwarded ≡ later ++ ip ∷ earlier)
            × All (λ t. not (trusted t) ≡ false) later
            × (not (trusted ip) ≡ true)
            × (client ≡ some ip))
        ⊎ (All (λ t. not (trusted t) ≡ false) forwarded
            × (client ≡ first_some (address is_ip trim to_lower req.real_ip) (some peer)))
  unfolding client_ip
  client_ip_lem req policy peer e =
      let trusted = λ (t : Text). matches is_ip trim to_lower t policy.trusted_proxies in
      elim (Bool-cases (trusted peer)) [
        | inr n ↦ inl (n, rw (e, n) refl)
        | inl y ↦
            elim (find_text_splits (λ t. not (trusted t))
              (forwarded_addresses is_ip trim to_lower req.forwarded_for)) [
                | inl (ip, later, earlier, split, passed, found, same) ↦
                    inr (inl (ip, later, earlier, split, passed, found, rw (e, y, same) refl))
                | inr (passed, same) ↦ inr (inr (passed, rw (e, y, same) refl))
              ]
      ]

  -- What a client writes into the header itself does not matter: behind a trusted proxy that appends
  -- the address it was called from, that address is the client's if it is no trusted proxy.
  pub client_ip_appended :
      (req : Request) (policy : Policy) (peer written appended ip : Text)
      → address is_ip trim to_lower req.remote_address ≡ some peer
      → IsTrusted policy peer
      → req.forwarded_for ≡ written ++ 44 ∷ appended
      → any (λ c. c == 44) appended ≡ false
      → address is_ip trim to_lower appended ≡ some ip
      → matches is_ip trim to_lower ip policy.trusted_proxies ≡ false
      → client_ip is_ip trim to_lower req policy ≡ some ip
  unfolding client_ip forwarded_addresses
  client_ip_appended req policy peer written appended ip at_peer trusted header plain reads
        untrusted =
      let addr = address is_ip trim to_lower in
      let last : forwarded_addresses is_ip trim to_lower req.forwarded_for
          ≡ ip ∷ forwarded_addresses is_ip trim to_lower written =
        ap (forwarded_addresses is_ip trim to_lower) header
        ∙ ap (λ ts. reverse_onto [] (present (map addr ts)))
            (split_on-append 44 written appended plain)
        ∙ ap (λ os. reverse_onto [] (present os))
            (map-append_last addr (split_on 44 written) appended)
        ∙ ap (λ o. reverse_onto [] (present (map addr (split_on 44 written) ++ o ∷ []))) reads
        ∙ ap (reverse_onto []) (present-append_last (map addr (split_on 44 written)) ip)
        ∙ reverse_onto-append [] (present (map addr (split_on 44 written))) ip in
      rw (at_peer, trusted, last, untrusted) refl
