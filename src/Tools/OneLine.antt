-- ===== src/Tools/OneLine.antt =====
-- `one_line` of crates/core/src/tools/limits.rs, on the characters of a text.
use apprentice_harness.Common.{
  ℕ, suc, ◌-◌, ◌≤◌, ◌≡◌, refl, sym, ◌∙◌, ap, arith, Bool, true, false, List, [], ◌∷◌, ◌++◌,
  append-nil, append_assoc, Text, length, length-append, length-take, take, is_empty, ltb,
  is_whitespace, words_from, split_whitespace, join, Bool-cases, inl, inr, if◌then◌else◌,
}

-- The loop of `one_line`: the characters left, whether `out` has one, and `pending_space`.
unfoldable pub collapse : Text → Bool → Bool → Text
collapse [] has_out pending = []
collapse (c ∷ s) has_out pending =
    let skipped = collapse s has_out has_out in
    let rest = collapse s true false in
    if is_whitespace c then skipped else if pending then b' ' ∷ c ∷ rest else c ∷ rest

-- The cut of an overlong line.
abbrev cut_line : Text → ℕ → Text
cut_line out max_chars =
    if ltb max_chars (length out) then take (max_chars - 1) out ++ 0x2026 ∷ [] else out

unfoldable pub one_line : Text → ℕ → Text
one_line text max_chars = cut_line (collapse text false false) max_chars

-- Words, each behind a blank.
abbrev spaced : List Text → Text
spaced [] = []
spaced (w ∷ ws) = b' ' ∷ (w ++ spaced ws)

join-spaced : (w : Text) (ws : List Text) → join (b' ' ∷ []) (w ∷ ws) ≡ w ++ spaced ws
join-spaced w [] = sym (append-nil w)
join-spaced w (v ∷ ws) = ap (λ t. w ++ (b' ' ∷ t)) (join-spaced v ws)

spaced-join : (ws : List Text) → is_empty ws ≡ false → spaced ws ≡ b' ' ∷ join (b' ' ∷ []) ws
spaced-join [] h = cc
spaced-join (w ∷ ws) h = ap (λ t. b' ' ∷ t) (sym (join-spaced w ws))

words_from-some : (s : Text) (c : ℕ) (w : Text) → is_empty (words_from (c ∷ w) s) ≡ false
unfolding words_from
words_from-some [] c w = refl
words_from-some (d ∷ s) c w = elim (Bool-cases (is_whitespace d)) [
  | inl blank ↦ rw blank refl
  | inr letter ↦ rw letter (words_from-some s c (w ++ d ∷ []))
]

collapse-words :
    (s : Text)
    → (collapse s true true ≡ spaced (words_from [] s))
      × ((c : ℕ) (w : Text)
          → (c ∷ w) ++ collapse s true false ≡ join (b' ' ∷ []) (words_from (c ∷ w) s))
unfolding collapse words_from
collapse-words [] = (refl, λ c w. append-nil (c ∷ w))
collapse-words (d ∷ s) =
    let (behind, inside) = collapse-words s in
    elim (Bool-cases (is_whitespace d)) [
      | inl blank ↦ (
        rw blank behind,
        λ c w.
            rw blank (ap (λ t. (c ∷ w) ++ t) behind ∙ sym (join-spaced (c ∷ w) (words_from [] s))),
      )
      | inr letter ↦ (
        rw letter (
            ap (λ t. b' ' ∷ t) (inside d [])
            ∙ sym (spaced-join (words_from (d ∷ []) s) (words_from-some s d []))),
        λ c w.
            rw letter (
              sym (append_assoc (c ∷ w) (d ∷ []) (collapse s true false)) ∙ inside c (w ++ d ∷ [])),
      )
    ]

collapse-join : (s : Text) → collapse s false false ≡ join (b' ' ∷ []) (words_from [] s)
unfolding collapse words_from
collapse-join [] = refl
collapse-join (d ∷ s) = elim (Bool-cases (is_whitespace d)) [
  | inl blank ↦ rw blank (collapse-join s)
  | inr letter ↦ rw letter ((collapse-words s).1 d [])
]

cut_line_lem :
    (out : Text) (max_chars : ℕ)
    → (length out ≤ max_chars → cut_line out max_chars ≡ out)
      × (suc max_chars ≤ length out
          → cut_line out max_chars ≡ take (max_chars - 1) out ++ 0x2026 ∷ [])
      × (1 ≤ max_chars → length (cut_line out max_chars) ≤ max_chars)
cut_line_lem out max_chars = elim (Bool-cases (ltb max_chars (length out))) [
  | inl long ↦ (
    λ fits. absurd (ground (arith, fits, long)),
    λ over. rw long refl,
    λ one. rw long (
        omega (
          arith,
          one,
          length-append (take (max_chars - 1) out) (0x2026 ∷ []),
          length-take (max_chars - 1) out,
        )),
  )
  | inr short ↦ (
    λ fits. rw short refl,
    λ over. absurd (ground (arith, over, short)),
    λ one. rw short (ground (arith, short)),
  )
]

-- The summary of a text is its words joined by single blanks, when that is short enough; else its first
-- characters and an ellipsis; and it has at most `max_chars` characters, when that is not 0.
pub one_line_lem :
    (text : Text) (max_chars : ℕ)
    → let words = join (b' ' ∷ []) (split_whitespace text) in
      (length words ≤ max_chars → one_line text max_chars ≡ words)
      × (suc max_chars ≤ length words
          → one_line text max_chars ≡ take (max_chars - 1) words ++ 0x2026 ∷ [])
      × (1 ≤ max_chars → length (one_line text max_chars) ≤ max_chars)
unfolding one_line split_whitespace
one_line_lem text max_chars =
    rw (one_line, collapse-join text)
      (cut_line_lem (join (b' ' ∷ []) (words_from [] text)) max_chars)
