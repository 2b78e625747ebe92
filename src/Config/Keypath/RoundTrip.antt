-- ===== src/Config/Keypath/RoundTrip.antt =====
-- About `parse` and `format` of crates/core/src/config/keypath.rs together.
use apprentice_harness.Common.{
  ℕ, ◌≡◌, refl, ◌∙◌, Bool, true, false, not, ◌&&◌, ◌||◌, List, [], ◌∷◌, ◌++◌, append-nil,
  append_assoc, arith, Text, is_empty, any, is_whitespace, ◌==◌, if◌then◌else◌, All, All-append,
  Bool-cases, inl, inr,
}
use apprentice_harness.Common.Result.{Result, ok, err}
use apprentice_harness.Config.Keypath.{
  BadKey, empty_key, empty_segment, text_after_quote, quote_in_bare, whitespace_in_key,
  ends_segment, walk, walk_quoted, parse, needs_quotes, format_segment, format_rest, format,
}

-- A segment that `format` can write: there is no escape for a quote.
abbrev pub NoQuote : Text → Type 0
NoQuote s = All (λ c. (c == b'"') ≡ false) s

abbrev is_bare_char : ℕ → Bool
is_bare_char c = not (c == b'.') && (not (c == b'"') && not (is_whitespace c))

walk-bare :
    (s t cur : Text) (segs : List Text)
    → All (λ c. is_bare_char c ≡ true) s
    → walk (s ++ t) cur false segs ≡ walk t (cur ++ s) false segs
unfolding walk
walk-bare [] t cur segs h = rw (append-nil cur) refl
walk-bare (c ∷ s) t cur segs h =
    rw (← append_assoc cur (c ∷ []) s, ← walk-bare s t (cur ++ c ∷ []) segs h.1)
      (ground (arith, h.0))

walk_quoted-append :
    (s t cur : Text) (segs : List Text)
    → NoQuote s
    → ends_segment t ≡ true
    → walk_quoted (s ++ b'"' ∷ t) cur segs ≡ walk t (cur ++ s) true segs
unfolding walk_quoted
walk_quoted-append [] t cur segs h e = rw (append-nil cur, e) refl
walk_quoted-append (c ∷ s) t cur segs h e =
    rw (h.0, ← append_assoc cur (c ∷ []) s) (walk_quoted-append s t (cur ++ c ∷ []) segs h.1 e)

-- What follows a formatted segment.
ends_segment-rest : (ss : List Text) → ends_segment (format_rest ss) ≡ true
ends_segment-rest [] = refl
ends_segment-rest (s ∷ ss) = refl

not_quoted-bare :
    (s : Text)
    → NoQuote s
    → any (λ c. c == b'.' || c == b'"') s ≡ false
    → any is_whitespace s ≡ false
    → All (λ c. is_bare_char c ≡ true) s
not_quoted-bare [] n d w = tt
not_quoted-bare (c ∷ s) n d w =
    (ground (arith, n.0, d, w), not_quoted-bare s n.1 (ground (arith, d)) (ground (arith, w)))

walk-segment :
    (s t : Text) (segs : List Text)
    → NoQuote s
    → ends_segment t ≡ true
    → walk (format_segment s ++ t) [] false segs ≡ walk t s (needs_quotes s) segs
unfolding walk
walk-segment s t segs n e = elim (Bool-cases (needs_quotes s)) [
  | inl quoted ↦ rw (quoted, append_assoc s (b'"' ∷ []) t) (walk_quoted-append s t [] segs n e)
  | inr bare ↦
      rw bare
        (walk-bare s t [] segs (not_quoted-bare s n (ground (arith, bare)) (ground (arith, bare))))
]

not_empty-needs_quotes : (s : Text) → (is_empty s && not (needs_quotes s)) ≡ false
not_empty-needs_quotes [] = refl
not_empty-needs_quotes (c ∷ s) = refl

walk-rest :
    (s : Text) (ss segs : List Text)
    → All NoQuote ss
    → walk (format_rest ss) s (needs_quotes s) segs ≡ ok (segs ++ s ∷ ss)
unfolding walk
walk-rest s [] segs n = rw (not_empty-needs_quotes s) refl
walk-rest s (t ∷ ss) segs n =
    rw (not_empty-needs_quotes s, ← append_assoc segs (s ∷ []) (t ∷ ss))
      (walk-segment t (format_rest ss) (segs ++ s ∷ []) n.0 (ends_segment-rest ss)
        ∙ walk-rest t ss (segs ++ s ∷ []) n.1)

not_empty-append : (segs : List Text) (s : Text) → is_empty (segs ++ s ∷ []) ≡ false
not_empty-append [] s = refl
not_empty-append (t ∷ segs) s = refl

IsWritable : Result BadKey (List Text) → Type 0
IsWritable (ok segs) = All NoQuote segs × (is_empty segs ≡ false)
IsWritable (err e) = Unit

IsWritable-err : (e : BadKey) → IsWritable (err e)
unfolding IsWritable
IsWritable-err e = tt

IsWritable-ok :
    (segs : List Text) (s : Text) → All NoQuote segs → NoQuote s → IsWritable (ok (segs ++ s ∷ []))
unfolding IsWritable
IsWritable-ok segs s ns n = (All-append _ segs (s ∷ []) ns (n, tt), not_empty-append segs s)

IsWritable-parsed :
    (segs : List Text) → IsWritable (ok segs) → All NoQuote segs × (is_empty segs ≡ false)
unfolding IsWritable
IsWritable-parsed segs w = w

IsWritable-if :
    (b : Bool) (x y : Result BadKey (List Text))
    → IsWritable x
    → IsWritable y
    → IsWritable (if b then x else y)
IsWritable-if true x y hx hy = hx
IsWritable-if false x y hx hy = hy

mutual
  unfolding walk

  walk-IsWritable :
      (s cur : Text) (quoted : Bool) (segs : List Text)
      → NoQuote cur
      → All NoQuote segs
      → IsWritable (walk s cur quoted segs)
  walk-IsWritable [] cur quoted segs n ns = elim (Bool-cases (is_empty cur && not quoted)) [
    | inl none_left ↦ rw none_left (IsWritable-err _)
    | inr some_left ↦ rw some_left (IsWritable-ok segs cur ns n)
  ]
  walk-IsWritable (c ∷ s) cur quoted segs n ns =
      let inside = walk_quoted-IsWritable s cur segs n ns in
      let next =
        walk-IsWritable s [] false (segs ++ cur ∷ []) tt
          (All-append _ segs (cur ∷ []) ns (n, tt)) in
      let none_left = is_empty cur && not quoted in
      let dot = IsWritable-if none_left (err empty_segment) _ (IsWritable-err _) next in
      elim (Bool-cases (c == b'"')) [
        | inl quote ↦ rw quote (
            IsWritable-if none_left _ _ inside
              (IsWritable-if (c == b'.') _ (err quote_in_bare) dot (IsWritable-err _)))
        | inr other ↦
            let longer =
              walk-IsWritable s (cur ++ c ∷ []) quoted segs
                (All-append _ cur (c ∷ []) n (other, tt)) ns in
            rw other (
              IsWritable-if (c == b'.') _ _ dot (
                IsWritable-if (is_whitespace c) (err whitespace_in_key) _ (IsWritable-err _)
                  longer))
      ]

  walk_quoted-IsWritable :
      (s cur : Text) (segs : List Text)
      → NoQuote cur
      → All NoQuote segs
      → IsWritable (walk_quoted s cur segs)
  walk_quoted-IsWritable [] cur segs n ns = IsWritable-err _
  walk_quoted-IsWritable (c ∷ s) cur segs n ns =
      let closed = walk-IsWritable s cur true segs n ns in
      elim (Bool-cases (c == b'"')) [
        | inl quote ↦
            rw quote
              (IsWritable-if (ends_segment s) _ (err text_after_quote) closed (IsWritable-err _))
        | inr other ↦ rw other (
            walk_quoted-IsWritable s (cur ++ c ∷ []) segs (All-append _ cur (c ∷ []) n (other, tt))
              ns)
      ]

parse-IsWritable : (key : Text) → IsWritable (parse key)
unfolding parse
parse-IsWritable key =
    IsWritable-if (is_empty key) (err empty_key) _ (IsWritable-err _)
      (walk-IsWritable key [] false [] tt tt)

needs_quotes-append : (s t : Text) → is_empty (format_segment s ++ t) ≡ false
needs_quotes-append [] t = refl
needs_quotes-append (c ∷ s) t = elim (Bool-cases (needs_quotes (c ∷ s))) [
  | inl quoted ↦ rw quoted refl
  | inr bare ↦ rw bare refl
]

-- Segments, one at least and none with a quote in it, are parsed back from the key they format to.
pub parse-format :
    (s : Text) (ss : List Text) → All NoQuote (s ∷ ss) → parse (format (s ∷ ss)) ≡ ok (s ∷ ss)
unfolding parse format
parse-format s ss n =
    rw (needs_quotes-append s (format_rest ss))
      (walk-segment s (format_rest ss) [] n.0 (ends_segment-rest ss) ∙ walk-rest s ss [] n.1)

parse_again :
    (segs : List Text) → All NoQuote segs → is_empty segs ≡ false → parse (format segs) ≡ ok segs
parse_again [] n e = cc
parse_again (s ∷ ss) n e = parse-format s ss n

-- The segments of any key that parses are parsed again from the key they format to.
pub parse-format-parse :
    (key : Text) (segs : List Text) → parse key ≡ ok segs → parse (format segs) ≡ ok segs
parse-format-parse key segs h =
    let w = IsWritable-parsed segs (rw h at (parse-IsWritable key)) in parse_again segs w.0 w.1
