-- ===== src/Tools/Limits/Cuts.antt =====
-- Where a text is cut, and how much of it is kept.
use apprentice_harness.Common.{
  ℕ, zero, suc, ◌+◌, ◌-◌, ◌≤◌, ◌<◌, ◌≡◌, ◌⊎◌, refl, subst, arith, min, max, Bool, true, false, none,
  some, ◌∷◌, ◌++◌, Bytes, length, take, drop, leb, le→leb, Bool-cases, inl, inr,
}
use apprentice_harness.Tools.Limits.{
  is_char_boundary, floor_from, floor_boundary, ceil_from, ceil_boundary, head_share, head_end_of,
  tail_start_of, close_line, truncate_utf8, capture_bytes,
}

abbrev pub IsBoundary : Bytes → ℕ → Type 0
IsBoundary s i = is_char_boundary s i ≡ true

floor_from-cut : (s : Bytes) (i : ℕ) → IsBoundary s (floor_from s i) × (floor_from s i ≤ i)
unfolding floor_from
floor_from-cut s zero = (refl, omega arith)
floor_from-cut s (suc i) = elim (Bool-cases (is_char_boundary s (suc i))) [
  | inl stops ↦ rw (stops) (stops, omega arith)
  | inr goes_on ↦ rw goes_on ((floor_from-cut s i).0, omega (arith, (floor_from-cut s i).1))
]

IsBoundary-length : (s : Bytes) → IsBoundary s (length s)
IsBoundary-length s = ground arith

ceil_from-cut :
    (fuel : ℕ) (s : Bytes) (i : ℕ)
    → i + fuel ≡ length s
    → IsBoundary s (ceil_from fuel s i) × (i ≤ ceil_from fuel s i) × (ceil_from fuel s i ≤ length s)
unfolding ceil_from
ceil_from-cut zero s i h =
    let e : length s ≡ i = omega arith in
    (subst (IsBoundary s) e (IsBoundary-length s), omega arith, omega arith)
ceil_from-cut (suc fuel) s i h = elim (Bool-cases (is_char_boundary s i)) [
  | inl stops ↦ rw stops (stops, omega arith, omega arith)
  | inr goes_on ↦
      let (b, low, high) = ceil_from-cut fuel s (suc i) (omega arith) in
      rw goes_on (b, omega arith, high)
]

floor_boundary-cut :
    (s : Bytes) (at : ℕ) → IsBoundary s (floor_boundary s at) × (floor_boundary s at ≤ at)
unfolding floor_boundary
floor_boundary-cut s at = let (b, low) = floor_from-cut s (min at (length s)) in (b, omega arith)

ceil_boundary-cut :
    (s : Bytes) (at : ℕ)
    → at ≤ length s
    → IsBoundary s (ceil_boundary s at)
      × (at ≤ ceil_boundary s at)
      × (ceil_boundary s at ≤ length s)
unfolding ceil_boundary
ceil_boundary-cut s at h =
    let i = min at (length s) in
    let (b, low, high) = ceil_from-cut (length s - i) s i (omega arith) in (b, omega arith, high)

head_share_le : (n : ℕ) → head_share n ≤ n
head_share_le n = omega arith

max-IsBoundary : (s : Bytes) (i j : ℕ) → IsBoundary s i → IsBoundary s j → IsBoundary s (max i j)
max-IsBoundary s i j hi hj = elim (max-cases i j) [
  | inl left ↦ rw left hi
  | inr right ↦ rw right hj
]
  where
    max-cases : (i j : ℕ) → (max i j ≡ i) ⊎ (max i j ≡ j)
    max-cases i j = ground arith

not_leb : (a b : ℕ) → b < a → leb a b ≡ false
not_leb a b h = ground arith

-- The two cuts of a text that is too long.
cuts :
    (text : Bytes) (max_bytes : ℕ)
    → max_bytes < length text
    → let h = head_end_of text max_bytes in
      let t = tail_start_of text max_bytes in
      IsBoundary text h
      × IsBoundary text t
      × (h ≤ t)
      × (t ≤ length text)
      × (h + (length text - t) ≤ max_bytes)
cuts text max_bytes long =
    let at = length text - (max_bytes - head_share max_bytes) in
    let share = head_share_le max_bytes in
    let (b, low) = floor_boundary-cut text (head_share max_bytes) in
    let (c, above, within) = ceil_boundary-cut text at (omega arith) in
    (
      b,
      max-IsBoundary text (ceil_boundary text at) (head_end_of text max_bytes) c b,
      omega arith,
      omega arith,
      omega arith,
    )

-- A text within its budget is left as it is. Of a longer one a head and a tail are kept, which do not
-- overlap, which both end on a boundary of characters, and which have at most `max_bytes` bytes
-- together; between them stands the marker, on a line of its own, with the number of bytes left out.
pub truncate_utf8_lem :
    (text : Bytes) (max_bytes : ℕ) (marker : ℕ → Bytes)
    → (length text ≤ max_bytes
        → truncate_utf8 text max_bytes marker
          ≡ record { text = text; truncated = false; omitted = 0 })
      × (max_bytes < length text
          → (h : ℕ) × (t : ℕ) × IsBoundary text h
            × IsBoundary text t
            × (h ≤ t)
            × (t ≤ length text)
            × (h + (length text - t) ≤ max_bytes)
            × (truncate_utf8 text max_bytes marker ≡ record {
              text = close_line (take h text) ++ (marker (t - h) ++ (b'\n' ∷ drop t text));
              truncated = true;
              omitted = t - h;
            }))
unfolding truncate_utf8
truncate_utf8_lem text max_bytes marker = (
  λ fits. rw (le→leb (length text) max_bytes fits) refl,
  λ long.
      let (b, c, le, within, kept) = cuts text max_bytes long in
      (
        head_end_of text max_bytes,
        tail_start_of text max_bytes,
        b,
        c,
        le,
        within,
        kept,
        rw (not_leb (length text) max_bytes long) refl,
      ),
)

-- Output within its budget is not cut. Of longer output a head and a tail are kept, which do not
-- overlap and have at most `max_bytes` bytes together: of bytes that are not UTF-8 exactly that many,
-- and of UTF-8 both end on a boundary of characters.
pub capture_bytes_lem :
    (is_utf8 : Bytes → Bool) (raw : Bytes) (max_bytes : ℕ)
    → (length raw ≤ max_bytes → capture_bytes is_utf8 raw max_bytes ≡ none)
      × (max_bytes < length raw
          → (h : ℕ) × (t : ℕ) × (h ≤ t)
            × (h + (length raw - t) ≤ max_bytes)
            × (is_utf8 raw ≡ true → IsBoundary raw h × IsBoundary raw t)
            × (is_utf8 raw ≡ false → h + (length raw - t) ≡ max_bytes)
            × (capture_bytes is_utf8 raw max_bytes ≡ some (take h raw ++ drop t raw)))
unfolding capture_bytes
capture_bytes_lem is_utf8 raw max_bytes = (
  λ fits. rw (le→leb (length raw) max_bytes fits) refl,
  λ long. elim (Bool-cases (is_utf8 raw)) [
    | inl text ↦
        let (b, c, le, within, kept) = cuts raw max_bytes long in
        (
          head_end_of raw max_bytes,
          tail_start_of raw max_bytes,
          le,
          kept,
          λ _. (b, c),
          λ no. cc,
          rw (not_leb (length raw) max_bytes long, text) refl,
        )
    | inr binary ↦
        let share = head_share_le max_bytes in
        (
          head_share max_bytes,
          max (length raw - (max_bytes - head_share max_bytes)) (head_share max_bytes),
          omega arith,
          omega arith,
          λ yes. cc,
          λ _. omega arith,
          rw (not_leb (length raw) max_bytes long, binary) refl,
        )
  ],
)
