-- ===== src/Tools/Capture/Kept.antt =====
-- What a capture keeps of a stream.
use apprentice_harness.Common.{
  ℕ, zero, suc, ◌+◌, ◌-◌, ◌*◌, ◌≤◌, ◌≡◌, refl, subst, sym, ◌∙◌, ap, arith, min, Bool, true, false,
  Option, none, some, [], ◌∷◌, ◌++◌, append-nil, append_assoc, Bytes, length, length-append,
  length-take, length-drop, get_elem?, take, drop, take-append-drop, leb, ltb, if◌then◌else◌,
  leb→le, Bool-cases, inl, inr,
}
use apprentice_harness.Tools.Capture.{
  line_search, rposition, trim_at, end_at, char_length, continues, Capture, is_newline,
  count_newlines, trim_incomplete_char, char_floor_from, char_floor, end_head, push_tail,
  push_capture,
}

-- The front of a list, and what is left.
abbrev pub Front : Bytes → Bytes → Type 0
Front p s = (rest : Bytes) × (s ≡ p ++ rest)

abbrev pub Back : Bytes → Bytes → Type 0
Back p s = (front : Bytes) × (s ≡ front ++ p)

Front-take : (n : ℕ) (s : Bytes) → Front (take n s) s
Front-take n s = (drop n s, sym (take-append-drop n s))

pub Back-drop : (n : ℕ) (s : Bytes) → Back (drop n s) s
Back-drop n s = (take n s, sym (take-append-drop n s))

Front-refl : (s : Bytes) → Front s s
Front-refl s = ([], sym (append-nil s))

Front-if : (b : Bool) (p q s : Bytes) → Front p s → Front q s → Front (if b then p else q) s
Front-if true p q s hp hq = hp
Front-if false p q s hp hq = hq

pub Back-if : (b : Bool) (p q s : Bytes) → Back p s → Back q s → Back (if b then p else q) s
Back-if true p q s hp hq = hp
Back-if false p q s hp hq = hq

trim_at-Front : (s : Bytes) (o : Option ℕ) → Front (trim_at s o) s
trim_at-Front s none = Front-refl s
trim_at-Front s (some lead) =
    let here = length s - lead in
    let shorter = ltb here (char_length (get_elem? s lead)) in
    Front-if (ltb 4 here) s (if shorter then take lead s else s) s (Front-refl s)
      (Front-if shorter (take lead s) s s (Front-take lead s) (Front-refl s))

end_at-Front : (s : Bytes) (from : ℕ) (o : Option ℕ) → Front (end_at s from o) s
unfolding trim_incomplete_char
end_at-Front s from none = trim_at-Front s _
end_at-Front s from (some i) = Front-take (from + i + 1) s

end_head-Front : (s : Bytes) → Front (end_head s) s
unfolding end_head
end_head-Front s =
    end_at-Front s (length s - line_search) (rposition is_newline (drop (length s - line_search) s))

Back-append : (p s t : Bytes) → Back p s → Back p (t ++ s)
Back-append p s t (front, e) = (t ++ front, ap (λ l. t ++ l) e ∙ sym (append_assoc t front p))

push_tail-Back : (budget : ℕ) (tail rest : Bytes) → Back (push_tail budget tail rest) (tail ++ rest)
unfolding push_tail
push_tail-Back budget tail rest =
    let joined = tail ++ rest in
    let long = ltb (2 * budget) (length joined) in
    let cut = drop (length joined - budget) joined in
    Back-if (leb budget (length rest)) (drop (length rest - budget) rest)
      (if long then cut else joined) joined
      (Back-append (drop (length rest - budget) rest) rest tail
        (Back-drop (length rest - budget) rest))
      (Back-if long cut joined joined (Back-drop (length joined - budget) joined) ([], refl))

push_tail-length :
    (budget : ℕ) (tail rest : Bytes) → length (push_tail budget tail rest) ≤ 2 * budget
unfolding push_tail
push_tail-length budget tail rest = elim (Bool-cases (leb budget (length rest))) [
  | inl whole ↦ rw whole (omega (arith, length-drop (length rest - budget) rest))
  | inr short ↦ elim (Bool-cases (ltb (2 * budget) (length (tail ++ rest)))) [
    | inl long ↦
        rw (short, long)
          (omega (arith, length-drop (length (tail ++ rest) - budget) (tail ++ rest)))
    | inr fits ↦ rw (short, fits) (ground (arith, fits))
  ]
]

char_floor_from_le : (bytes : Bytes) (i : ℕ) → char_floor_from bytes i ≤ i
unfolding char_floor_from
char_floor_from_le bytes zero = omega arith
char_floor_from_le bytes (suc i) = elim (Bool-cases (continues (get_elem? bytes (suc i)))) [
  | inl inside ↦ rw inside (omega (arith, char_floor_from_le bytes i))
  | inr stops ↦ rw stops (omega arith)
]

char_floor_le : (bytes : Bytes) (at : ℕ) → char_floor bytes at ≤ at
unfolding char_floor
char_floor_le bytes at = omega (arith, char_floor_from_le bytes (min at (length bytes)))

count_newlines-append :
    (s t : Bytes) → count_newlines (s ++ t) ≡ count_newlines s + count_newlines t
count_newlines-append [] t = omega arith
count_newlines-append (b ∷ s) t = elim (Bool-cases (is_newline b)) [
  | inl yes_newline ↦ rw yes_newline (omega (arith, count_newlines-append s t))
  | inr no_newline ↦ rw no_newline (count_newlines-append s t)
]

-- A capture that has seen a stream: it has counted it, and it keeps a front and a back of it within
-- the budgets. Until the head is full, the head is the whole stream.
pub record Holds (c : Capture) (stream : Bytes) : Type 0 where
  pub counts : (c.total ≡ length stream) × (c.newlines ≡ count_newlines stream)
  pub middle : (mid : Bytes) × (stream ≡ c.head ++ (mid ++ c.tail))
  pub bounds : (length c.head ≤ c.head_budget) × (length c.tail ≤ 2 * c.tail_budget)
  pub open_head : c.head_full ≡ false → (c.tail ≡ []) × (stream ≡ c.head)

Front-length : (p s : Bytes) → Front p s → length p ≤ length s
Front-length p s (rest, e) = omega (arith, length-append p rest, ap length e)

counted :
    (c : Capture) (stream bytes : Bytes)
    → (c.total ≡ length stream) × (c.newlines ≡ count_newlines stream)
    → (c.total + length bytes ≡ length (stream ++ bytes))
      × (c.newlines + count_newlines bytes ≡ count_newlines (stream ++ bytes))
counted c stream bytes (t, n) = (
  omega (arith, t, length-append stream bytes),
  omega (arith, n, count_newlines-append stream bytes),
)

-- More of the stream behind a full head.
middle-tail :
    (head mid tail bytes tail' stream : Bytes)
    → stream ≡ head ++ (mid ++ tail)
    → Back tail' (tail ++ bytes)
    → (mid' : Bytes) × (stream ++ bytes ≡ head ++ (mid' ++ tail'))
middle-tail head mid tail bytes tail' stream e (front, b) = (
  mid ++ front,
  ap (λ l. l ++ bytes) e
      ∙ (append_assoc head (mid ++ tail) bytes
          ∙ ap (λ l. head ++ l)
              (append_assoc mid tail bytes
                ∙ (ap (λ l. mid ++ l) b ∙ sym (append_assoc mid front tail')))),
)

regroup : (p r f t : Bytes) → (p ++ r) ++ (f ++ t) ≡ p ++ ((r ++ f) ++ t)
regroup p r f t = append_assoc p r (f ++ t) ∙ ap (λ l. p ++ l) (sym (append_assoc r f t))

-- The chunk that fills the head: what the head gives up and what the tail gives up is the middle.
middle-cut :
    (head bytes head' tail' : Bytes) (cut : ℕ)
    → Front head' (head ++ take cut bytes)
    → Back tail' (drop cut bytes)
    → (mid : Bytes) × (head ++ bytes ≡ head' ++ (mid ++ tail'))
middle-cut head bytes head' tail' cut (rest, e) (front, b) = (
  rest ++ front,
  ap (λ l. head ++ l) (sym (take-append-drop cut bytes))
      ∙ (sym (append_assoc head (take cut bytes) (drop cut bytes))
          ∙ (ap (λ l. l ++ drop cut bytes) e
              ∙ (ap (λ l. (head' ++ rest) ++ l) b ∙ regroup head' rest front tail'))),
)

head_room :
    (c : Capture) (bytes : Bytes)
    → length c.head ≤ c.head_budget
    → let cut = char_floor bytes (c.head_budget - length c.head) in
      length (end_head (c.head ++ take cut bytes)) ≤ c.head_budget
head_room c bytes within =
    let room = c.head_budget - length c.head in
    let cut = char_floor bytes room in
    let joined = c.head ++ take cut bytes in
    omega (
      arith,
      within,
      Front-length (end_head joined) joined (end_head-Front joined),
      length-append c.head (take cut bytes),
      length-take cut bytes,
      char_floor_le bytes room,
    )

pub push-Holds :
    (bytes stream : Bytes) (c : Capture)
    → Holds c stream
    → Holds (push_capture bytes c) (stream ++ bytes)
unfolding push_capture
push-Holds bytes stream c h = elim (Bool-cases c.head_full) [
  | inl is_full ↦ rw is_full (record {
    counts = counted c stream bytes h.counts;
    middle =
        middle-tail c.head h.middle.0 c.tail bytes _ stream h.middle.1
          (push_tail-Back c.tail_budget c.tail bytes);
    bounds = (h.bounds.0, push_tail-length c.tail_budget c.tail bytes);
    open_head = λ no. cc;
  })
  | inr is_open ↦ elim (Bool-cases (leb (length bytes) (c.head_budget - length c.head))) [
    | inl fits ↦
        let (no_tail, all) = h.open_head is_open in
        let more : stream ++ bytes ≡ c.head ++ bytes = ap (λ l. l ++ bytes) all in
        rw (is_open, fits)
          (record {
            counts = counted c stream bytes h.counts;
            middle = (
              [],
              more
                  ∙ (sym (append-nil (c.head ++ bytes))
                      ∙ ap (λ l. (c.head ++ bytes) ++ l) (sym no_tail)),
            );
            bounds = (
              omega (arith, h.bounds.0, leb→le _ _ fits, length-append c.head bytes),
              h.bounds.1,
            );
            open_head = λ _. (no_tail, more);
          })
    | inr long ↦
        let (no_tail, all) = h.open_head is_open in
        let cut = char_floor bytes (c.head_budget - length c.head) in
        let rest = drop cut bytes in
        let back : Back (push_tail c.tail_budget c.tail rest) rest =
          subst (λ t. Back (push_tail c.tail_budget c.tail rest) (t ++ rest)) no_tail
            (push_tail-Back c.tail_budget c.tail rest) in
        let (mid, kept) =
          middle-cut c.head bytes (end_head (c.head ++ take cut bytes))
            (push_tail c.tail_budget c.tail rest) cut (end_head-Front (c.head ++ take cut bytes))
            back in
        rw (is_open, long)
          (record {
            counts = counted c stream bytes h.counts;
            middle = (mid, ap (λ l. l ++ bytes) all ∙ kept);
            bounds = (head_room c bytes h.bounds.0, push_tail-length c.tail_budget c.tail rest);
            open_head = λ no. cc;
          })
  ]
]
