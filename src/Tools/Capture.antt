-- ===== src/Tools/Capture.antt =====
-- The bounded capture of one stream of a command's output: `Capture` of
-- crates/core/src/tools/shell/capture.rs. `usize` has 64 bits; the counters count bytes that were read
-- and stay far below.
pub mod Kept
pub mod Rendering
use apprentice_harness.Common.{
  ℕ, zero, suc, ◌+◌, ◌-◌, ◌*◌, ◌/◌, ◌%◌, ◌^◌, min, max, Bool, true, false, not, ◌&&◌, Option, none,
  some, List, [], ◌∷◌, ◌++◌, Bytes, length, get_elem?, take, drop, last?, is_empty, leb, ltb, ◌==◌,
  if◌then◌else◌,
}

pub record Capture : Type 0 where
  pub head_budget : ℕ
  pub tail_budget : ℕ
  pub head : Bytes
  pub head_full : Bool
  pub tail : Bytes
  pub total : ℕ
  pub newlines : ℕ

abbrev marker_reserve : ℕ
marker_reserve = 96

abbrev line_search : ℕ
line_search = 4096

-- `Capture::new`
unfoldable pub new_capture : ℕ → Capture
new_capture max_bytes =
    let usable = max (max_bytes - marker_reserve) 16 in
    let head_budget = usable * 3 % 2 ^ 64 / 4 in
    record {
      head_budget = head_budget;
      tail_budget = usable - head_budget;
      head = [];
      head_full = false;
      tail = [];
      total = 0;
      newlines = 0;
    }

abbrev pub is_newline : ℕ → Bool
is_newline b = b == b'\n'

abbrev is_continuation : ℕ → Bool
is_continuation b = leb 128 b && ltb b 192

abbrev pub count_newlines : Bytes → ℕ
count_newlines [] = 0
count_newlines (b ∷ bs) = let rest = count_newlines bs in if is_newline b then suc rest else rest

abbrev next_index : Option ℕ → Option ℕ
next_index none = none
next_index (some i) = some (suc i)

-- `Iterator::position` and `rposition`.
abbrev position : (ℕ → Bool) → Bytes → Option ℕ
position p [] = none
position p (b ∷ bs) = let later = next_index (position p bs) in if p b then some 0 else later

abbrev rposition : (ℕ → Bool) → Bytes → Option ℕ
rposition p [] = none
rposition p (b ∷ bs) = elim (rposition p bs) [
  | some i ↦ some (suc i)
  | none ↦ if p b then some 0 else none
]

-- The bytes of a character, from its first byte.
abbrev char_length : Option ℕ → ℕ
char_length none = 1
char_length (some b) =
    if leb 192 b && ltb b 224
    then 2
    else if leb 224 b && ltb b 240
    then 3
    else if leb 240 b && ltb b 248
    then 4
    else 1

abbrev trim_at : Bytes → Option ℕ → Bytes
trim_at bytes none = bytes
trim_at bytes (some lead) =
    let here = length bytes - lead in
    if ltb 4 here
    then bytes
    else if ltb here (char_length (get_elem? bytes lead))
    then take lead bytes
    else bytes

unfoldable pub trim_incomplete_char : Bytes → Bytes
trim_incomplete_char bytes = trim_at bytes (rposition (λ b. not (is_continuation b)) bytes)

abbrev continues : Option ℕ → Bool
continues none = false
continues (some b) = is_continuation b

-- The loop of `char_floor`.
unfoldable pub char_floor_from : Bytes → ℕ → ℕ
char_floor_from bytes zero = zero
char_floor_from bytes (suc i) =
    let lower = char_floor_from bytes i in
    if continues (get_elem? bytes (suc i)) then lower else suc i

unfoldable pub char_floor : Bytes → ℕ → ℕ
unfolding char_floor_from
char_floor bytes at = char_floor_from bytes (min at (length bytes))

abbrev end_at : Bytes → ℕ → Option ℕ → Bytes
end_at head from none = trim_incomplete_char head
end_at head from (some i) = take (from + i + 1) head

-- The head, ended on a line when one ends close enough, else on a character.
unfoldable pub end_head : Bytes → Bytes
end_head head =
    let from = length head - line_search in end_at head from (rposition is_newline (drop from head))

unfoldable pub push_tail : ℕ → Bytes → Bytes → Bytes
push_tail tail_budget tail rest =
    let joined = tail ++ rest in
    if leb tail_budget (length rest)
    then drop (length rest - tail_budget) rest
    else if ltb (2 * tail_budget) (length joined)
    then drop (length joined - tail_budget) joined
    else joined

-- `Capture::push`
unfoldable pub push_capture : Bytes → Capture → Capture
push_capture bytes c =
    let room = c.head_budget - length c.head in
    let cut = char_floor bytes room in
    let counted : Capture = record c {
      total = c.total + length bytes;
      newlines = c.newlines + count_newlines bytes;
    } in
    if c.head_full
    then record counted { tail = push_tail c.tail_budget c.tail bytes }
    else if leb (length bytes) room
    then record counted { head = c.head ++ bytes }
    else record counted {
      head = end_head (c.head ++ take cut bytes);
      head_full = true;
      tail = push_tail c.tail_budget c.tail (drop cut bytes);
    }

abbrev pub is_line_end : Option ℕ → Bool
is_line_end none = false
is_line_end (some b) = is_newline b

unfoldable pub ends_with_newline : Capture → Bool
ends_with_newline c = is_line_end (if is_empty c.tail then last? c.head else last? c.tail)

-- `Capture::lines`
unfoldable pub capture_lines : Capture → ℕ
unfolding ends_with_newline
capture_lines c = c.newlines + (if ltb 0 c.total && not (ends_with_newline c) then 1 else 0)

unfoldable pub is_truncated : Capture → Bool
is_truncated c = ltb (length c.head + min (length c.tail) c.tail_budget) c.total

-- The part of the tail that is within its budget.
abbrev pub kept_tail : Capture → Bytes
kept_tail c =
    if ltb c.tail_budget (length c.tail)
    then drop (length c.tail - c.tail_budget) c.tail
    else c.tail

abbrev or_all : ℕ → Option ℕ → ℕ
or_all n none = n
or_all n (some i) = i

abbrev pub skip_of : Bytes → ℕ
skip_of tail = elim (position is_newline (take (min (length tail) line_search) tail)) [
  | some i ↦ i + 1
  | none ↦ or_all (length tail) (position (λ b. not (is_continuation b)) tail)
]

abbrev pub close_head : Bytes → Bytes
close_head head =
    if is_empty head then head else if is_line_end (last? head) then head else head ++ b'\n' ∷ []

-- `Capture::render`
unfoldable pub render : (ℕ → Bytes) → Capture → Bytes
render marker c =
    let tail = kept_tail c in
    let omitted = c.total - length c.head - length tail in
    let skip = skip_of tail in
    if omitted == 0
    then c.head ++ tail
    else close_head c.head ++ (marker (omitted + skip) ++ (b'\n' ∷ drop skip tail))
