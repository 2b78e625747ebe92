-- ===== src/Tools/Limits.antt =====
-- Output limits: crates/core/src/tools/limits.rs. A text is its UTF-8 bytes, and `usize` has 64 bits.
pub mod Cuts
use apprentice_harness.Common.{
  ℕ, zero, suc, ◌+◌, ◌-◌, ◌*◌, ◌/◌, ◌%◌, ◌^◌, min, max, Bool, true, false, not, ◌&&◌, ◌||◌, Option,
  none, some, List, [], ◌∷◌, ◌++◌, Bytes, length, get_elem?, take, drop, last?, leb, ltb, ◌==◌,
  if◌then◌else◌,
}

-- `str::is_char_boundary`: not in front of a continuation byte.
abbrev starts_char : Option ℕ → Bool
starts_char none = false
starts_char (some b) = not (leb 128 b && ltb b 192)

abbrev pub is_char_boundary : Bytes → ℕ → Bool
is_char_boundary s i = i == 0 || (i == length s || starts_char (get_elem? s i))

-- The loop of `floor_boundary`: it stops at 0 at the latest.
unfoldable pub floor_from : Bytes → ℕ → ℕ
floor_from s zero = zero
floor_from s (suc i) =
    let lower = floor_from s i in if is_char_boundary s (suc i) then suc i else lower

unfoldable pub floor_boundary : Bytes → ℕ → ℕ
unfolding floor_from
floor_boundary s at = floor_from s (min at (length s))

-- The loop of `ceil_boundary`, on fuel.
unfoldable pub ceil_from : ℕ → Bytes → ℕ → ℕ
ceil_from zero s i = i
ceil_from (suc fuel) s i =
    let higher = ceil_from fuel s (suc i) in if is_char_boundary s i then i else higher

-- It stops at the end of the text at the latest, so what is left of the text is enough fuel.
unfoldable pub ceil_boundary : Bytes → ℕ → ℕ
unfolding ceil_from
ceil_boundary s at = let i = min at (length s) in ceil_from (length s - i) s i

pub record Truncated : Type 0 where
  pub text : Bytes
  pub truncated : Bool
  pub omitted : ℕ

-- Three quarters of the budget.
abbrev pub head_share : ℕ → ℕ
head_share max_bytes = max_bytes * 3 % 2 ^ 64 / 4

abbrev pub ends_line : Option ℕ → Bool
ends_line none = false
ends_line (some b) = b == b'\n'

abbrev pub head_end_of : Bytes → ℕ → ℕ
head_end_of text max_bytes = floor_boundary text (head_share max_bytes)

abbrev pub tail_start_of : Bytes → ℕ → ℕ
tail_start_of text max_bytes =
    max (ceil_boundary text (length text - (max_bytes - head_share max_bytes)))
      (head_end_of text max_bytes)

abbrev pub close_line : Bytes → Bytes
close_line head = if ends_line (last? head) then head else head ++ b'\n' ∷ []

unfoldable pub truncate_utf8 : Bytes → ℕ → (ℕ → Bytes) → Truncated
truncate_utf8 text max_bytes marker =
    let head_end = head_end_of text max_bytes in
    let tail_start = tail_start_of text max_bytes in
    let omitted = tail_start - head_end in
    if leb (length text) max_bytes
    then record { text = text; truncated = false; omitted = 0 }
    else record {
      text =
          close_line (take head_end text)
          ++ (marker omitted ++ (b'\n' ∷ [] ++ drop tail_start text));
      truncated = true;
      omitted = omitted;
    }

-- `is_utf8` is whether `std::str::from_utf8` takes the bytes.
unfoldable pub capture_bytes : (Bytes → Bool) → Bytes → ℕ → Option Bytes
capture_bytes is_utf8 raw max_bytes =
    let head_budget = head_share max_bytes in
    let tail_budget = max_bytes - head_budget in
    let whole_chars = is_utf8 raw in
    let head_end = if whole_chars then floor_boundary raw head_budget else head_budget in
    let tail_start =
      if whole_chars
      then ceil_boundary raw (length raw - tail_budget)
      else length raw - tail_budget in
    if leb (length raw) max_bytes
    then none
    else some (take head_end raw ++ drop (max tail_start head_end) raw)
