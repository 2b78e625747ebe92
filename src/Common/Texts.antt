-- ===== src/Common/Texts.antt =====
-- Text as a list of numbers: code points for Rust's `chars`, bytes for `as_bytes` and `&[u8]`.
use Prim.Native.Char.{code}
use Prim.Native.Nat.{ℕ, zero, suc, ◌+◌, ◌/◌, ◌%◌}
use Prim.Native.String.{String}
use mathlib.Core.Path.{◌≡◌, refl}
use mathlib.Core.Bool.{Bool, true, false, ◌&&◌, ◌||◌}
use mathlib.Core.List.{List, [], ◌∷◌, ◌++◌, reverse}
use mathlib.Core.Option.{Option, none, some}
use native.Mathlib.Omega.{arith}
use apprentice_harness.Common.Lists.{is_empty}
use apprentice_harness.Common.Tests.{◌==◌, leb, ltb, if◌then◌else◌}

abbrev pub Text : Type 0
Text = List ℕ

abbrev pub Bytes : Type 0
Bytes = List ℕ

-- Of a text that is split: an item before the first part.
abbrev pub cons_left : ℕ → Option (Text × Text) → Option (Text × Text)
cons_left c none = none
cons_left c (some (l, r)) = some (c ∷ l, r)

abbrev pub codes : String → Text
codes String.[] = []
codes (String.◌∷◌ c s) = code c ∷ codes s

abbrev pub text_eq : Text → Text → Bool
text_eq [] [] = true
text_eq [] (y ∷ ys) = false
text_eq (x ∷ xs) [] = false
text_eq (x ∷ xs) (y ∷ ys) = (x == y) && text_eq xs ys

pub text_eq_sound : (s t : Text) → text_eq s t ≡ true → s ≡ t
text_eq_sound [] [] h = refl
text_eq_sound [] (y ∷ ys) h = cc
text_eq_sound (x ∷ xs) [] h = cc
text_eq_sound (x ∷ xs) (y ∷ ys) h = ground (arith, text_eq_sound xs ys)

pub text_eq_refl : (s : Text) → text_eq s s ≡ true
text_eq_refl [] = refl
text_eq_refl (x ∷ xs) = ground (arith, text_eq_refl xs)

-- `char::is_whitespace`: the code points of Unicode's White_Space property.
unfoldable pub is_whitespace : ℕ → Bool
is_whitespace c =
    (leb 9 c && leb c 13)
    || c == 32
    || c == 0x85
    || c == 0xA0
    || c == 0x1680
    || (leb 0x2000 c && leb c 0x200A)
    || c == 0x2028
    || c == 0x2029
    || c == 0x202F
    || c == 0x205F
    || c == 0x3000

-- `str::trim_start`.
unfoldable pub trim_start : Text → Text
trim_start [] = []
trim_start (c ∷ s) = if is_whitespace c then trim_start s else c ∷ s

-- `str::trim_end`.
unfoldable pub trim_end : Text → Text
unfolding trim_start
trim_end s = reverse (trim_start (reverse s))

-- `str::trim`.
unfoldable pub trim : Text → Text
unfolding trim_end trim_start
trim s = trim_end (trim_start s)

-- `str::strip_prefix`.
unfoldable pub strip_prefix : Text → Text → Option Text
strip_prefix [] s = some s
strip_prefix (p ∷ ps) [] = none
strip_prefix (p ∷ ps) (c ∷ s) = if p == c then strip_prefix ps s else none

-- `str::starts_with` of a text, `slice::starts_with` of bytes.
unfoldable pub starts_with : Text → Text → Bool
starts_with s [] = true
starts_with [] (p ∷ ps) = false
starts_with (c ∷ s) (p ∷ ps) = (p == c) && starts_with s ps

-- `str::ends_with`.
unfoldable pub ends_with : Text → Text → Bool
unfolding starts_with
ends_with s suffix = starts_with (reverse s) (reverse suffix)

-- `str::contains` of a text.
unfoldable pub contains_text : Text → Text → Bool
unfolding starts_with
contains_text [] needle = starts_with [] needle
contains_text (c ∷ s) needle = starts_with (c ∷ s) needle || contains_text s needle

pub strip_prefix_sound : (p s rest : Text) → strip_prefix p s ≡ some rest → s ≡ p ++ rest
unfolding strip_prefix
strip_prefix_sound [] s rest h = cc
strip_prefix_sound (p ∷ ps) [] rest h = cc
strip_prefix_sound (p ∷ ps) (c ∷ s) rest h = ground (arith, strip_prefix_sound ps s rest)

pub strip_prefix-append : (p rest : Text) → strip_prefix p (p ++ rest) ≡ some rest
unfolding strip_prefix
strip_prefix-append [] rest = refl
strip_prefix-append (p ∷ ps) rest = ground (arith, strip_prefix-append ps rest)

abbrev chomp_cr : Text → Text
chomp_cr [] = []
chomp_cr (c ∷ []) = if c == b'\r' then [] else c ∷ []
chomp_cr (c ∷ d ∷ s) = c ∷ chomp_cr (d ∷ s)

-- The lines from the text that the current line has already.
unfoldable pub lines_from : Text → Text → List Text
lines_from cur [] = if is_empty cur then [] else cur ∷ []
lines_from cur (c ∷ s) =
    let closed = chomp_cr cur ∷ lines_from [] s in
    let longer = lines_from (cur ++ c ∷ []) s in if c == b'\n' then closed else longer

-- `str::lines`.
unfoldable pub lines : Text → List Text
unfolding lines_from
lines s = lines_from [] s

abbrev word_before : Text → List Text → List Text
word_before [] ws = ws
word_before (c ∷ w) ws = (c ∷ w) ∷ ws

-- The words from the text that the current word has already.
unfoldable pub words_from : Text → Text → List Text
words_from w [] = word_before w []
words_from w (c ∷ s) =
    let closed = word_before w (words_from [] s) in
    let longer = words_from (w ++ c ∷ []) s in if is_whitespace c then closed else longer

-- `str::split_whitespace`.
unfoldable pub split_whitespace : Text → List Text
unfolding words_from is_whitespace
split_whitespace s = words_from [] s

abbrev pub join : Text → List Text → Text
join sep [] = []
join sep (w ∷ []) = w
join sep (w ∷ v ∷ ws) = w ++ (sep ++ join sep (v ∷ ws))

-- What follows the first occurrence of a character.
abbrev after_first : ℕ → Text → Option Text
after_first c [] = none
after_first c (d ∷ s) = let rest = after_first c s in if d == c then some s else rest

-- The part of `str::rsplit_once` before the last occurrence of a character.
unfoldable pub before_last : ℕ → Text → Option Text
before_last c s = elim (after_first c (reverse s)) [ none ↦ none | some r ↦ some (reverse r) ]

-- The digits of a number, on fuel.
unfoldable pub digits : ℕ → ℕ → Text
digits zero n = []
digits (suc fuel) n =
    let higher = digits fuel (n / 10) in
    if ltb n 10 then (b'0' + n) ∷ [] else higher ++ (b'0' + n % 10) ∷ []

-- `{}` of a number; a tenth of it is less than it, so the number is enough fuel.
unfoldable pub decimal : ℕ → Text
unfolding digits
decimal n = digits (suc n) n
