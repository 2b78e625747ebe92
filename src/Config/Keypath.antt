-- ===== src/Config/Keypath.antt =====
-- Dotted key paths: crates/core/src/config/keypath.rs. The key that `ConfigError::BadKey` carries is
-- left out; its reason is a constructor.
pub mod RoundTrip
use apprentice_harness.Common.{
  ℕ, Bool, true, false, not, ◌&&◌, ◌||◌, List, [], ◌∷◌, ◌++◌, Text, is_empty, any, is_whitespace,
  ◌==◌, if◌then◌else◌,
}
use apprentice_harness.Common.Result.{Result, ok, err}

pub data BadKey : Type 0 where
  empty_key : BadKey
  unterminated_quote : BadKey
  text_after_quote : BadKey
  empty_segment : BadKey
  quote_in_bare : BadKey
  whitespace_in_key : BadKey

-- What may follow a closing quote: the end of the key, or a dot.
abbrev pub ends_segment : Text → Bool
ends_segment [] = true
ends_segment (c ∷ s) = c == b'.'

unfoldable mutual
  -- The loop of `parse`: the characters left, `current`, `quoted` and `segments`.
  pub walk : Text → Text → Bool → List Text → Result BadKey (List Text)
  walk [] current quoted segments =
      if is_empty current && not quoted then err empty_segment else ok (segments ++ current ∷ [])
  walk (c ∷ s) current quoted segments =
      let inside = walk_quoted s current segments in
      let next = walk s [] false (segments ++ current ∷ []) in
      let longer = walk s (current ++ c ∷ []) quoted segments in
      if c == b'"' && (is_empty current && not quoted)
      then inside
      else if c == b'.'
      then (if is_empty current && not quoted then err empty_segment else next)
      else if c == b'"'
      then err quote_in_bare
      else if is_whitespace c
      then err whitespace_in_key
      else longer

  -- The loop behind an opening quote.
  pub walk_quoted : Text → Text → List Text → Result BadKey (List Text)
  walk_quoted [] current segments = err unterminated_quote
  walk_quoted (c ∷ s) current segments =
      let closed = walk s current true segments in
      let longer = walk_quoted s (current ++ c ∷ []) segments in
      if c == b'"' then (if ends_segment s then closed else err text_after_quote) else longer

unfoldable pub parse : Text → Result BadKey (List Text)
unfolding walk
parse key = if is_empty key then err empty_key else walk key [] false []

abbrev pub needs_quotes : Text → Bool
needs_quotes s = is_empty s || (any (λ c. c == b'.' || c == b'"') s || any is_whitespace s)

abbrev pub format_segment : Text → Text
format_segment s = if needs_quotes s then b'"' ∷ (s ++ b'"' ∷ []) else s

-- The segments after the first, each behind a dot.
abbrev pub format_rest : List Text → Text
format_rest [] = []
format_rest (s ∷ ss) = b'.' ∷ (format_segment s ++ format_rest ss)

unfoldable pub format : List Text → Text
format [] = []
format (s ∷ ss) = format_segment s ++ format_rest ss
