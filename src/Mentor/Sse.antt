-- ===== src/Mentor/Sse.antt =====
-- The Server-Sent Events parser: crates/core/src/mentor/sse.rs. `String::from_utf8_lossy` of a line is
-- the parameter `lossy`.
pub mod Chunks
pub mod RoundTrip
use apprentice_harness.Common.{
  ℕ, zero, suc, ◌+◌, Bool, true, false, not, ◌&&◌, ◌||◌, Option, none, some, List, [], ◌∷◌, ◌++◌,
  Text, Bytes, codes, text_eq, length, is_empty, cons_left, starts_with, strip_prefix, ◌==◌,
  if◌then◌else◌,
}

pub record SseEvent : Type 0 where
  pub event : Option Text
  pub data_text : Text

abbrev pub no_event : SseEvent
no_event = record { event = none; data_text = [] }

pub record SseParser : Type 0 where
  pub buf : Bytes
  pub current : SseEvent
  pub has_data : Bool

-- `SseParser::new`
abbrev pub new_parser : SseParser
new_parser = record { buf = []; current = no_event; has_data = false }

abbrev is_some : Option Text → Bool
is_some none = false
is_some (some t) = true

abbrev pub is_eol : ℕ → Bool
is_eol c = c == b'\n' || c == b'\r'

-- `trim_end_matches(['\n', '\r'])`
unfoldable pub trim_eol : Text → Text
trim_eol [] = []
trim_eol (c ∷ s) = let rest = trim_eol s in if is_empty rest && is_eol c then [] else c ∷ rest

-- `split_once(':')`
unfoldable pub split_colon : Text → Option (Text × Text)
split_colon [] = none
split_colon (c ∷ s) =
    let later = cons_left c (split_colon s) in if c == b':' then some ([], s) else later

abbrev pub or_whole : Option Text → Text → Text
or_whole none v = v
or_whole (some rest) v = rest

-- The field and its value, without the blank after the colon.
unfoldable pub field_value : Text → Text × Text
unfolding split_colon strip_prefix
field_value line = elim (split_colon line) [
  | none ↦ (line, [])
  | some (f, v) ↦ (f, or_whole (strip_prefix (codes " ") v) v)
]

unfoldable pub dispatch : SseParser → Option SseEvent × SseParser
dispatch p =
    if not p.has_data && not (is_some p.current.event)
    then (none, p)
    else (some p.current, record p { current = no_event; has_data = false })

abbrev pub set_field : Text × Text → SseParser → SseParser
set_field (field, value) p =
    if text_eq field (codes "event")
    then record p { current = record p.current { event = some value } }
    else if text_eq field (codes "data")
    then record p {
      current = record p.current {
        data_text =
            (if p.has_data then p.current.data_text ++ b'\n' ∷ [] else p.current.data_text)
            ++ value;
      };
      has_data = true;
    }
    else p

unfoldable pub line : Text → SseParser → Option SseEvent × SseParser
unfolding dispatch field_value starts_with
line l p =
    if is_empty l
    then dispatch p
    else if starts_with l (codes ":")
    then (none, p)
    else (none, set_field (field_value l) p)

-- The bytes up to and with the first newline, and those behind it.
unfoldable pub split_newline : Bytes → Option (Bytes × Bytes)
split_newline [] = none
split_newline (b ∷ bs) =
    let later = cons_left b (split_newline bs) in if b == b'\n' then some (b ∷ [], bs) else later

abbrev pub opt_list {ℓ} : {A : Type ℓ} → Option A → List A
opt_list none = []
opt_list (some a) = a ∷ []

module _ (lossy : Bytes → Text) where
  -- The body of the loop of `push`, for a line that is drained from the buffer.
  unfoldable pub take_line : Bytes → SseParser → Option SseEvent × SseParser
  take_line l p = line (trim_eol (lossy l)) p

  -- The loop of `push`, on fuel.
  unfoldable pub drain : ℕ → SseParser → List SseEvent × SseParser
  unfolding split_newline take_line
  drain zero p = ([], p)
  drain (suc fuel) p = elim (split_newline p.buf) [
    | none ↦ ([], p)
    | some (l, rest) ↦
        let (ev, p') = take_line l (record p { buf = rest }) in
        let (evs, p'') = drain fuel p' in (opt_list ev ++ evs, p'')
  ]

  -- Every round drains a byte at least, so the length of the buffer is enough fuel.
  unfoldable pub push : Bytes → SseParser → List SseEvent × SseParser
  unfolding drain
  push chunk p = let buf = p.buf ++ chunk in drain (length buf) (record p { buf = buf })

  unfoldable pub finish : SseParser → Option SseEvent × SseParser
  unfolding take_line dispatch
  finish p =
      if is_empty p.buf
      then dispatch p
      else let (ev, p') = take_line p.buf (record p { buf = [] }) in
        elim ev [ some e ↦ (some e, p') | none ↦ dispatch p' ]
