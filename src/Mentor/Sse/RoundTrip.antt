-- ===== src/Mentor/Sse/RoundTrip.antt =====
-- About `SseParser` of crates/core/src/mentor/sse.rs on events written in its format.
use apprentice_harness.Common.{
  ℕ, ◌≡◌, refl, sym, ◌∙◌, ap, Bool, true, not, ◌&&◌, Option, some, none, List, [], ◌∷◌, ◌++◌,
  append-nil, append_assoc, arith, Bytes, Text, codes, join, ltb, All, All-append, if◌then◌else◌,
}
use apprentice_harness.Mentor.Sse.{
  no_event, SseParser, new_parser, is_eol, trim_eol, opt_list, line, dispatch, take_line, push,
}
use apprentice_harness.Mentor.Sse.Chunks.{NoNewline, push_byte, push_bytes, push-eq-push_bytes}

-- ASCII, and no end of line.
abbrev is_line_char : ℕ → Bool
is_line_char c = ltb c 128 && not (is_eol c)

abbrev pub IsLine : Text → Type 0
IsLine l = All (λ c. is_line_char c ≡ true) l

abbrev data_line : Text → Bytes
data_line l = codes "data: " ++ (l ++ b'\n' ∷ [])

abbrev data_lines : List Text → Bytes
data_lines [] = []
data_lines (l ∷ ls) = data_line l ++ data_lines ls

-- An event of the stream: its name, its lines of data, and a blank line.
abbrev pub write_event : Text → List Text → Bytes
write_event name ls = (codes "event: " ++ (name ++ b'\n' ∷ [])) ++ (data_lines ls ++ b'\n' ∷ [])

-- What each further line adds to the data.
abbrev more_lines : List Text → Text
more_lines [] = []
more_lines (l ∷ ls) = (b'\n' ∷ []) ++ (l ++ more_lines ls)

join-more_lines : (l : Text) (ls : List Text) → join (b'\n' ∷ []) (l ∷ ls) ≡ l ++ more_lines ls
join-more_lines l [] = sym (append-nil l)
join-more_lines l (m ∷ ls) = ap (λ t. l ++ ((b'\n' ∷ []) ++ t)) (join-more_lines m ls)

trim_eol-line : (l : Text) → IsLine l → trim_eol (l ++ b'\n' ∷ []) ≡ l
unfolding trim_eol
trim_eol-line [] h = refl
trim_eol-line (c ∷ l) h = rw (trim_eol-line l h.1) (ground (arith, h.0))

NoNewline-line : (l : Text) → IsLine l → NoNewline l
NoNewline-line [] h = tt
NoNewline-line (c ∷ l) h = (ground (arith, h.0), NoNewline-line l h.1)

IsLine-data : IsLine (codes "data: ")
IsLine-data = (refl, (refl, (refl, (refl, (refl, (refl, tt))))))

IsLine-event : IsLine (codes "event: ")
IsLine-event = (refl, (refl, (refl, (refl, (refl, (refl, (refl, tt)))))))

more_lines-append :
    (t l : Text) (ls : List Text)
    → ((t ++ b'\n' ∷ []) ++ l) ++ more_lines ls ≡ t ++ more_lines (l ∷ ls)
more_lines-append t l ls =
    append_assoc (t ++ b'\n' ∷ []) l (more_lines ls)
    ∙ append_assoc t (b'\n' ∷ []) (l ++ more_lines ls)

-- `from_utf8_lossy` keeps ASCII.
module _ (lossy : Bytes → Text)
    (ascii : (bs : Bytes) → All (λ b. ltb b 128 ≡ true) bs → lossy bs ≡ bs) where
  IsAscii-line : (l : Text) → IsLine l → All (λ b. ltb b 128 ≡ true) (l ++ b'\n' ∷ [])
  IsAscii-line [] h = (refl, tt)
  IsAscii-line (c ∷ l) h = (ground (arith, h.0), IsAscii-line l h.1)

  push_bytes-line :
      (p : SseParser) (l rest : Bytes)
      → NoNewline l
      → let t = take_line lossy (p.buf ++ (l ++ b'\n' ∷ [])) (record p { buf = [] }) in
        push_bytes lossy p (l ++ b'\n' ∷ rest)
        ≡ (opt_list t.0 ++ (push_bytes lossy t.1 rest).0, (push_bytes lossy t.1 rest).1)
  unfolding push_bytes push_byte
  push_bytes-line p [] rest h = refl
  push_bytes-line p (b ∷ l) rest h = rw h.0 (
      rw (append_assoc p.buf (b ∷ []) (l ++ b'\n' ∷ [])) at
        (push_bytes-line (record p { buf = p.buf ++ b ∷ [] }) l rest h.1))

  take_line-line :
      (l : Text) (p : SseParser) → IsLine l → take_line lossy (l ++ b'\n' ∷ []) p ≡ line l p
  unfolding take_line
  take_line-line l p h = rw (ascii _ (IsAscii-line l h), trim_eol-line l h)

  -- A whole line, read into an empty buffer.
  read_line :
      (p : SseParser) (l rest : Bytes)
      → IsLine l
      → let q = record p { buf = [] } in
        push_bytes lossy q (l ++ b'\n' ∷ rest) ≡ (
          opt_list (line l q).0 ++ (push_bytes lossy (line l q).1 rest).0,
          (push_bytes lossy (line l q).1 rest).1,
        )
  read_line p l rest h =
      rw (← take_line-line l (record p { buf = [] }) h)
        (push_bytes-line (record p { buf = [] }) l rest (NoNewline-line l h))

  abbrev with_data : Bool → Text → SseParser → SseParser
  with_data begun t p = record p {
    current = record p.current {
      data_text = (if begun then p.current.data_text ++ b'\n' ∷ [] else p.current.data_text) ++ t;
    };
    has_data = true;
  }

  line-data :
      (p : SseParser) (l : Text) → line (codes "data: " ++ l) p ≡ (none, with_data p.has_data l p)
  unfolding line
  line-data p l = refl

  line-event :
      (p : SseParser) (name : Text)
      → line (codes "event: " ++ name) p
        ≡ (none, record p { current = record p.current { event = some name } })
  unfolding line
  line-event p name = refl

  read_data :
      (p : SseParser) (l : Text) (rest : Bytes)
      → IsLine l
      → let q = record p { buf = [] } in
        push_bytes lossy q (data_line l ++ rest) ≡ push_bytes lossy (with_data p.has_data l q) rest
  read_data p l rest h =
      rw (line-data (record p { buf = [] }) l, ← append_assoc l (b'\n' ∷ []) rest) at
        (read_line p (codes "data: " ++ l) rest (All-append _ (codes "data: ") l IsLine-data h))

  abbrev with_text : Option Text → Text → SseParser
  with_text e t = record {
    buf = [];
    current = record { event = e; data_text = t };
    has_data = true;
  }

  read_more :
      (e : Option Text) (t : Text) (ls : List Text) (rest : Bytes)
      → All IsLine ls
      → push_bytes lossy (with_text e t) (data_lines ls ++ rest)
        ≡ push_bytes lossy (with_text e (t ++ more_lines ls)) rest
  read_more e t [] rest h = rw (append-nil t)
  read_more e t (l ∷ ls) rest h =
      rw (append_assoc (data_line l) (data_lines ls) rest, ← more_lines-append t l ls)
        (read_data (with_text e t) l (data_lines ls ++ rest) h.0
          ∙ read_more e ((t ++ b'\n' ∷ []) ++ l) ls rest h.1)

  abbrev named : Text → SseParser
  named name = record new_parser { current = record no_event { event = some name } }

  read_event :
      (name : Text) (rest : Bytes)
      → IsLine name
      → push_bytes lossy new_parser ((codes "event: " ++ (name ++ b'\n' ∷ [])) ++ rest)
        ≡ push_bytes lossy (named name) rest
  read_event name rest h =
      rw (line-event new_parser name, ← append_assoc name (b'\n' ∷ []) rest) at
        (read_line new_parser (codes "event: " ++ name) rest
          (All-append _ (codes "event: ") name IsLine-event h))

  read_blank :
      (e : Option Text) (t : Text)
      → push_bytes lossy (with_text e t) (b'\n' ∷ [])
        ≡ (record { event = e; data_text = t } ∷ [], new_parser)
  unfolding push_bytes line dispatch
  read_blank e t = read_line (with_text e t) [] [] tt

  read_event_lines :
      (name l : Text) (ls : List Text)
      → IsLine name
      → All IsLine (l ∷ ls)
      → push_bytes lossy new_parser (write_event name (l ∷ ls))
        ≡ (record { event = some name; data_text = l ++ more_lines ls } ∷ [], new_parser)
  read_event_lines name l ls hn h =
      let rest = data_lines ls ++ b'\n' ∷ [] in
      read_event name (data_lines (l ∷ ls) ++ b'\n' ∷ []) hn
      ∙ (ap (push_bytes lossy (named name))
            (append_assoc (data_line l) (data_lines ls) (b'\n' ∷ []))
          ∙ (read_data (named name) l rest h.0
              ∙ (read_more (some name) l ls (b'\n' ∷ []) h.1
                  ∙ read_blank (some name) (l ++ more_lines ls))))

  -- With a decoder that keeps ASCII: an event whose name and lines of data are ASCII without an end
  -- of line, written as `event:` and `data:` lines and a blank line, is read by a new parser as that
  -- one event, its data the lines joined by newlines, and the parser is new again.
  pub push-write_event :
      (name l : Text) (ls : List Text)
      → IsLine name
      → All IsLine (l ∷ ls)
      → push lossy (write_event name (l ∷ ls)) new_parser
        ≡ (record { event = some name; data_text = join (b'\n' ∷ []) (l ∷ ls) } ∷ [], new_parser)
  push-write_event name l ls hn h = rw (join-more_lines l ls) (
      push-eq-push_bytes lossy (write_event name (l ∷ ls)) new_parser tt
      ∙ read_event_lines name l ls hn h)
