-- ===== src/Mentor/Sse/Chunks.antt =====
-- About `SseParser::push` of crates/core/src/mentor/sse.rs on a stream that comes in chunks.
use apprentice_harness.Common.{
  ℕ, zero, suc, ◌≤◌, ◌≡◌, refl, sym, ◌∙◌, inl, inr, false, none, some, List, [], ◌∷◌, ◌++◌,
  append-nil, append_assoc, arith, Bytes, Text, length, length-append, ◌==◌, ==_iff, Bool-cases,
  if◌then◌else◌, All, All-append,
}
use apprentice_harness.Mentor.Sse.{
  SseEvent, SseParser, split_newline, opt_list, trim_eol, take_line, drain, push, line,
}

abbrev pub NoNewline : Bytes → Type 0
NoNewline bs = All (λ b. (b == b'\n') ≡ false) bs

split_newline-none : (bs : Bytes) → NoNewline bs → split_newline bs ≡ none
unfolding split_newline
split_newline-none [] h = refl
split_newline-none (b ∷ bs) h = rw (h.0, split_newline-none bs h.1)

pub split_newline-append :
    (bs rest : Bytes)
    → NoNewline bs
    → split_newline (bs ++ b'\n' ∷ rest) ≡ some (bs ++ b'\n' ∷ [], rest)
unfolding split_newline
split_newline-append [] rest h = refl
split_newline-append (b ∷ bs) rest h = rw (h.0, split_newline-append bs rest h.1)

-- The stream that the chunks were cut from.
abbrev pub concat : List Bytes → Bytes
concat [] = []
concat (chunk ∷ chunks) = chunk ++ concat chunks

module _ (lossy : Bytes → Text) where
  -- The newline that ends the line in the buffer.
  abbrev end_line : SseParser → List SseEvent × SseParser
  end_line p =
      let (ev, p') = take_line lossy (p.buf ++ b'\n' ∷ []) (record p { buf = [] }) in
      (opt_list ev, p')

  -- One byte at a time.
  unfoldable pub push_byte : SseParser → ℕ → List SseEvent × SseParser
  push_byte p b = if b == b'\n' then end_line p else ([], record p { buf = p.buf ++ b ∷ [] })

  unfoldable pub push_bytes : SseParser → Bytes → List SseEvent × SseParser
  push_bytes p [] = ([], p)
  push_bytes p (b ∷ bs) =
      let (evs, p') = push_byte p b in let (more, p'') = push_bytes p' bs in (evs ++ more, p'')

  line-buf :
      (l : Text) (p : SseParser) (r : Bytes)
      → line l (record p { buf = r }) ≡ ((line l p).0, record (line l p).1 { buf = r })
  unfolding line
  line-buf l p r = ground arith

  -- A line is read without regard to what is in the buffer.
  take_line-buf :
      (l : Bytes) (p : SseParser) (r : Bytes)
      → take_line lossy l (record p { buf = r })
        ≡ ((take_line lossy l p).0, record (take_line lossy l p).1 { buf = r })
  unfolding take_line
  take_line-buf l p r = line-buf (trim_eol (lossy l)) p r

  drain-nil : (fuel : ℕ) (p : SseParser) → NoNewline p.buf → drain lossy fuel p ≡ ([], p)
  unfolding drain
  drain-nil zero p h = refl
  drain-nil (suc fuel) p h = rw (split_newline-none p.buf h, drain)

  drain-line :
      (fuel : ℕ) (p : SseParser) (pre rest : Bytes)
      → NoNewline pre
      → let t = take_line lossy (pre ++ b'\n' ∷ []) p in
        let d = drain lossy fuel (record t.1 { buf = rest }) in
        drain lossy (suc fuel) (record p { buf = pre ++ b'\n' ∷ rest }) ≡ (opt_list t.0 ++ d.0, d.1)
  unfolding drain
  drain-line fuel p pre rest h =
      rw (split_newline-append pre rest h, drain, take_line-buf (pre ++ b'\n' ∷ []) p rest)

  drain-eq-push_bytes :
      (fuel : ℕ) (p : SseParser) (pre chunk : Bytes)
      → NoNewline pre
      → length (pre ++ chunk) ≤ fuel
      → drain lossy fuel (record p { buf = pre ++ chunk })
        ≡ push_bytes (record p { buf = pre }) chunk
  unfolding push_bytes push_byte
  drain-eq-push_bytes fuel p pre [] h k =
      rw (append-nil pre) (drain-nil fuel (record p { buf = pre }) h)
  drain-eq-push_bytes zero p pre (b ∷ bs) h k = absurd (omega (arith, length-append pre (b ∷ bs)))
  drain-eq-push_bytes (suc fuel) p pre (b ∷ bs) h k = elim (Bool-cases (b == b'\n')) [
    | inl nl ↦
        let same : b ≡ b'\n' = (==_iff b b'\n').0 nl in
        let t = take_line lossy (pre ++ b'\n' ∷ []) p in
        let ih =
          drain-eq-push_bytes fuel t.1 [] bs tt (omega (arith, length-append pre (b ∷ bs))) in
        rw (same, drain-line fuel p pre bs h, ih, take_line-buf (pre ++ b'\n' ∷ []) p []) refl
    | inr other ↦
        let ih =
          drain-eq-push_bytes (suc fuel) p (pre ++ b ∷ []) bs
            (All-append _ pre (b ∷ []) h (other, tt)) in
        rw other (rw (append_assoc pre (b ∷ []) bs) at (ih (rw (append_assoc pre (b ∷ []) bs) k)))
  ]

  -- The fuel of `push` is enough: it does what reading byte by byte does.
  pub push-eq-push_bytes :
      (chunk : Bytes) (p : SseParser) → NoNewline p.buf → push lossy chunk p ≡ push_bytes p chunk
  unfolding push
  push-eq-push_bytes chunk p h =
      drain-eq-push_bytes (length (p.buf ++ chunk)) p p.buf chunk h (omega arith)

  push_byte-NoNewline : (p : SseParser) (b : ℕ) → NoNewline p.buf → NoNewline (push_byte p b).1.buf
  unfolding push_byte
  push_byte-NoNewline p b h = elim (Bool-cases (b == b'\n')) [
    | inl nl ↦ rw (nl, take_line-buf (p.buf ++ b'\n' ∷ []) p []) tt
    | inr other ↦ rw other (All-append _ p.buf (b ∷ []) h (other, tt))
  ]

  push_bytes-NoNewline :
      (p : SseParser) (bs : Bytes) → NoNewline p.buf → NoNewline (push_bytes p bs).1.buf
  unfolding push_bytes
  push_bytes-NoNewline p [] h = h
  push_bytes-NoNewline p (b ∷ bs) h =
      push_bytes-NoNewline (push_byte p b).1 bs (push_byte-NoNewline p b h)

  pub push_bytes-append :
      (p : SseParser) (xs ys : Bytes)
      → push_bytes p (xs ++ ys) ≡ (
        (push_bytes p xs).0 ++ (push_bytes (push_bytes p xs).1 ys).0,
        (push_bytes (push_bytes p xs).1 ys).1,
      )
  unfolding push_bytes
  push_bytes-append p [] ys = refl
  push_bytes-append p (a ∷ xs) ys = simp (push_bytes-append (push_byte p a).1 xs ys, append_assoc)

  -- After a chunk the buffer holds no newline: the loop of `push` ran to its end.
  pub push-NoNewline :
      (chunk : Bytes) (p : SseParser) → NoNewline p.buf → NoNewline (push lossy chunk p).1.buf
  push-NoNewline chunk p h = rw (push-eq-push_bytes chunk p h) (push_bytes-NoNewline p chunk h)

  -- The chunks in turn.
  unfoldable pub push_all : List Bytes → SseParser → List SseEvent × SseParser
  push_all [] p = ([], p)
  push_all (chunk ∷ chunks) p =
      let (evs, p') = push lossy chunk p in
      let (more, p'') = push_all chunks p' in (evs ++ more, p'')

  push_all-eq-push_bytes :
      (chunks : List Bytes) (p : SseParser)
      → NoNewline p.buf
      → push_all chunks p ≡ push_bytes p (concat chunks)
  unfolding push_all push_bytes
  push_all-eq-push_bytes [] p h = refl
  push_all-eq-push_bytes (chunk ∷ chunks) p h = rw (
    push_all-eq-push_bytes chunks (push lossy chunk p).1 (push-NoNewline chunk p h),
    push_bytes-append p chunk (concat chunks),
    push-eq-push_bytes chunk p h,
  )

  -- Fed in any chunks, the stream gives the same events and leaves the same parser as fed in one
  -- piece, and no newline is left in the buffer.
  pub push_all-concat :
      (chunks : List Bytes) (p : SseParser)
      → NoNewline p.buf
      → (push_all chunks p ≡ push lossy (concat chunks) p) × NoNewline (push_all chunks p).1.buf
  push_all-concat chunks p h =
      let one = push_all-eq-push_bytes chunks p h in
      (
        one ∙ sym (push-eq-push_bytes (concat chunks) p h),
        rw one (push_bytes-NoNewline p (concat chunks) h),
      )
