-- ===== src/Mentor/Client/Quiet.antt =====
-- About `feed` of crates/core/src/mentor/assemble.rs: the events it forwards before content starts.
use apprentice_harness.Common.{
  ℕ, ◌≡◌, refl, ◌∙◌, ap, Bool, true, false, not, ◌⊎◌, inl, inr, Option, none, some, List, [], Text,
  codes, All, text_eq, is_empty, trim, Bool-cases, Option-cases, if◌then◌else◌,
}
use apprentice_harness.Common.Result.{Result, ok, err, Result-cases}
use apprentice_harness.Mentor.Types.{
  Usage, StreamEvent, usage_event, done_event, MentorError, protocol, stream_error,
}
use apprentice_harness.Mentor.Error.{is_retryable}
use apprentice_harness.Mentor.Assemble.{
  Json, ApiErrorBody, Envelope, MessageStart, Assembler, Fed, feed, feed_envelope, on_message_start,
  on_block_start, on_block_delta, on_block_stop, on_message_delta, on_error, finish, input_of,
  with_usage, Partial, partial_text, partial_tool, partial_thinking, partial_redacted,
  partial_other,
}
use apprentice_harness.Mentor.Assemble.Slots.{slot}

-- The events that show nothing of the content.
abbrev pub is_quiet : StreamEvent → Bool
is_quiet (usage_event u) = true
is_quiet done_event = true
is_quiet _ = false

abbrev pub Quiet : List StreamEvent → Type 0
Quiet events = All (λ e. is_quiet e ≡ true) events

module _ {Value : Type 0} where
  -- The errors of `feed`.
  abbrev pub is_feed_error : MentorError Value → Bool
  is_feed_error (protocol f) = true
  is_feed_error (stream_error k m) = true
  is_feed_error _ = false

  abbrev pub of_feed : {T : Type 0} → Result (MentorError Value) T → Bool
  of_feed (ok v) = true
  of_feed (err e) = is_feed_error e

  abbrev pub not_again : Result (MentorError Value) (List StreamEvent) → Bool
  not_again (ok events) = true
  not_again (err e) = not (is_retryable e)

  abbrev pub QuietFed : Result (MentorError Value) (List StreamEvent) → Type 0
  QuietFed (ok events) = Quiet events
  QuietFed (err e) = Unit

  -- No content has started, and no block is in flight.
  abbrev pub Calm : Assembler Value → Type 0
  Calm a = (a.started ≡ false) × (a.blocks ≡ [])

  abbrev pub Known : Assembler Value → Type 0
  Known a = (a.started ≡ true) ⊎ Calm a

  -- Content has started and an error is one of `feed`, or nothing of the content was shown.
  pub data Settled (a : Assembler Value) (f : Fed Value) : Type 0 where
    running : f.1.started ≡ true → of_feed f.0 ≡ true → Settled a f
    calm : Calm a → Calm f.1 → QuietFed f.0 → Settled a f

  if-Settled :
      (a : Assembler Value) (b : Bool) (x y : Fed Value)
      → Settled a x
      → Settled a y
      → Settled a (if b then x else y)
  if-Settled a true x y hx hy = hx
  if-Settled a false x y hx hy = hy

  keeps-Settled :
      (f : Fed Value) (a : Assembler Value)
      → Known a
      → f.1.started ≡ a.started
      → f.1.blocks ≡ a.blocks
      → of_feed f.0 ≡ true
      → QuietFed f.0
      → Settled a f
  keeps-Settled f a (inl s) hs hb hr q = running (hs ∙ s) hr
  keeps-Settled f a (inr (s, e)) hs hb hr q = calm (s, e) (hs ∙ s, hb ∙ e) q

  on_message_start-Settled :
      (m : Option MessageStart) (a : Assembler Value) → Known a → Settled a (on_message_start m a)
  on_message_start-Settled none a k = keeps-Settled _ a k refl refl refl tt
  on_message_start-Settled (some m) a k = keeps-Settled _ a k refl refl refl (refl, tt)

  with_usage-Settled :
      (u : Option Usage) (a b : Assembler Value)
      → Known a
      → b.started ≡ a.started
      → b.blocks ≡ a.blocks
      → Settled a (with_usage u b)
  with_usage-Settled none a b k hs hb = keeps-Settled _ a k hs hb refl tt
  with_usage-Settled (some u) a b k hs hb = keeps-Settled _ a k hs hb refl (refl, tt)

  module _ (json : Json Value) where
    on_block_start-Settled :
        (i : Option ℕ) (v : Option Value) (a : Assembler Value)
        → Known a
        → Settled a (on_block_start json i v a)
    unfolding on_block_start
    on_block_start-Settled none v a k = keeps-Settled _ a k refl refl refl tt
    on_block_start-Settled (some i) v a k = running refl refl

    on_block_delta-Settled :
        (i : Option ℕ) (v : Option Value) (a : Assembler Value)
        → Known a
        → Settled a (on_block_delta json i v a)
    unfolding on_block_delta
    on_block_delta-Settled none v a k = keeps-Settled _ a k refl refl refl tt
    on_block_delta-Settled (some i) v a (inr (s, e)) =
        let gone : slot i a.blocks ≡ none = ap (slot i) e in
        rw (on_block_delta, gone) (calm (s, e) (s, e) tt)
    on_block_delta-Settled (some i) v a (inl s) = elim (Option-cases (slot i a.blocks)) [
      | inl gone ↦ rw (on_block_delta, gone) (running s refl)
      | inr (p, e) ↦ rw (on_block_delta, e) (running s refl)
    ]

    finish-of_feed : (p : Partial Value) → of_feed (finish json p) ≡ true
    unfolding finish
    finish-of_feed (partial_text t) = refl
    finish-of_feed (partial_tool id name t) = elim (Bool-cases (is_empty (trim t))) [
      | inl blank ↦ rw blank refl
      | inr full ↦ elim (Result-cases (json.read_value t)) [
        | inl (fault, f) ↦ rw (full, input_of, f) refl
        | inr (v, f) ↦ rw (full, input_of, f) refl
      ]
    ]
    finish-of_feed (partial_thinking t u) = refl
    finish-of_feed (partial_redacted t) = refl
    finish-of_feed (partial_other v) = elim (Option-cases (json.to_block v)) [
      | inl f ↦ rw (finish, f) refl
      | inr (b, f) ↦ rw (finish, f) refl
    ]

    on_error-Settled :
        (payload : Text) (e : Option ApiErrorBody) (a : Assembler Value)
        → Known a
        → Settled a (err (on_error json payload e), a)
    on_error-Settled payload none a k = keeps-Settled _ a k refl refl refl tt
    on_error-Settled payload (some e) a k = keeps-Settled _ a k refl refl refl tt

    on_block_stop-Settled :
        (i : Option ℕ) (a : Assembler Value) → Known a → Settled a (on_block_stop json i a)
    unfolding on_block_stop finish
    on_block_stop-Settled none a k = keeps-Settled _ a k refl refl refl tt
    on_block_stop-Settled (some i) a (inr (s, e)) =
        let gone : slot i a.blocks ≡ none = ap (slot i) e in
        rw (on_block_stop, gone) (calm (s, e) (s, e) tt)
    on_block_stop-Settled (some i) a (inl s) = elim (Option-cases (slot i a.blocks)) [
      | inl gone ↦ rw (on_block_stop, gone) (running s refl)
      | inr (p, e) ↦ elim (Result-cases (finish json p)) [
        | inl (fault, f) ↦ rw (on_block_stop, e, f) (running s (rw f at (finish-of_feed p)))
        | inr (b, f) ↦ rw (on_block_stop, e, f) (running s refl)
      ]
    ]

    on_message_delta-Settled :
        (d : Option Value) (u : Option Usage) (a : Assembler Value)
        → Known a
        → Settled a (on_message_delta json d u a)
    unfolding on_message_delta
    on_message_delta-Settled d u a k = with_usage-Settled u a _ k refl refl

    feed_envelope-Settled :
        (payload : Text) (env : Envelope Value) (a : Assembler Value)
        → Known a
        → Settled a (feed_envelope json payload env a)
    unfolding feed_envelope
    feed_envelope-Settled payload env a k =
        if-Settled a (text_eq env.kind (codes "message_start")) _ _
          (on_message_start-Settled env.message a k)
          (if-Settled a (text_eq env.kind (codes "content_block_start")) _ _
            (on_block_start-Settled env.index env.content_block a k)
            (if-Settled a (text_eq env.kind (codes "content_block_delta")) _ _
              (on_block_delta-Settled env.index env.delta a k)
              (if-Settled a (text_eq env.kind (codes "content_block_stop")) _ _
                (on_block_stop-Settled env.index a k)
                (if-Settled a (text_eq env.kind (codes "message_delta")) _ _
                  (on_message_delta-Settled env.delta env.usage a k)
                  (if-Settled a (text_eq env.kind (codes "message_stop")) _ _
                    (keeps-Settled _ a k refl refl refl (refl, tt))
                    (if-Settled a (text_eq env.kind (codes "ping")) _ _
                      (keeps-Settled _ a k refl refl refl tt)
                      (if-Settled a (text_eq env.kind (codes "error")) _ _
                        (on_error-Settled payload env.error a k)
                        (keeps-Settled _ a k refl refl refl tt))))))))

    pub feed-Settled :
        (payload : Text) (a : Assembler Value) → Known a → Settled a (feed json payload a)
    unfolding feed
    feed-Settled payload a k = elim (Result-cases (json.read_envelope payload)) [
      | inl (e, f) ↦ rw (feed, f) (keeps-Settled _ a k refl refl refl tt)
      | inr (env, f) ↦ rw (feed, f) (feed_envelope-Settled payload env a k)
    ]
