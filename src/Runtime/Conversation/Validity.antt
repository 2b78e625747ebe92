-- ===== src/Runtime/Conversation/Validity.antt =====
-- About `validate` of crates/core/src/runtime/conversation.rs on sound conversations.
use apprentice_harness.Common.{
  ℕ, suc, ◌+◌, ◌≡◌, ◌≢◌, refl, ◌∙◌, ap, arith, Bool, true, false, not, ◌&&◌, Option, none, some,
  List, [], ◌∷◌, ◌++◌, Text, is_empty, last?, length,
}
use apprentice_harness.Common.Result.{Result, ok, err, ◌>>=◌}
use apprentice_harness.Mentor.Types.{
  Role, user, assistant, system, ContentBlock, text, tool_use, tool_result, Message,
}
use apprentice_harness.Runtime.Conversation.{
  opt_role_eq, Invalid, Seen, missing_from, result_ids, use_ids, check_message, check_messages,
  push_user_text, pop_message,
}

bind-step :
    (x : Result Invalid Seen) (f g h : Seen → Result Invalid Seen)
    → ((s : Seen) → f s ≡ (g s >>= h))
    → (x >>= f) ≡ ((x >>= g) >>= h)
bind-step (ok s) f g h e = e s
bind-step (err i) f g h e = refl

bind-ok : (x : Result Invalid Seen) → (x >>= λ s. ok s) ≡ x
bind-ok (ok s) = refl
bind-ok (err i) = refl

opt_role_eq-user : (r : Option Role) → r ≢ some user → opt_role_eq r user ≡ false
opt_role_eq-user none h = refl
opt_role_eq-user (some user) h = absurd (h refl)
opt_role_eq-user (some assistant) h = refl
opt_role_eq-user (some system) h = refl

and_false : (b : Bool) → (b && false) ≡ false
and_false true = refl
and_false false = refl

module _ {Value : Type 0} where
  abbrev pub user_message : List (ContentBlock Value) → Message Value
  user_message bs = record { role = user; content = bs }

  abbrev pub assistant_message : List (ContentBlock Value) → Message Value
  assistant_message bs = record { role = assistant; content = bs }

  -- The results answer the open ids, each of them, and nothing else.
  abbrev pub Answers : List Text → List (ContentBlock Value) → Type 0
  Answers ids bs =
      (missing_from (result_ids bs) ids ≡ none) × (missing_from ids (result_ids bs) ≡ none)

  -- The messages, the last role and the ids that are open behind it.
  pub data Sound : List (Message Value) → Option Role → List Text → Type 0 where
    empty : Sound [] none []
    user_turn :
        (ms : List (Message Value)) (bs : List (ContentBlock Value)) (r : Option Role)
        (ids : List Text)
        → Sound ms r ids
        → r ≢ some user
        → use_ids bs ≡ []
        → Answers ids bs
        → Sound (ms ++ user_message bs ∷ []) (some user) []
    assistant_turn :
        (ms : List (Message Value)) (bs : List (ContentBlock Value))
        → Sound ms (some user) []
        → result_ids bs ≡ []
        → Sound (ms ++ assistant_message bs ∷ []) (some assistant) (use_ids bs)

  check_messages-append :
      (i : ℕ) (ms : List (Message Value)) (m : Message Value) (seen : Seen)
      → check_messages i (ms ++ m ∷ []) seen
        ≡ (check_messages i ms seen >>= λ next. check_message (i + length ms) m next)
  unfolding check_messages
  check_messages-append i [] m seen =
      let same : i ≡ i + 0 = omega arith in
      bind-ok (check_message i m seen) ∙ ap (λ k. check_message k m seen) same
  check_messages-append i (n ∷ ms) m seen =
      let same : suc i + length ms ≡ i + suc (length ms) = omega arith in
      bind-step (check_message i n seen) _ (λ next. check_messages (suc i) ms next)
        (λ next. check_message (i + suc (length ms)) m next)
        (λ next. rw same at (check_messages-append (suc i) ms m next))

  check_message-user :
      (i : ℕ) (bs : List (ContentBlock Value)) (r : Option Role) (ids : List Text)
      → r ≢ some user
      → use_ids bs ≡ []
      → Answers ids bs
      → check_message i (user_message bs) (r, ids) ≡ ok (some user, [])
  unfolding check_message
  check_message-user i bs r ids h u a =
      rw (opt_role_eq-user r h, and_false (not (is_empty ids)), a.0, a.1, u) refl

  check_message-assistant :
      (i : ℕ) (bs : List (ContentBlock Value))
      → result_ids bs ≡ []
      → check_message i (assistant_message bs) (some user, []) ≡ ok (some assistant, use_ids bs)
  unfolding check_message missing_from
  check_message-assistant i bs h = rw h refl

  pub Sound-check :
      (ms : List (Message Value)) (r : Option Role) (ids : List Text)
      → Sound ms r ids
      → check_messages 0 ms (none, []) ≡ ok (r, ids)
  unfolding check_messages
  Sound-check _ _ _ empty = refl
  Sound-check _ _ _ (user_turn ms bs r ids s h u a) =
      rw (check_messages-append 0 ms (user_message bs) (none, []), Sound-check ms r ids s)
        (check_message-user (0 + length ms) bs r ids h u a)
  Sound-check _ _ _ (assistant_turn ms bs s h) =
      rw
        (
          check_messages-append 0 ms (assistant_message bs) (none, []),
          Sound-check ms (some user) [] s,
        )
        (check_message-assistant (0 + length ms) bs h)

  pub last?-append : (ms : List (Message Value)) (m : Message Value) → last? (ms ++ m ∷ []) ≡ some m
  last?-append [] m = refl
  last?-append (n ∷ []) m = refl
  last?-append (n ∷ k ∷ ms) m = last?-append (k ∷ ms) m

  pub pop_message-append :
      (ms : List (Message Value)) (m : Message Value) → pop_message (ms ++ m ∷ []) ≡ ms
  pop_message-append [] m = refl
  pop_message-append (n ∷ []) m = refl
  pop_message-append (n ∷ k ∷ ms) m = ap (λ l. n ∷ l) (pop_message-append (k ∷ ms) m)

  pub push_user_text-user :
      (t : Text) (ms : List (Message Value)) (bs : List (ContentBlock Value))
      → push_user_text t (ms ++ user_message bs ∷ [])
        ≡ ms ++ user_message (bs ++ text t false ∷ []) ∷ []
  unfolding push_user_text
  push_user_text-user t [] bs = refl
  push_user_text-user t (n ∷ []) bs = refl
  push_user_text-user t (n ∷ k ∷ ms) bs = ap (λ l. n ∷ l) (push_user_text-user t (k ∷ ms) bs)

  pub push_user_text-assistant :
      (t : Text) (ms : List (Message Value)) (bs : List (ContentBlock Value))
      → push_user_text t (ms ++ assistant_message bs ∷ [])
        ≡ (ms ++ assistant_message bs ∷ []) ++ user_message (text t false ∷ []) ∷ []
  unfolding push_user_text
  push_user_text-assistant t [] bs = refl
  push_user_text-assistant t (n ∷ []) bs = refl
  push_user_text-assistant t (n ∷ k ∷ ms) bs =
      ap (λ l. n ∷ l) (push_user_text-assistant t (k ∷ ms) bs)

  pub use_ids-text :
      (bs : List (ContentBlock Value)) (t : Text) → use_ids (bs ++ text t false ∷ []) ≡ use_ids bs
  use_ids-text [] t = refl
  use_ids-text (tool_use i n v f ∷ bs) t = ap (λ l. i ∷ l) (use_ids-text bs t)
  use_ids-text (_ ∷ bs) t = use_ids-text bs t

  pub result_ids-text :
      (bs : List (ContentBlock Value)) (t : Text)
      → result_ids (bs ++ text t false ∷ []) ≡ result_ids bs
  result_ids-text [] t = refl
  result_ids-text (tool_result i n v f ∷ bs) t = ap (λ l. i ∷ l) (result_ids-text bs t)
  result_ids-text (_ ∷ bs) t = result_ids-text bs t
