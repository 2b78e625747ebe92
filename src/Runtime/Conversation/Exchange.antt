-- ===== src/Runtime/Conversation/Exchange.antt =====
-- The operations on a conversation as a step relation, and what holds of every conversation reached.
use apprentice_harness.Common.{
  ◌≡◌, ◌≢◌, refl, sym, ◌∙◌, ap, subst, true, false, Option, none, some, List, [], ◌∷◌, ◌++◌, map,
  Text, is_empty, last?, Bool-cases, inl, inr,
}
use apprentice_harness.Common.Result.{ok}
use apprentice_harness.Mentor.Types.{Role, user, assistant, ContentBlock, text, tool_use, Message}
use apprentice_harness.Runtime.Conversation.{
  ToolCall, missing_from, result_ids, use_ids, tool_calls, validate, push_user_text, push_assistant,
  push_tool_results, pending_tool_uses, pop_message, repair,
}
use apprentice_harness.Runtime.Conversation.Validity.{
  user_message, assistant_message, Answers, Sound, empty, user_turn, assistant_turn, Sound-check,
  last?-append, pop_message-append, push_user_text-user, push_user_text-assistant, use_ids-text,
  result_ids-text,
}

none-user : none ≢ some user
none-user h = cc

assistant-user : some assistant ≢ some user
assistant-user h = cc

assistant-assistant : (r : Option Role) → r ≡ some user → r ≢ some assistant
assistant-assistant r e h = cc

module _ {Value : Type 0} where
  abbrev pub call_ids : List (ToolCall Value) → List Text
  call_ids calls = map ToolCall.id calls

  abbrev pub LastIsUser : List (Message Value) → Type 0
  LastIsUser ms = (bs : List (ContentBlock Value)) × (last? ms ≡ some (user_message bs))

  -- The conversations that the operations build, used as the runtime uses them: a user's text when no
  -- call is open, an answer of the assistant behind a user's turn, and one message of results that
  -- answers the open calls and nothing else.
  pub data Exchange : List (Message Value) → Type 0 where
    begin : Exchange []
    user_text :
        (t : Text) (ms : List (Message Value))
        → Exchange ms
        → pending_tool_uses ms ≡ []
        → Exchange (push_user_text t ms)
    answer :
        (bs : List (ContentBlock Value)) (ms : List (Message Value))
        → Exchange ms
        → LastIsUser ms
        → result_ids bs ≡ []
        → Exchange (push_assistant bs ms)
    results :
        (bs : List (ContentBlock Value)) (ms : List (Message Value))
        → Exchange ms
        → pending_tool_uses ms ≢ []
        → use_ids bs ≡ []
        → Answers (call_ids (pending_tool_uses ms)) bs
        → Exchange (push_tool_results bs ms)
    repaired : (ms : List (Message Value)) → Exchange ms → Exchange (repair ms).1

  call_ids-tool_calls : (bs : List (ContentBlock Value)) → call_ids (tool_calls bs) ≡ use_ids bs
  call_ids-tool_calls [] = refl
  call_ids-tool_calls (tool_use i n v f ∷ bs) = ap (λ l. i ∷ l) (call_ids-tool_calls bs)
  call_ids-tool_calls (_ ∷ bs) = call_ids-tool_calls bs

  pending-user :
      (ms : List (Message Value)) (bs : List (ContentBlock Value))
      → pending_tool_uses (ms ++ user_message bs ∷ []) ≡ []
  unfolding pending_tool_uses
  pending-user ms bs = rw (pending_tool_uses, last?-append ms (user_message bs)) refl

  pub pending-assistant :
      (ms : List (Message Value)) (bs : List (ContentBlock Value))
      → pending_tool_uses (ms ++ assistant_message bs ∷ []) ≡ tool_calls bs
  unfolding pending_tool_uses
  pending-assistant ms bs = rw (pending_tool_uses, last?-append ms (assistant_message bs)) refl

  -- The ids that are open are those of the calls that are pending.
  Sound-pending :
      (ms : List (Message Value)) (r : Option Role) (ids : List Text)
      → Sound ms r ids
      → call_ids (pending_tool_uses ms) ≡ ids
  unfolding pending_tool_uses
  Sound-pending _ _ _ empty = refl
  Sound-pending _ _ _ (user_turn ms bs r ids s h u a) = ap call_ids (pending-user ms bs)
  Sound-pending _ _ _ (assistant_turn ms bs s h) =
      ap call_ids (pending-assistant ms bs) ∙ call_ids-tool_calls bs

  opt_role : Option (Message Value) → Option Role
  opt_role none = none
  opt_role (some m) = some m.role

  assistant-not-user :
      (us bs : List (ContentBlock Value)) → some (assistant_message us) ≢ some (user_message bs)
  unfolding opt_role
  assistant-not-user us bs h = assistant-user (ap opt_role h)

  abbrev IsSound : List (Message Value) → Type 0
  IsSound ms = (r : Option Role) × (ids : List Text) × Sound ms r ids

  push_user_text-Sound :
      (t : Text) (ms : List (Message Value)) (r : Option Role) (ids : List Text)
      → Sound ms r ids
      → ids ≡ []
      → IsSound (push_user_text t ms)
  unfolding push_user_text missing_from
  push_user_text-Sound t _ _ _ empty e =
      (some user, [], user_turn [] (text t false ∷ []) none [] empty none-user refl (refl, refl))
  push_user_text-Sound t _ _ _ (user_turn ms bs r ids s h u a) e = (
    some user,
    [],
    rw (push_user_text-user t ms bs) (
        user_turn ms (bs ++ text t false ∷ []) r ids s h (use_ids-text bs t ∙ u)
          (rw (result_ids-text bs t) a)),
  )
  push_user_text-Sound t _ _ _ (assistant_turn ms bs s h) e = (
    some user,
    [],
    rw (push_user_text-assistant t ms bs) (
        user_turn (ms ++ assistant_message bs ∷ []) (text t false ∷ []) (some assistant)
          (use_ids bs) (assistant_turn ms bs s h) assistant-user refl (rw e (refl, refl))),
  )

  push_assistant-Sound :
      (bs : List (ContentBlock Value)) (ms : List (Message Value)) (r : Option Role)
      (ids : List Text)
      → Sound ms r ids
      → LastIsUser ms
      → result_ids bs ≡ []
      → IsSound (push_assistant bs ms)
  unfolding push_assistant
  push_assistant-Sound bs _ _ _ empty last h = cc
  push_assistant-Sound bs _ _ _ (user_turn ms us r ids s q u a) last h =
      (some assistant, use_ids bs, assistant_turn _ bs (user_turn ms us r ids s q u a) h)
  push_assistant-Sound bs _ _ _ (assistant_turn ms us s q) last h =
      absurd (assistant-not-user us last.0 (sym (last?-append ms (assistant_message us)) ∙ last.1))

  push_tool_results-Sound :
      (bs : List (ContentBlock Value)) (ms : List (Message Value)) (r : Option Role)
      (ids : List Text)
      → Sound ms r ids
      → pending_tool_uses ms ≢ []
      → use_ids bs ≡ []
      → Answers (call_ids (pending_tool_uses ms)) bs
      → IsSound (push_tool_results bs ms)
  unfolding push_tool_results pending_tool_uses
  push_tool_results-Sound bs _ _ _ empty open_calls u a = absurd (open_calls refl)
  push_tool_results-Sound bs _ _ _ (user_turn ms us r ids s q v b) open_calls u a =
      absurd (open_calls (pending-user ms us))
  push_tool_results-Sound bs _ _ _ (assistant_turn ms us s q) open_calls u a = (
    some user,
    [],
    user_turn (ms ++ assistant_message us ∷ []) bs (some assistant) (use_ids us)
        (assistant_turn ms us s q) assistant-user u
        (rw (call_ids-tool_calls us) at (rw (pending-assistant ms us) at a)),
  )

  repair-none :
      (ms : List (Message Value)) → is_empty (pending_tool_uses ms) ≡ true → (repair ms).1 ≡ ms
  unfolding repair
  repair-none ms h = rw h refl

  repair-some :
      (ms : List (Message Value))
      → is_empty (pending_tool_uses ms) ≡ false
      → (repair ms).1 ≡ pop_message ms
  unfolding repair
  repair-some ms h = rw h refl

  pub no_calls :
      (bs : List (ContentBlock Value)) → is_empty (tool_calls bs) ≡ true → use_ids bs ≡ []
  no_calls [] h = refl
  no_calls (tool_use i n v f ∷ bs) h = cc
  no_calls (_ ∷ bs) h = no_calls bs h

  repair-Sound :
      (ms : List (Message Value)) (r : Option Role) (ids : List Text)
      → Sound ms r ids
      → ((r' : Option Role) × Sound (repair ms).1 r' [])
  unfolding repair
  repair-Sound _ _ _ empty = (none, empty)
  repair-Sound _ _ _ (user_turn ms bs r ids s h u a) = (
    some user,
    rw (repair-none _ (ap is_empty (pending-user ms bs))) (user_turn ms bs r ids s h u a),
  )
  repair-Sound _ _ _ (assistant_turn ms bs s h) = elim (Bool-cases (is_empty (tool_calls bs))) [
    | inl closed ↦ (
      some assistant,
      rw (repair-none _ (ap is_empty (pending-assistant ms bs) ∙ closed), ← no_calls bs closed)
          (assistant_turn ms bs s h),
    )
    | inr opened ↦ (
      some user,
      rw
          (
            repair-some _ (ap is_empty (pending-assistant ms bs) ∙ opened),
            pop_message-append ms (assistant_message bs),
          )
          s,
    )
  ]

  Exchange-Sound : (ms : List (Message Value)) → Exchange ms → IsSound ms
  Exchange-Sound _ begin = (none, [], empty)
  Exchange-Sound _ (user_text t ms e p) =
      let (r, ids, s) = Exchange-Sound ms e in
      push_user_text-Sound t ms r ids s (sym (Sound-pending ms r ids s) ∙ ap call_ids p)
  Exchange-Sound _ (answer bs ms e last h) =
      let (r, ids, s) = Exchange-Sound ms e in push_assistant-Sound bs ms r ids s last h
  Exchange-Sound _ (results bs ms e p u a) =
      let (r, ids, s) = Exchange-Sound ms e in push_tool_results-Sound bs ms r ids s p u a
  Exchange-Sound _ (repaired ms e) =
      let (r, ids, s) = Exchange-Sound ms e in
      let (r', s') = repair-Sound ms r ids s in (r', [], s')

  Sound-validate :
      (ms : List (Message Value)) (r : Option Role) → Sound ms r [] → validate ms ≡ ok tt
  unfolding validate
  Sound-validate ms r s = rw (Sound-check ms r [] s) refl

  -- Of every conversation that the operations build: it is valid when no call is pending, and it is valid
  -- in any case once it has been repaired.
  pub Exchange-validate :
      (ms : List (Message Value))
      → Exchange ms
      → (pending_tool_uses ms ≡ [] → validate ms ≡ ok tt) × (validate (repair ms).1 ≡ ok tt)
  Exchange-validate ms e =
      let (r, ids, s) = Exchange-Sound ms e in
      let (r', s') = repair-Sound ms r ids s in
      (
        λ p.
            Sound-validate ms r
              (subst (Sound ms r) (sym (Sound-pending ms r ids s) ∙ ap call_ids p) s),
        Sound-validate (repair ms).1 r' s',
      )
