-- ===== src/Mentor/Client/Calls.antt =====
-- About the loop of `complete` of crates/core/src/mentor/anthropic.rs.
use apprentice_harness.Common.{
  ℕ, zero, suc, ◌+◌, ◌≤◌, ◌≡◌, refl, sym, arith, Bool, true, ◌⊎◌, inl, inr, Option, List, [], ◌++◌,
  append_assoc, Bytes, Text, All-append, Bool-cases,
}
use apprentice_harness.Common.Result.{err, Result-cases}
use apprentice_harness.Mentor.Types.{StreamEvent, call_cancelled}
use apprentice_harness.Mentor.Assemble.{Json, ApiErrorBody}
use apprentice_harness.Mentor.Client.{
  Reply, Attempt, Completed, attempt, completed, retried, shows_first, complete_from, complete,
}
use apprentice_harness.Mentor.Client.Quiet.{Quiet}
use apprentice_harness.Mentor.Client.Retries.{attempt-Quiet}

module _ {Value : Type 0} (json : Json Value) (to_error_body : Value → Option ApiErrorBody)
    (lossy : Bytes → Text) where
  abbrev made : (ℕ → Reply) → ℕ → Attempt Value
  made replies m = attempt json to_error_body lossy (replies m)

  -- The call rests on the attempt numbered `m`, or on the cancellation of the wait behind it; what the
  -- attempts from `n` on before it have shown is nothing of the content.
  abbrev pub RestsOn : ℕ → (ℕ → Reply) → (ℕ → Bool) → ℕ → Completed Value → Type 0
  RestsOn n replies cancels m c =
      (before : List StreamEvent) × (n ≤ m)
      × (c.attempts ≡ suc m)
      × Quiet before
      × (c.shown ≡ before ++ (made replies m).shown)
      × ((c.outcome ≡ (completed json to_error_body lossy (made replies m) m).outcome)
          ⊎ ((c.outcome ≡ err call_cancelled) × (cancels m ≡ true)))

  completed-RestsOn :
      (replies : ℕ → Reply) (cancels : ℕ → Bool) (n : ℕ)
      → RestsOn n replies cancels n (completed json to_error_body lossy (made replies n) n)
  completed-RestsOn replies cancels n = elim (Result-cases ((made replies n).outcome)) [
    | inl (e, f) ↦ ([], omega arith, rw f refl, tt, rw f refl, inl refl)
    | inr (u, f) ↦ ([], omega arith, rw f refl, tt, rw f refl, inl refl)
  ]

  shows_first-RestsOn :
      (replies : ℕ → Reply) (cancels : ℕ → Bool) (n m : ℕ) (c : Completed Value)
      → retried (made replies n) ≡ true
      → RestsOn (suc n) replies cancels m c
      → RestsOn n replies cancels m (shows_first (made replies n).shown c)
  shows_first-RestsOn replies cancels n m c h (before, le, e, q, s, o) = (
    (made replies n).shown ++ before,
    omega arith,
    e,
    All-append _ (made replies n).shown before
        (attempt-Quiet json to_error_body lossy (replies n) h) q,
    rw s (sym (append_assoc (made replies n).shown before (made replies m).shown)),
    o,
  )

  complete_from-RestsOn :
      (retries : ℕ) (replies : ℕ → Reply) (cancels : ℕ → Bool) (n : ℕ)
      → (m : ℕ) × (m ≤ n + retries)
        × RestsOn n replies cancels m
            (complete_from json to_error_body lossy retries replies cancels n)
  unfolding complete_from
  complete_from-RestsOn zero replies cancels n =
      (n, omega arith, completed-RestsOn replies cancels n)
  complete_from-RestsOn (suc retries) replies cancels n =
      elim (Bool-cases (retried (made replies n))) [
        | inr h ↦ rw (complete_from, h) (n, omega arith, completed-RestsOn replies cancels n)
        | inl h ↦ elim (Bool-cases (cancels n)) [
          | inl g ↦
              rw (complete_from, h, g)
                (n, omega arith, ([], omega arith, refl, tt, refl, inr (refl, g)))
          | inr g ↦
              let (m, le, rests) = complete_from-RestsOn retries replies cancels (suc n) in
              rw (complete_from, h, g)
                (m, omega arith, shows_first-RestsOn replies cancels n m _ h rests)
        ]
      ]

  -- However the attempts are replied to and the waits cancelled: a call makes at most `max_retries`
  -- attempts after the first; its outcome is that of the last attempt, or `cancelled` when the wait
  -- behind that is cancelled; and what it forwards is what the last attempt forwards, behind events that
  -- are only about usage or the end of the message.
  pub complete_lem :
      (max_retries : ℕ) (replies : ℕ → Reply) (cancels : ℕ → Bool)
      → (m : ℕ) × (m ≤ max_retries)
        × RestsOn 0 replies cancels m
            (complete json to_error_body lossy max_retries replies cancels)
  unfolding complete
  complete_lem max_retries replies cancels =
      let (m, le, rests) = complete_from-RestsOn max_retries replies cancels 0 in
      (m, omega arith, rests)
