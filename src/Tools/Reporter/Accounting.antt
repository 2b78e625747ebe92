-- ===== src/Tools/Reporter/Accounting.antt =====
-- About the lines that `Reporter` of crates/core/src/tools/shell/capture.rs counts.
use apprentice_harness.Common.{
  ℕ, ◌+◌, ◌≤◌, ◌≡◌, refl, ap, arith, Bool, false, not, ◌&&◌, ◌||◌, List, [], ◌∷◌, ◌++◌, Text,
  length, length-append, is_empty, ltb, Bool-cases, inl, inr,
}
use apprentice_harness.Tools.Transcript.{ProgressStream}
use apprentice_harness.Tools.Reporter.{
  SendAnswer, sent, full, closed, Progress, chunk, not_shown, Reporter, count_lines, deliver_front,
  deliver, on_answer, flush_round, flush, pending_lines, drop_oldest, push_report,
  undelivered_lines,
}

-- The lines that the consumer was shown or told of.
abbrev pub shown_lines : List Progress → ℕ
shown_lines [] = 0
shown_lines (chunk s t ∷ ps) = count_lines t + shown_lines ps
shown_lines (not_shown s n ∷ ps) = n + shown_lines ps

-- After a number of lines: they are all accounted for while the channel is open, and at most eight
-- chunks are held back.
abbrev Accounts : ℕ → Reporter → Type 0
Accounts n r =
    (r.is_closed ≡ false
      → shown_lines r.delivered + (r.dropped_lines + pending_lines r.pending) ≡ n)
    × (length r.pending ≤ 8)

deliver_front-Accounts :
    (n : ℕ) (p : List (ProgressStream × Text)) (r : Reporter)
    → r.pending ≡ p
    → Accounts n r
    → Accounts n (deliver_front p r)
deliver_front-Accounts n [] r e h = h
deliver_front-Accounts n ((s, t) ∷ rest) r e (lines, held) =
    (λ k. omega (arith, lines k, ap pending_lines e), omega (arith, held, ap length e))

deliver-Accounts : (n : ℕ) (r : Reporter) → Accounts n r → Accounts n (deliver r)
deliver-Accounts n r (lines, held) = elim (Bool-cases (ltb 0 r.dropped_lines)) [
  | inl some_dropped ↦ rw some_dropped ((λ k. omega (arith, lines k)), held)
  | inr none_dropped ↦ rw none_dropped (deliver_front-Accounts n r.pending r refl (lines, held))
]

on_answer-Accounts :
    (n : ℕ) (a : SendAnswer) (r : Reporter) → Accounts n r → Accounts n (on_answer a r).0
on_answer-Accounts n sent r h = deliver-Accounts n r h
on_answer-Accounts n full r h = h
on_answer-Accounts n closed r h = (λ k. cc, omega arith)

flush_round-Accounts :
    (n : ℕ) (a : SendAnswer) (r : Reporter) → Accounts n r → Accounts n (flush_round a r).0
unfolding flush_round
flush_round-Accounts n a r h =
    elim (Bool-cases (r.is_closed || (not (ltb 0 r.dropped_lines) && is_empty r.pending))) [
      | inl stops ↦ rw stops h
      | inr sends ↦ rw sends (on_answer-Accounts n a r h)
    ]

flush-Accounts :
    (n : ℕ) (answers : List SendAnswer) (r : Reporter) → Accounts n r → Accounts n (flush answers r)
unfolding flush
flush-Accounts n [] r h = h
flush-Accounts n (a ∷ answers) r h = elim (Bool-cases (flush_round a r).1) [
  | inl more ↦ rw more (flush-Accounts n answers (flush_round a r).0 (flush_round-Accounts n a r h))
  | inr stop ↦ rw stop (flush_round-Accounts n a r h)
]

pending_lines-append :
    (p : List (ProgressStream × Text)) (s : ProgressStream) (t : Text)
    → pending_lines (p ++ (s, t) ∷ []) ≡ pending_lines p + count_lines t
pending_lines-append [] s t = omega arith
pending_lines-append ((r, u) ∷ p) s t = omega (arith, pending_lines-append p s t)

drop_oldest-Accounts :
    (n : ℕ) (p : List (ProgressStream × Text)) (r : Reporter)
    → r.pending ≡ p
    → (r.is_closed ≡ false
        → shown_lines r.delivered + (r.dropped_lines + pending_lines r.pending) ≡ n)
    → length r.pending ≤ 9
    → Accounts n (drop_oldest p r)
drop_oldest-Accounts n [] r e lines held = (lines, omega (arith, ap length e))
drop_oldest-Accounts n ((s, t) ∷ rest) r e lines held =
    elim (Bool-cases (ltb 8 (length r.pending))) [
      | inl too_many ↦
          rw too_many
            ((λ k. omega (arith, lines k, ap pending_lines e)), omega (arith, held, ap length e))
      | inr fits ↦ rw fits (lines, ground (arith, fits))
    ]

push_report-Accounts :
    (n : ℕ) (s : ProgressStream) (t : Text) (answers : List SendAnswer) (r : Reporter)
    → Accounts n r
    → Accounts (n + count_lines t) (push_report s t answers r)
unfolding push_report
push_report-Accounts n s t answers r (lines, held) = elim (Bool-cases r.is_closed) [
  | inl over ↦ rw over ((λ k. cc), held)
  | inr live ↦ rw live (
      flush-Accounts (n + count_lines t) answers _ (
        drop_oldest-Accounts (n + count_lines t) (r.pending ++ (s, t) ∷ []) _ refl
          (λ k. omega (arith, lines live, pending_lines-append r.pending s t))
          (omega (arith, held, length-append r.pending ((s, t) ∷ [])))))
]

-- The pushes of a run, each with what the channel answers during its flush.
abbrev pub Push : Type 0
Push = (ProgressStream × Text) × List SendAnswer

unfoldable pub run_reporter : List Push → Reporter → Reporter
run_reporter [] r = r
run_reporter (((s, t), answers) ∷ pushes) r = run_reporter pushes (push_report s t answers r)

abbrev pub pushed_lines : List Push → ℕ
pushed_lines [] = 0
pushed_lines (((s, t), answers) ∷ pushes) = count_lines t + pushed_lines pushes

abbrev pub new_reporter : Bool → Reporter
new_reporter is_closed = record {
  pending = [];
  dropped_lines = 0;
  is_closed = is_closed;
  delivered = [];
}

run_reporter-Accounts :
    (n : ℕ) (pushes : List Push) (r : Reporter)
    → Accounts n r
    → Accounts (n + pushed_lines pushes) (run_reporter pushes r)
unfolding run_reporter
run_reporter-Accounts n [] r (lines, held) = ((λ k. omega (arith, lines k)), held)
run_reporter-Accounts n (((s, t), answers) ∷ pushes) r h =
    let same : n + count_lines t + pushed_lines pushes ≡ n + (count_lines t + pushed_lines pushes) =
      omega arith in
    rw same at (
      run_reporter-Accounts (n + count_lines t) pushes (push_report s t answers r)
        (push_report-Accounts n s t answers r h))

-- Whatever the channel answers: while it is open, the lines shown or reported as not shown and those that
-- `dropped_lines` counts are all the lines pushed; and at most eight chunks are held back at any time.
pub run_reporter_lem :
    (is_closed : Bool) (pushes : List Push)
    → let r = run_reporter pushes (new_reporter is_closed) in
      (r.is_closed ≡ false → shown_lines r.delivered + undelivered_lines r ≡ pushed_lines pushes)
      × (length r.pending ≤ 8)
unfolding undelivered_lines
run_reporter_lem is_closed pushes =
    let start : Accounts 0 (new_reporter is_closed) = ((λ k. omega arith), omega arith) in
    let (lines, held) = run_reporter-Accounts 0 pushes (new_reporter is_closed) start in
    ((λ k. omega (arith, lines k)), held)
