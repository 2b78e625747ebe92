-- ===== src/Tools/Reporter.antt =====
-- The progress reporter: `Reporter` of crates/core/src/tools/shell/capture.rs. What the channel answers
-- to each `try_send` is a list of answers, in order; behind its end the channel is full.
pub mod Accounting
use apprentice_harness.Common.{
  ℕ, suc, ◌+◌, Bool, true, false, not, ◌&&◌, ◌||◌, List, [], ◌∷◌, ◌++◌, Text, length, is_empty,
  last?, ltb, Option, none, some, if◌then◌else◌,
}
use apprentice_harness.Tools.Capture.{is_line_end, count_newlines}
use apprentice_harness.Tools.Transcript.{ProgressStream, stdout, stderr}

pub data SendAnswer : Type 0 where
  sent : SendAnswer
  full : SendAnswer
  closed : SendAnswer

-- What was delivered: a chunk, or the marker with a number of lines.
pub data Progress : Type 0 where
  chunk : ProgressStream → Text → Progress
  not_shown : ProgressStream → ℕ → Progress

pub record Reporter : Type 0 where
  pub pending : List (ProgressStream × Text)
  pub dropped_lines : ℕ
  pub is_closed : Bool
  -- The channel's own state: what it has taken, the latest first.
  pub delivered : List Progress

unfoldable pub count_lines : Text → ℕ
count_lines t =
    count_newlines t + (if not (is_empty t) && not (is_line_end (last? t)) then 1 else 0)

abbrev front_stream : List (ProgressStream × Text) → ProgressStream
front_stream [] = stdout
front_stream ((s, t) ∷ pending) = s

abbrev pub close_reporter : Reporter → Reporter
close_reporter r = record r { pending = []; dropped_lines = 0; is_closed = true }

abbrev pub deliver_front : List (ProgressStream × Text) → Reporter → Reporter
deliver_front [] r = r
deliver_front ((s, t) ∷ rest) r = record r { pending = rest; delivered = chunk s t ∷ r.delivered }

-- What a `try_send` that succeeds delivers: the marker first, when lines were dropped.
abbrev pub deliver : Reporter → Reporter
deliver r =
    if ltb 0 r.dropped_lines
    then record r {
      dropped_lines = 0;
      delivered = not_shown (front_stream r.pending) r.dropped_lines ∷ r.delivered;
    }
    else deliver_front r.pending r

abbrev pub on_answer : SendAnswer → Reporter → Reporter × Bool
on_answer sent r = (deliver r, true)
on_answer full r = (r, false)
on_answer closed r = (close_reporter r, true)

-- A round of the loop of `Reporter::flush`, and whether another one follows.
unfoldable pub flush_round : SendAnswer → Reporter → Reporter × Bool
flush_round a r =
    if r.is_closed || (not (ltb 0 r.dropped_lines) && is_empty r.pending)
    then (r, false)
    else on_answer a r

unfoldable pub flush : List SendAnswer → Reporter → Reporter
flush [] r = r
flush (a ∷ answers) r =
    let (next, goes_on) = flush_round a r in
    let rest = flush answers next in if goes_on then rest else next

abbrev pending_max : ℕ
pending_max = 8

abbrev pub pending_lines : List (ProgressStream × Text) → ℕ
pending_lines [] = 0
pending_lines ((s, t) ∷ pending) = count_lines t + pending_lines pending

-- The oldest chunk is dropped when too many are held back.
abbrev pub drop_oldest : List (ProgressStream × Text) → Reporter → Reporter
drop_oldest [] r = r
drop_oldest ((s, t) ∷ rest) r =
    if ltb pending_max (length r.pending)
    then record r { pending = rest; dropped_lines = r.dropped_lines + count_lines t }
    else r

unfoldable pub push_report : ProgressStream → Text → List SendAnswer → Reporter → Reporter
push_report s t answers r =
    let queued : Reporter = record r { pending = r.pending ++ (s, t) ∷ [] } in
    if r.is_closed then r else flush answers (drop_oldest queued.pending queued)

-- `Reporter::dropped_lines`
unfoldable pub undelivered_lines : Reporter → ℕ
undelivered_lines r = r.dropped_lines + pending_lines r.pending
