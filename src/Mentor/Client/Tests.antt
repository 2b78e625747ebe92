-- ===== src/Mentor/Client/Tests.antt =====
-- Runs of the client and the assembly, and the witnesses of their theorems.
use apprentice_harness.Common.{
  ℕ, zero, suc, ◌≤◌, ◌≡◌, refl, Bool, true, false, Option, none, some, List, [], ◌∷◌, Bytes, Text,
  codes, text_eq, trim, is_whitespace, get_elem?, if◌then◌else◌,
}
use apprentice_harness.Common.Result.{Result, ok, err}
use apprentice_harness.Mentor.Types.{ContentBlock, text, tool_use, Usage, StopReason, tool_use_stop}
use apprentice_harness.Mentor.Sse.{SseEvent}
use apprentice_harness.Mentor.Assemble.{
  Json, ApiErrorBody, Envelope, MessageStart, max_usage, new_assembler,
}
use apprentice_harness.Mentor.Client.{Reply, refused_with, feed_events, response_of, complete}
use apprentice_harness.Mentor.Client.Sent.{
  begins, starts, grows, stops, tells, pings, ends, announces_text, announces_call, no_deltas,
  delta_then, ping_then, no_blocks, block_then, sent,
}
use apprentice_harness.Mentor.Client.Calls.{RestsOn, complete_lem}
use apprentice_harness.Mentor.Client.Received.{feed_events-Sent}

-- Strings, and objects of strings.
data Sample : Type 0 where
  null_sample : Sample
  str_sample : Text → Sample
  object_sample : List (Text × Text) → Sample

abbrev field_of : List (Text × Text) → Text → Option Sample
field_of [] key = none
field_of ((k, v) ∷ fields) key =
    let rest = field_of fields key in if text_eq k key then some (str_sample v) else rest

abbrev sample_get : Sample → Text → Option Sample
sample_get (object_sample fields) key = field_of fields key
sample_get _ key = none

abbrev sample_str : Sample → Option Text
sample_str (str_sample t) = some t
sample_str _ = none

abbrev sample_is_null : Sample → Bool
sample_is_null null_sample = true
sample_is_null _ = false

abbrev object : List (Text × Text) → Sample
object fields = object_sample fields

abbrev first_text : Sample
first_text = object ((codes "type", codes "text") ∷ (codes "text", []) ∷ [])

abbrev more_text : Text → Sample
more_text t = object ((codes "type", codes "text_delta") ∷ (codes "text", t) ∷ [])

abbrev first_call : Sample
first_call =
    object (
      (codes "type", codes "tool_use") ∷ (codes "id", codes "t1") ∷ (codes "name", codes "ls") ∷ [])

abbrev more_input : Text → Sample
more_input t = object ((codes "type", codes "input_json_delta") ∷ (codes "partial_json", t) ∷ [])

abbrev reason : Sample
reason = object ((codes "stop_reason", codes "tool_use") ∷ [])

abbrev tokens : ℕ → ℕ → Usage
tokens i o = record {
  input_tokens = i;
  output_tokens = o;
  cache_read_input_tokens = 0;
  cache_creation_input_tokens = 0;
}

abbrev start_of_message : MessageStart
start_of_message = record { id = codes "m"; model = codes "c"; usage = tokens 10 1 }

-- The payload of an event is its number here.
abbrev envelopes : List (Envelope Sample)
envelopes =
    begins start_of_message
    ∷ starts 0 first_text
    ∷ grows 0 (more_text (codes "Hel"))
    ∷ pings
    ∷ grows 0 (more_text (codes "lo"))
    ∷ stops 0
    ∷ starts 1 first_call
    ∷ grows 1 (more_input (codes "{"))
    ∷ grows 1 (more_input (codes "}"))
    ∷ stops 1
    ∷ tells reason (tokens 0 7)
    ∷ ends
    ∷ []

abbrev or_no_event : Option (Envelope Sample) → Result Text (Envelope Sample)
or_no_event none = err (codes "eof")
or_no_event (some e) = ok e

abbrev envelope_of : Text → Result Text (Envelope Sample)
envelope_of (n ∷ []) = or_no_event (get_elem? envelopes n)
envelope_of _ = err (codes "eof")

abbrev sample_reason : Sample → Option StopReason
sample_reason (str_sample t) = some tool_use_stop
sample_reason _ = none

abbrev sample_json : Json Sample
sample_json = record {
  null = null_sample;
  empty_object = object_sample [];
  is_null = sample_is_null;
  get = sample_get;
  as_str = sample_str;
  read_value = λ t. ok (str_sample t);
  read_envelope = envelope_of;
  to_stop_reason = sample_reason;
  to_stop_details = λ v. none;
  to_block = λ v. none;
}

abbrev no_body : Sample → Option ApiErrorBody
no_body v = none

abbrev ascii : Bytes → Text
ascii bs = bs

abbrev event_number : ℕ → SseEvent
event_number n = record { event = none; data_text = n ∷ [] }

abbrev response_events : List SseEvent
response_events =
    event_number 0
    ∷ event_number 1
    ∷ event_number 2
    ∷ event_number 3
    ∷ event_number 4
    ∷ event_number 5
    ∷ event_number 6
    ∷ event_number 7
    ∷ event_number 8
    ∷ event_number 9
    ∷ event_number 10
    ∷ event_number 11
    ∷ []

abbrev response_blocks : List (ContentBlock Sample)
response_blocks =
    text (codes "Hello") false
    ∷ tool_use (codes "t1") (codes "ls") (str_sample (codes "{}")) false
    ∷ []

feed_events-Sent_example :
    let a = feed_events sample_json no_body ascii response_events new_assembler in
    (a.outcome ≡ ok tt)
    × (a.assembler.finished ≡ true)
    × (response_of sample_json no_body ascii a.assembler ≡ record {
      id = codes "m";
      model = codes "c";
      content = response_blocks;
      stop_reason = tool_use_stop;
      stop_details = none;
      usage = max_usage (tokens 10 1) (tokens 0 7);
    })
unfolding trim is_whitespace
feed_events-Sent_example =
    feed_events-Sent sample_json no_body ascii start_of_message response_blocks tool_use_stop
      (tokens 0 7) response_events
      (sent (event_number 0) (event_number 10) (event_number 11) _ reason refl
        (block_then 0 (event_number 1) first_text
          (more_text (codes "Hel") ∷ more_text (codes "lo") ∷ []) _ _ _ _ _ refl
          (announces_text first_text (more_text (codes "Hel") ∷ more_text (codes "lo") ∷ []) refl
            (refl, (refl, tt)))
          (delta_then (event_number 2) _ _ _ _ refl (
            ping_then (event_number 3) _ _ _ refl
              (delta_then (event_number 4) _ _ _ _ refl (no_deltas (event_number 5) _ refl))))
          (block_then 1 (event_number 6) first_call
            (more_input (codes "{") ∷ more_input (codes "}") ∷ []) _ _ _ _ _ refl
            (announces_call first_call (more_input (codes "{") ∷ more_input (codes "}") ∷ [])
              (str_sample (codes "{}")) refl (refl, (refl, tt)) refl refl)
            (delta_then (event_number 7) _ _ _ _ refl
              (delta_then (event_number 8) _ _ _ _ refl (no_deltas (event_number 9) _ refl)))
            (no_blocks 2 _)))
        refl (str_sample (codes "tool_use"), refl, refl, refl, refl) refl)

-- The first attempt finds the API overloaded, the next ones a bad request.
abbrev overloaded_once : ℕ → Reply
overloaded_once zero = refused_with 529 none []
overloaded_once (suc n) = refused_with 400 none []

complete_lem_example :
    (m : ℕ) × (m ≤ 2)
    × RestsOn sample_json no_body ascii 0 overloaded_once
        (λ n. false)
        m
        (complete sample_json no_body ascii 2 overloaded_once (λ n. false))
complete_lem_example = complete_lem sample_json no_body ascii 2 overloaded_once (λ n. false)
