-- ===== src/Runtime/Ledger.antt =====
-- The usage of a conversation: the totals of `Conversation` in crates/core/src/runtime/conversation.rs.
use apprentice_harness.Common.{ℕ, ◌+◌, ◌%◌, ◌^◌, Bool, true, false, Option, none, some}
use apprentice_harness.Mentor.Types.{Usage, no_usage}

-- The numbers of tokens and calls have 64 bits; a cost, never negative, is in USD × 1e6.
pub record Ledger : Type 0 where
  pub last_usage : Option Usage
  pub totals : Usage
  pub cost_micros : Option ℕ
  pub priced : Bool
  pub calls : ℕ

-- The fields as `Conversation::new` sets them.
abbrev pub new_ledger : Ledger
new_ledger = record {
  last_usage = none;
  totals = no_usage;
  cost_micros = some 0;
  priced = true;
  calls = 0;
}

abbrev pub wrap : ℕ → ℕ
wrap n = n % 2 ^ 64

abbrev pub add_usage : Usage → Usage → Usage
add_usage t u = record {
  input_tokens = wrap (t.input_tokens + u.input_tokens);
  output_tokens = wrap (t.output_tokens + u.output_tokens);
  cache_read_input_tokens = wrap (t.cache_read_input_tokens + u.cache_read_input_tokens);
  cache_creation_input_tokens =
      wrap (t.cache_creation_input_tokens + u.cache_creation_input_tokens);
}

abbrev or_zero : Option ℕ → ℕ
or_zero none = 0
or_zero (some c) = c

-- The cost and whether every call had one, after a call.
abbrev pub add_cost : Bool → Option ℕ → Option ℕ → Option ℕ × Bool
add_cost true total (some c) = (some (or_zero total + c), true)
add_cost priced total cost = (none, false)

unfoldable pub record_usage : Usage → Option ℕ → Ledger → Ledger
record_usage u cost l =
    let (total, priced) = add_cost l.priced l.cost_micros cost in
    record {
      last_usage = some u;
      totals = add_usage l.totals u;
      cost_micros = total;
      priced = priced;
      calls = wrap (l.calls + 1);
    }

abbrev is_some : Option ℕ → Bool
is_some none = false
is_some (some c) = true

abbrev pub seed_totals : Usage → Option ℕ → ℕ → Ledger → Ledger
seed_totals totals cost calls l = record l {
  totals = totals;
  cost_micros = cost;
  priced = is_some cost;
  calls = calls;
}

-- The tokens of the context that the next call starts from.
abbrev tokens_of : Option Usage → Option ℕ
tokens_of none = none
tokens_of (some u) =
    some (wrap (wrap (u.input_tokens + u.cache_read_input_tokens) + u.cache_creation_input_tokens))

abbrev pub context_tokens : Ledger → Option ℕ
context_tokens l = tokens_of l.last_usage
