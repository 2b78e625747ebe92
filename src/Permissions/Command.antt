-- ===== src/Permissions/Command.antt =====
-- `command_has_prefix` and `is_chain` of crates/core/src/permissions/rules.rs, with what a prefix
-- rule can let through.
use apprentice_harness.Common.{
  ℕ, ◌≡◌, ◌≢◌, refl, ◌↔◌, inl, inr, Bool, true, false, ◌||◌, Option, none, some, [], ◌∷◌, ◌++◌,
  arith, Text, codes, ◌==◌, any, is_empty, is_whitespace, trim, strip_prefix, contains_text,
  if◌then◌else◌, strip_prefix_sound, strip_prefix-append, Bool-cases, or_false,
}

abbrev pub is_chain_char : ℕ → Bool
is_chain_char c = c == b'\n' || c == b';' || c == b'&' || c == b'|' || c == b'`'

-- More than one command in one string.
unfoldable pub is_chain : Text → Bool
unfolding contains_text
is_chain command = any is_chain_char command || contains_text command (codes "$(")

abbrev starts_with_whitespace : Text → Bool
starts_with_whitespace [] = false
starts_with_whitespace (c ∷ s) = is_whitespace c

abbrev rest_is_word_end : Option Text → Bool
rest_is_word_end none = false
rest_is_word_end (some rest) = is_empty rest || starts_with_whitespace rest

unfoldable pub command_has_prefix : Text → Text → Bool
command_has_prefix command prefix =
    let command = trim command in
    let prefix = trim prefix in
    if is_empty prefix || is_chain command
    then false
    else rest_is_word_end (strip_prefix prefix command)

-- A text that begins no word: it is empty, or a white space stands first.
pub data EndsWord : Text → Type 0 where
  at_end : EndsWord []
  at_space : {c : ℕ} {s : Text} → is_whitespace c ≡ true → EndsWord (c ∷ s)

-- What a prefix condition is meant to accept: the whole command or a leading run of its words, and
-- never a chain.
pub record IsLeadingRun (command prefix : Text) : Type 0 where
  pub prefix_nonempty : trim prefix ≢ []
  pub single : is_chain (trim command) ≡ false
  pub rest : Text
  pub split : trim command ≡ trim prefix ++ rest
  pub word_end : EndsWord rest

tests :
    (command_has_prefix (codes "  cargo test --all ") (codes "cargo test ") ≡ true)
    × (command_has_prefix (codes "cargo testing") (codes "cargo test") ≡ false)
    × (command_has_prefix (codes "cargo test; rm -rf .") (codes "cargo test") ≡ false)
    × (command_has_prefix (codes "cargo  test") (codes "cargo test") ≡ false)
    × (command_has_prefix (codes "echo $(id)") (codes "echo") ≡ false)
unfolding command_has_prefix trim is_chain strip_prefix is_whitespace
tests = (refl, refl, refl, refl, refl)

rest_is_word_end_sound :
    (o : Option Text) → rest_is_word_end o ≡ true → (rest : Text) × (o ≡ some rest) × EndsWord rest
rest_is_word_end_sound none h = cc
rest_is_word_end_sound (some []) h = ([], refl, at_end)
rest_is_word_end_sound (some (c ∷ s)) h = (c ∷ s, refl, at_space h)

word_end_complete : {rest : Text} → EndsWord rest → rest_is_word_end (some rest) ≡ true
word_end_complete at_end = refl
word_end_complete (at_space h) = h

is_empty-false : (s : Text) → is_empty s ≡ false → s ≢ []
is_empty-false [] h = cc
is_empty-false (c ∷ s) h = λ e. cc

is_empty_of_ne : (s : Text) → s ≢ [] → is_empty s ≡ false
is_empty_of_ne [] h = absurd (h refl)
is_empty_of_ne (c ∷ s) h = refl

command_has_prefix_sound :
    (command prefix : Text) → command_has_prefix command prefix ≡ true → IsLeadingRun command prefix
unfolding command_has_prefix
command_has_prefix_sound command prefix h =
    elim (Bool-cases (is_empty (trim prefix) || is_chain (trim command))) [
      | inl bad ↦ absurd (ground arith)
      | inr good ↦
          let (nonempty, single) = or_false _ _ good in
          let (rest, found, ends) =
            rest_is_word_end_sound (strip_prefix (trim prefix) (trim command)) (rw good at h) in
          record {
            prefix_nonempty = is_empty-false _ nonempty;
            single = single;
            rest = rest;
            split = strip_prefix_sound _ _ rest found;
            word_end = ends;
          }
    ]

command_has_prefix_complete :
    {command prefix : Text} → IsLeadingRun command prefix → command_has_prefix command prefix ≡ true
unfolding command_has_prefix
command_has_prefix_complete {command} {prefix} r =
    rw (is_empty_of_ne _ r.prefix_nonempty, r.single, r.split, strip_prefix-append)
      (word_end_complete r.word_end)

-- A prefix condition holds of a command exactly when the trimmed prefix is not empty, the trimmed
-- command is no chain, and the command is the prefix followed by nothing or by a white space.
pub command_has_prefix_iff :
    (command prefix : Text)
    → (command_has_prefix command prefix ≡ true) ↔ IsLeadingRun command prefix
command_has_prefix_iff command prefix =
    (command_has_prefix_sound command prefix, command_has_prefix_complete)
