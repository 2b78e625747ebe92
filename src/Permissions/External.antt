-- ===== src/Permissions/External.antt =====
-- What the permission rules take from the crates globset, regex, toml and toml_edit, and from the
-- file system. A compiled matcher is determined by its pattern, so the model keeps the pattern.
use apprentice_harness.Common.{
  ℕ, ◌+◌, Bool, Option, none, some, List, Text, text_eq, if◌then◌else◌, length,
}
use apprentice_harness.Common.Result.{Result, ok, err}
use apprentice_harness.Permissions.Types.{RuleSpec}

-- `FileModel`: the values that toml's deserialiser gives, each with the byte offset of its span.
pub record FileModel : Type 0 where
  pub default : Option (Text × ℕ)
  pub rule : List (RuleSpec × ℕ)

-- A `toml::de::Error`: the start of its span, and its message.
pub record TomlError : Type 0 where
  pub span : Option ℕ
  pub message : Text

-- A value that `append_rule` puts into the new table.
pub data Item : Type 0 where
  string : Text → Item
  boolean : Bool → Item

-- The table that `append_rule` builds: the lines of its comment, its keys, and the keys of `match`.
pub record RuleTable : Type 0 where
  pub prefix : Text
  pub fields : List (Text × Item)
  pub match : List (Text × Item)

-- What reading a file gives.
pub data FileRead : Type 0 where
  not_found : FileRead
  failed : Text → FileRead
  content : Text → FileRead

-- The files, with their (mtime, length) stamps, and the time that the next write is stamped with.
pub record Files : Type 0 where
  pub read : Text → FileRead
  pub stamp : Text → Option (ℕ × ℕ)
  pub now : ℕ

pub record External : Type 0 where
  -- `GlobBuilder::new(p).literal_separator(true).build()`: the message of a bad pattern.
  pub glob_error : Text → Option Text
  pub glob_is_match : Text → Text → Bool
  -- `Regex::new(r)`: the message of a bad expression.
  pub regex_error : Text → Option Text
  pub regex_is_match : Text → Text → Bool
  pub regex_escape : Text → Text
  -- `toml::from_str` at `FileModel`.
  pub toml_from_str : Text → Result TomlError FileModel
  -- `toml_edit`: parse the text, push a table to `rule`, print it.
  pub toml_push : Text → RuleTable → Result TomlError Text
  -- Why a write of this text to this path fails, if it does.
  pub write_error : Text → Text → Option Text

-- `write_atomic` of crates/core/src/tools/file/atomic.rs as its callers see it: the new text is
-- there whole, or nothing has changed.
unfoldable pub write_atomic : External → Text → Text → Files → Result Text Files
write_atomic x path text files = elim (x.write_error path text) [
  | some e ↦ err e
  | none ↦ ok (record {
    read = λ p. if text_eq p path then content text else files.read p;
    stamp = λ p. if text_eq p path then some (files.now, length text) else files.stamp p;
    now = files.now + 1;
  })
]
