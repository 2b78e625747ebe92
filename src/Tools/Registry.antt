-- ===== src/Tools/Registry.antt =====
-- The registry of tools: crates/core/src/tools/registry.rs, with `ToolSpec` and `risk_is_mutating` of
-- crates/core/src/tools/mod.rs and the names and schemas of crates/core/src/tools/schema.rs. A JSON value is
-- an item of `Value`; the library that compiles a schema to a validator is a parameter.
pub mod Names
pub mod Order
pub mod Sets
use apprentice_harness.Common.{
  ℕ, Bool, true, false, not, ◌&&◌, ◌||◌, Option, none, some, List, [], ◌∷◌, map, all, any, length,
  leb, last?, ltb, ◌==◌, Text, codes, text_eq, contains_text, if◌then◌else◌,
}
use apprentice_harness.Common.Result.{Result, ok, err, ◌>>=◌, map_err}
use apprentice_harness.Mentor.Types.{ToolDef}
use apprentice_harness.Permissions.Types.{Risk, write, execute}
use apprentice_harness.Tools.Registry.Names.{text_lt}

pub record ToolSpec (Value : Type 0) : Type 0 where
  pub name : Text
  pub description : Text
  pub input_schema : Value
  pub risk : Risk
  pub tags : List Text
  pub timeout_s : Option ℕ

abbrev pub risk_is_mutating : Risk → Bool
risk_is_mutating write = true
risk_is_mutating execute = true
risk_is_mutating _ = false

pub record Entry (Value Validator : Type 0) : Type 0 where
  pub spec : ToolSpec Value
  pub validator : Validator

pub record ToolInfo (Value : Type 0) : Type 0 where
  pub name : Text
  pub description : Text
  pub input_schema : Value
  pub risk : Risk
  pub tags : List Text
  pub timeout_s : Option ℕ
  pub enabled : Bool

pub data RegistryError : Type 0 where
  invalid_name : Text → RegistryError
  duplicate : Text → RegistryError
  invalid_schema : Text → Text → RegistryError

abbrev is_lowercase : ℕ → Bool
is_lowercase c = leb b'a' c && leb c b'z'

abbrev is_digit : ℕ → Bool
is_digit c = leb b'0' c && leb c b'9'

abbrev is_underscore : Option ℕ → Bool
is_underscore none = false
is_underscore (some c) = c == b'_'

unfoldable pub is_valid_name : Text → Bool
is_valid_name [] = false
is_valid_name (c ∷ rest) =
    is_lowercase c
    && leb (length (c ∷ rest)) 64
    && all (λ d. is_lowercase d || is_digit d || d == b'_') rest
    && not (is_underscore (last? (c ∷ rest)))
    && not (contains_text (c ∷ rest) (codes "__"))

-- The map from names to entries, sorted by name.
abbrev pub Registry : Type 0 → Type 0 → Type 0
Registry Value Validator = List (Entry Value Validator)

module _ {Value : Type 0} where
  abbrev pub def_of : ToolInfo Value → ToolDef Value
  def_of t = record {
    name = t.name;
    description = t.description;
    input_schema = t.input_schema;
    cache = false;
  }

  unfoldable pub enabled_defs : List (ToolInfo Value) → List (ToolDef Value)
  enabled_defs [] = []
  enabled_defs (t ∷ ts) = let rest = enabled_defs ts in if t.enabled then def_of t ∷ rest else rest

module _ {Value Validator : Type 0} where
  abbrev pub entry_name : Entry Value Validator → Text
  entry_name e = e.spec.name

  -- `BTreeMap::contains_key`
  unfoldable pub contains : Text → Registry Value Validator → Bool
  contains name [] = false
  contains name (e ∷ es) = text_eq (entry_name e) name || contains name es

  -- `BTreeMap::get`
  unfoldable pub get : Text → Registry Value Validator → Option (Entry Value Validator)
  get name [] = none
  get name (e ∷ es) = let rest = get name es in if text_eq (entry_name e) name then some e else rest

  -- `BTreeMap::insert` of a name that is not there.
  unfoldable pub insert :
      Entry Value Validator → Registry Value Validator → Registry Value Validator
  insert e [] = e ∷ []
  insert e (x ∷ xs) =
      let later = insert e xs in
      if text_lt (entry_name e) (entry_name x) then e ∷ x ∷ xs else x ∷ later

  abbrev pub names : Registry Value Validator → List Text
  names es = map entry_name es

  abbrev pub info : List Text → Entry Value Validator → ToolInfo Value
  info disabled e = record {
    name = e.spec.name;
    description = e.spec.description;
    input_schema = e.spec.input_schema;
    risk = e.spec.risk;
    tags = e.spec.tags;
    timeout_s = e.spec.timeout_s;
    enabled = not (any (λ d. text_eq d e.spec.name) disabled);
  }

  -- `ToolRegistry::list`
  abbrev pub list_tools : List Text → Registry Value Validator → List (ToolInfo Value)
  list_tools disabled es = map (info disabled) es

  unfoldable pub defs : List Text → Registry Value Validator → List (ToolDef Value)
  unfolding enabled_defs
  defs disabled es = enabled_defs (list_tools disabled es)

  module _ (is_object : Value → Bool) (build : Value → Result Text Validator) where
    -- `ToolValidator::compile`; `is_object` is whether the schema has the type `object`.
    unfoldable pub compile : Value → Result Text Validator
    compile schema =
        if is_object schema
        then build schema
        else err (codes "input_schema must have \"type\": \"object\"")

    abbrev pub add_entry :
        ToolSpec Value
        → Validator
        → Registry Value Validator
        → Result RegistryError (Registry Value Validator)
    add_entry spec validator es =
        if contains spec.name es
        then err (duplicate spec.name)
        else ok (insert (record { spec = spec; validator = validator }) es)

    unfoldable pub register :
        ToolSpec Value → Registry Value Validator → Result RegistryError (Registry Value Validator)
    unfolding is_valid_name compile contains insert
    register spec es =
        if is_valid_name spec.name
        then map_err (invalid_schema spec.name) (compile spec.input_schema)
          >>= (λ validator. add_entry spec validator es)
        else err (invalid_name spec.name)

    unfoldable pub register_all :
        List (ToolSpec Value)
        → Registry Value Validator
        → Result RegistryError (Registry Value Validator)
    unfolding register
    register_all [] es = ok es
    register_all (t ∷ ts) es = register t es >>= λ es'. register_all ts es'
