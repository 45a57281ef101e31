-- ===== src/Memory/Schema.antt =====
-- manipmemory/schema.go, utils.go and options.go: the schema of the database. A field of an object
-- that reflection reads is a text, a Boolean or another value, with what its `String` gives; the
-- indexes of memdb are data. A key ends in the character of code 0.
pub mod Keys
use Prim.Native.Char.{nul}
use manipulate.Prelude.{
  ℕ, String, ◌<>◌, Bool, true, false, Option, none, some, List, [], ◌∷◌, if◌then◌else◌, ◌==◌,
}
use manipulate.Prelude.Dict.{Dict, insert}
use manipulate.Prelude.Decimal.{decimal}
use manipulate.Prelude.Text.{to_lower}
use manipulate.Errors.{Error, foreign, Result, ok, err, panic, ◌>>=◌}
use manipulate.Filter.{Value, null, text, boolean, number, duration, object_id}

pub data IndexType : Type 0 where
  string_index slice_index map_index boolean_index string_based_index : IndexType
  other_index : ℕ → IndexType

pub record Index : Type 0 where
  pub name : String
  pub kind : IndexType
  pub unique : Bool
  pub attribute : String

pub record IdentitySchema : Type 0 where
  pub category : String
  pub indexes : List Index

-- What an index is made by: those of memdb for texts, slices and maps, the conditional one with
-- `boolIndex`, and the one of this package.
pub data Indexer : Type 0 where
  string_field slice_field map_field conditional : String → Indexer
  string_based : String → Bool → Indexer

pub record IndexSchema : Type 0 where
  pub name : String
  pub unique : Bool
  pub indexer : Indexer
  pub allow_missing : Bool

pub record TableSchema : Type 0 where
  pub name : String
  pub indexes : Dict IndexSchema

abbrev indexer_of : Index → Result Indexer
indexer_of index = by index.kind
  where
    by : IndexType → Result Indexer
    by slice_index = ok (slice_field index.attribute)
    by map_index = ok (map_field index.attribute)
    by string_index = ok (string_field index.attribute)
    by boolean_index = ok (conditional index.attribute)
    by string_based_index = ok (string_based index.attribute false)
    by (other_index n) = err (foreign ("invalid index type: " <> decimal n))

-- The loop over the indexes: a later index of the same name replaces an earlier one.
unfoldable pub create_indexes : List Index → Dict IndexSchema → Result (Dict IndexSchema)
unfolding decimal insert
create_indexes [] made = ok made
create_indexes (index ∷ indexes) made = do
  indexer ← indexer_of index
  create_indexes indexes (
      insert index.name
        (record {
          name = index.name;
          unique = index.unique;
          indexer = indexer;
          allow_missing = true;
        })
        made)

unfoldable pub create_schema : IdentitySchema → Result TableSchema
unfolding create_indexes
create_schema c = do
  indexes ← create_indexes c.indexes []
  ok (record { name = c.category; indexes = indexes })

-- The loop of `New`, over the configuration as it is walked.
unfoldable pub create_tables : Dict IdentitySchema → Dict TableSchema → Result (Dict TableSchema)
unfolding create_schema insert
create_tables [] tables = ok tables
create_tables ((table, cfg) ∷ rest) tables = do
  index ← create_schema cfg
  create_tables rest (insert table index tables)

-- The option OptionNoCopy, of the configuration that has nothing else.
abbrev MemoryOption : Type 0
MemoryOption = Bool → Bool

unfoldable pub option_no_copy : Bool → MemoryOption
option_no_copy no_copy cfg = no_copy

unfoldable pub configured : List MemoryOption → Bool → Bool
configured [] cfg = cfg
configured (option ∷ options) cfg = configured options (option cfg)

-- A field: a text, a Boolean, or another value.
pub data FieldValue : Type 0 where
  text_field : String → FieldValue
  boolean_field : Bool → FieldValue
  other_field : String → FieldValue

abbrev string_of : FieldValue → String
string_of (text_field s) = s
string_of (boolean_field b) = "<bool Value>"
string_of (other_field s) = s

abbrev pub terminated : Bool → String → String
terminated lowercase s = (if lowercase then to_lower s else s) <> String.◌∷◌ nul String.[]

abbrev pub key_of : Bool → String → Option String
key_of lowercase s = if s == "" then none else some (terminated lowercase s)

-- `field` reads a field of an object, and `go_syntax` prints an object.
module _ {Object : Type 0} (field : String → Object → Option FieldValue)
    (go_syntax : Object → String) where
  abbrev invalid : String → Object → Error
  invalid name o = foreign ("field '" <> name <> "' for " <> go_syntax o <> " is invalid")

  -- FromObject of stringBasedFieldIndex: no key for an empty text.
  unfoldable pub from_object : String → Bool → Object → Result (Option String)
  unfolding to_lower
  from_object name lowercase o = elim (field name o) [
    | none ↦ err (invalid name o)
    | some v ↦ ok (key_of lowercase (string_of v))
  ]

  unfoldable pub bool_index : Object → String → Result Bool
  bool_index o name = elim (field name o) [
    | none ↦ err (invalid name o)
    | some (boolean_field b) ↦ ok b
    | some _ ↦ panic
  ]

-- FromArgs of stringBasedFieldIndex: the key of the only argument, which is a text. An object
-- identifier of bson is one. A nil argument is a nil type that is read.
unfoldable pub from_args : (Value → String) → Bool → List Value → Result String
unfolding to_lower
from_args go_syntax lowercase (null ∷ []) = panic
from_args go_syntax lowercase (text s ∷ []) = ok (terminated lowercase s)
from_args go_syntax lowercase (object_id s ∷ []) = ok (terminated lowercase s)
from_args go_syntax lowercase (v ∷ []) =
    err (foreign ("argument must be a string: " <> go_syntax v))
from_args go_syntax lowercase _ = err (foreign "must provide only a single argument")
