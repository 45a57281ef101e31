-- ===== src/Mongo/Ordering.antt =====
-- manipmongo/utils.go: `applyOrdering`, `makeFieldsSelector`, `prepareNextFilter` and the
-- conversions of the consistencies. A specification is the function from an attribute to the
-- `BSONFieldName` of its specification.
use manipulate.Prelude.{
  ℕ, String, ◌<>◌, Bool, true, false, ◌||◌, Option, none, some, List, [], ◌∷◌, if◌then◌else◌, ◌==◌,
}
use manipulate.Prelude.Text.{to_lower, has_prefix, trim_prefix}
use manipulate.Prelude.Dict.{Dict, insert}
use manipulate.Context.{ReadConsistency, WriteConsistency}
use manipulate.Errors.{Result, ok, err}
use manipulate.Filter.{null}
use manipulate.ObjectId.{parse}
use manipulate.Mongo.Bson.{Bson, plain, Document, end, field, test}
use manipulate.Mongo.Compiler.{identified}
use manipulate.Mongo.Failures.{Failure, Driver, handle_query_error}

-- The stored name, with the `-` put back if it was trimmed.
abbrev stored_order : String → String → String → String
stored_order f trimmed name = if name == "" then f else if trimmed == f then name else "-" <> name

abbrev id_order : String → String
id_order f =
    if f == "ID" || f == "id" then "_id" else if f == "-ID" || f == "-id" then "-_id" else f

unfoldable pub order_name : Option (String → String) → String → String
unfolding trim_prefix
order_name none f = id_order f
order_name (some field_name) f =
    stored_order f (trim_prefix b'-' f) (field_name (trim_prefix b'-' f))

unfoldable pub apply_ordering : List String → Option (String → String) → List String
unfolding order_name to_lower
apply_ordering [] spec = []
apply_ordering (f ∷ order) spec =
    let rest = apply_ordering order spec in
    if f == "" then rest else to_lower (order_name spec f) ∷ rest

abbrev or_given : String → String → String
or_given f name = if name == "" then f else name

abbrev selected_name : Option (String → String) → String → String
selected_name none f = if f == "id" then "_id" else f
selected_name (some field_name) f = or_given f (field_name f)

-- The loop over the fields, which fills the map `sels`.
unfoldable pub select_fields : List String → Option (String → String) → Dict ℕ → Dict ℕ
unfolding to_lower trim_prefix insert
select_fields [] spec sels = sels
select_fields (f ∷ fields) spec sels =
    if f == ""
    then select_fields fields spec sels
    else select_fields fields spec
        (insert (selected_name spec (to_lower (trim_prefix b'-' f))) 1 sels)

abbrev unless_empty : Dict ℕ → Option (Dict ℕ)
unless_empty [] = none
unless_empty (s ∷ sels) = some (s ∷ sels)

unfoldable pub make_fields_selector : List String → Option (String → String) → Option (Dict ℕ)
unfolding select_fields
make_fields_selector fields spec = unless_empty (select_fields fields spec [])

-- The modes of mgo; -1 is `none`.
pub data Mode : Type 0 where
  eventual monotonic nearest strong secondary_preferred : Mode

unfoldable pub convert_read_consistency : ReadConsistency → Option Mode
convert_read_consistency ReadConsistency.eventual = some eventual
convert_read_consistency ReadConsistency.monotonic = some monotonic
convert_read_consistency ReadConsistency.nearest = some nearest
convert_read_consistency ReadConsistency.strong = some strong
convert_read_consistency ReadConsistency.weakest = some secondary_preferred
convert_read_consistency _ = none

-- mgo.Safe: its WMode and J.
pub record Safe : Type 0 where
  pub w_mode : String
  pub j : Bool

unfoldable pub convert_write_consistency : WriteConsistency → Option Safe
convert_write_consistency WriteConsistency.none = none
convert_write_consistency WriteConsistency.strong = some (record { w_mode = "majority"; j = false })
convert_write_consistency WriteConsistency.strongest =
    some (record { w_mode = "majority"; j = true })
convert_write_consistency _ = some (record { w_mode = ""; j = false })

-- doc[key], where a missing key is nil.
unfoldable pub value_at : String → Document → Bson
value_at key end = plain null
value_at key (field k b d) = if k == key then b else value_at key d

-- What `collection.FindId(id).Select(bson.M{field: 1}).One(&doc)` answers.
pub data Found : Type 0 where
  found : Document → Found
  missed : Failure → Found

module _ (driver : Driver) (find_id : Bson → String → Found) where
  abbrev next_test : String → String → Found → Result Document
  next_test ordering_field comp (missed f) = err (handle_query_error driver f)
  next_test ordering_field comp (found d) =
      ok (test ordering_field comp (value_at ordering_field d))

  unfoldable pub prepare_next_filter : String → String → Result Document
  unfolding handle_query_error value_at has_prefix trim_prefix
  prepare_next_filter ordering_field next =
      let id = identified true next (parse next) in
      let last = trim_prefix b'-' ordering_field in
      if ordering_field == ""
      then ok (test "_id" "$gt" id)
      else if has_prefix b'-' ordering_field
      then next_test last "$lt" (find_id id last)
      else next_test ordering_field "$gt" (find_id id ordering_field)
