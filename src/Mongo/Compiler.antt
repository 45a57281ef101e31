-- ===== src/Mongo/Compiler.antt =====
-- manipmongo/compiler.go: `CompileFilter`. `now` is what the clock says. The option
-- CompilerOptionTranslateKeysFromSpec is the function from an attribute to the `BSONFieldName` of
-- its specification.
pub mod Meaning
pub mod Correct
use manipulate.Prelude.{
  ℕ, ◌+◌, String, ◌<>◌, Bool, true, false, Option, none, some, List, [], ◌∷◌, if◌then◌else◌, ◌==◌,
}
use manipulate.Prelude.Text.{to_lower, split_dot}
use manipulate.Errors.{Result, ok, err, panic, ◌>>=◌}
use manipulate.ObjectId.{parse}
use manipulate.Filter.{
  Value, null, text, boolean, duration, Comparator, equal, not_equal, greater, greater_or_equal,
  lesser, lesser_or_equal, contained_in, not_contained_in, contains, not_contains, matches, exists,
  not_exists, Filter, end, clause, compare, Clause, and_filters, or_filters, other_operator,
  Filters, nil, cons,
}
use manipulate.Mongo.Bson
use manipulate.Mongo.Bson.{
  Bson, plain, instant, oid, array, document, documents, Array, no_item, item, Document, Documents,
  no_document, both, single, test, append,
}

abbrev id_key : String → String
id_key k = if k == "id" then "_id" else k

abbrev lower_path : String → Option (String × String) → String
lower_path key none = to_lower key
lower_path key (some (head, rest)) = to_lower head <> "." <> rest

unfoldable pub massage_key : String → String
unfolding to_lower split_dot
massage_key key = id_key (lower_path key (split_dot key))

-- A text under the key `_id` that is an object identifier becomes one.
abbrev pub identified : Bool → String → Option (List ℕ) → Bson
identified true v (some bytes) = oid bytes
identified _ v _ = plain (text v)

module _ (now : ℕ) (translate : Option (String → String)) where
  -- A nil value has no type, whose name is asked for.
  unfoldable pub massage_value : String → Value → Result Bson
  massage_value k null = panic
  massage_value k (duration d) = ok (instant (now + d))
  massage_value k (text v) = ok (identified (k == "_id") v (parse v))
  massage_value k v = ok (plain v)

  unfoldable pub massage_each : String → List Value → Result Array
  unfolding massage_value
  massage_each k [] = ok no_item
  massage_each k (v ∷ values) = do
    b ← massage_value k v
    rest ← massage_each k values
    ok (item b rest)

  unfoldable pub massage_values : String → List Value → Result Array
  unfolding massage_each massage_key
  massage_values key values = massage_each (massage_key key) values

  abbrev or_key : String → String → String
  or_key k name = if name == "" then k else name

  abbrev pub translated : Option (String → String) → String → String
  translated none k = k
  translated (some field_name) k = or_key k (field_name k)

  unfoldable pub key_of : String → String
  unfolding massage_key
  key_of key = translated translate (massage_key key)

  abbrev pub one : Document → Documents
  one d = both d no_document

  abbrev pub equal_test : String → Value → Result Documents
  equal_test k (boolean true) = ok (one (test k "$eq" (plain (boolean true))))
  equal_test k (boolean false) = ok (
      one (
        single "$or" (
          documents (
            both (test k "$eq" (plain (boolean false)))
              (one (test k "$exists" (plain (boolean false))))))))
  equal_test k v = do b ← massage_value k v; ok (one (test k "$eq" b))

  -- A comparison with the first value, `f.Values()[i][0]`.
  abbrev pub first_test : String → String → List Value → Result Documents
  first_test operator k [] = panic
  first_test operator k (v ∷ values) = do b ← massage_value k v; ok (one (test k operator b))

  abbrev pub each_test : String → String → List Value → Result Documents
  each_test operator k values = do
    items ← massage_values k values
    ok (one (test k operator (array items)))

  unfoldable pub regex_tests : String → List Value → Documents
  regex_tests k [] = no_document
  regex_tests k (v ∷ values) = both (test k "$regex" (plain v)) (regex_tests k values)

  -- The inner switch. A comparator that it does not name adds nothing.
  unfoldable pub compile_compare : String → Comparator → List Value → Result Documents
  unfolding massage_value massage_values regex_tests
  compile_compare k equal [] = panic
  compile_compare k equal (v ∷ values) = equal_test k v
  compile_compare k not_equal values = first_test "$ne" k values
  compile_compare k contained_in values = each_test "$in" k values
  compile_compare k contains values = each_test "$in" k values
  compile_compare k not_contained_in values = each_test "$nin" k values
  compile_compare k not_contains values = each_test "$nin" k values
  compile_compare k greater_or_equal values = first_test "$gte" k values
  compile_compare k greater values = first_test "$gt" k values
  compile_compare k lesser_or_equal values = first_test "$lte" k values
  compile_compare k lesser values = first_test "$lt" k values
  compile_compare k exists values = ok (one (test k "$exists" (plain (boolean true))))
  compile_compare k not_exists values = ok (one (test k "$exists" (plain (boolean false))))
  compile_compare k matches values = ok (one (single "$or" (documents (regex_tests k values))))
  compile_compare k _ values = ok no_document

  unfoldable mutual
    pub compile_filter : Filter → Result Document
    compile_filter end = ok Bson.end
    compile_filter (clause c f) = do
      items ← compile_clause c
      rest ← compile_clauses f
      ok (single "$and" (documents (append items rest)))

    -- The loop over the clauses, which collects `ands`.
    pub compile_clauses : Filter → Result Documents
    compile_clauses end = ok no_document
    compile_clauses (clause c f) = do
      items ← compile_clause c
      rest ← compile_clauses f
      ok (append items rest)

    pub compile_clause : Clause → Result Documents
    compile_clause (compare key comparator values) = compile_compare (key_of key) comparator values
    compile_clause (and_filters subs) = do
      ds ← compile_subs subs
      ok (one (single "$and" (documents ds)))
    compile_clause (or_filters subs) = do
      ds ← compile_subs subs
      ok (one (single "$or" (documents ds)))
    compile_clause (other_operator n) = ok no_document

    pub compile_subs : Filters → Result Documents
    compile_subs nil = ok no_document
    compile_subs (cons sub subs) = do d ← compile_filter sub; ds ← compile_subs subs; ok (both d ds)
