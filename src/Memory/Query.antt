-- ===== src/Memory/Query.antt =====
-- manipmemory/manipulator.go and utils.go: `retrieveFromFilter` and what it calls. The lookup in an
-- index of memdb and the deep copy are parameters; a map of objects is a `Dict`.
pub mod Meaning
pub mod Selection
pub mod Correct
pub mod Matches
use manipulate.Prelude.{ℕ, String, ◌<>◌, Bool, true, false, ◌||◌, Option, none, some, List, [], ◌∷◌}
use manipulate.Prelude.{if◌then◌else◌}
use manipulate.Prelude.Dict.{Dict, lookup, insert}
use manipulate.Prelude.Decimal.{decimal}
use manipulate.Prelude.Text.{to_lower, has_prefix, trim_prefix, trim_suffix}
use manipulate.Errors.{Error, foreign, typed, cannot_execute_query, Result, ok, err, panic, ◌>>=◌}
use manipulate.Filter.{
  Value, null, text, Comparator, equal, matches, contains, Filter, end, clause, compare, Clause,
  and_filters, or_filters, other_operator, Filters, nil, cons,
}

-- mergeIn: every entry of the source is put into the target.
unfoldable pub merge_in : {A : Type 0} → Dict A → Dict A → Dict A
merge_in target [] = target
merge_in target ((k, v) ∷ source) = insert k v (merge_in target source)

abbrev pub is_present : {A : Type 0} → Option A → Bool
is_present none = false
is_present (some a) = true

-- intersection: the new target.
unfoldable pub intersection : {A : Type 0} → Dict A → Dict A → Bool → Dict A
intersection target [] query_start = []
intersection target ((k, v) ∷ source) query_start =
    let combined = intersection target source query_start in
    if is_present (lookup k target) || query_start then (k, v) ∷ combined else combined

-- What the retrieval asks of memdb, of the deep copy and of an object: a transaction's `Get` on an
-- index of one table, with no value or with one (drained into a list), `copystructure.Copy`, or
-- nothing if the option noCopy is set, `Identifier`, and the number that elemental gives a comparator.
pub record Source (Object : Type 0) : Type 0 where
  pub get : String → Option Value → Result (List Object)
  pub copied : Object → Result Object
  pub identifier : Object → String
  pub comparator_number : Comparator → ℕ

-- An error of memdb or of the copy is returned as ErrCannotExecuteQuery.
abbrev pub execute_error {ℓ} : {A : Type ℓ} → Result A → Result A
execute_error (ok a) = ok a
execute_error (err e) = err (typed cannot_execute_query e)
execute_error panic = panic

-- `if value == nil { txn.Get(identity, k) } else { txn.Get(identity, k, value) }`
abbrev pub index_argument : Value → Option Value
index_argument null = none
index_argument v = some v

module _ {Object : Type 0} (source : Source Object) where
  open source use {get, copied, identifier, comparator_number}

  -- The loop over the iterator in `retrieveIntersection`.
  unfoldable pub combine : Dict Object → Bool → List Object → Dict Object → Result (Dict Object)
  combine existing full [] combined = ok combined
  combine existing full (raw ∷ rest) combined = do
    obj ← execute_error (copied raw)
    combine existing full rest (
        if is_present (lookup (identifier obj) existing) || full
        then insert (identifier obj) obj combined
        else combined)

  unfoldable pub retrieve_intersection : String → Value → Dict Object → Bool → Result (Dict Object)
  unfolding combine
  retrieve_intersection k value items full = do
    objects ← execute_error (get k (index_argument value))
    combine items full objects []

  -- EqualComparator uses the first value.
  unfoldable pub retrieve_equal : String → List Value → Dict Object → Bool → Result (Dict Object)
  unfolding retrieve_intersection
  retrieve_equal k [] items full = panic
  retrieve_equal k (v ∷ values) items full = retrieve_intersection k v items full

  -- MatchComparator: a value that is no string panics.
  unfoldable pub retrieve_matches : String → List Value → Dict Object → Bool → Result (Dict Object)
  unfolding retrieve_intersection
  retrieve_matches k [] items full = ok items
  retrieve_matches k (text v ∷ values) items full =
      let rest = do
        found ←
            retrieve_intersection (k <> "_prefix") (text (trim_suffix b'$' (trim_prefix b'^' v))) []
              full
        retrieve_matches k values (merge_in items found) full
      in if has_prefix b'^' v
        then rest
        else err (
            typed cannot_execute_query (
              foreign
                "Matches filter only works for prefix matching and must always start with a '^'"))
  retrieve_matches k (_ ∷ values) items full = panic

  -- ContainComparator: the union over the values, before the intersection.
  unfoldable pub retrieve_contains : String → List Value → Dict Object → Result (Dict Object)
  unfolding retrieve_intersection
  retrieve_contains k [] found = ok found
  retrieve_contains k (v ∷ values) found = do
    value_items ← retrieve_intersection k v [] true
    retrieve_contains k values (merge_in found value_items)

  unfoldable pub retrieve_compare :
      String → Comparator → List Value → Dict Object → Bool → Result (Dict Object)
  unfolding retrieve_equal retrieve_matches retrieve_contains
  retrieve_compare k equal values items full = retrieve_equal k values items full
  retrieve_compare k matches values items full = retrieve_matches k values items full
  retrieve_compare k contains values items full = do
    found ← retrieve_contains k values []
    ok (intersection items found full)
  retrieve_compare k comparator values items full = err (
      typed cannot_execute_query
        (foreign ("invalid comparator for memdb: " <> decimal (comparator_number comparator))))

  unfoldable mutual
    -- The loop over the clauses; after the first `fullQuery` is false.
    pub retrieve_filter : Filter → Dict Object → Bool → Result (Dict Object)
    retrieve_filter end items full = ok items
    retrieve_filter (clause c f) items full = do
      items' ← retrieve_clause c items full
      retrieve_filter f items' false

    pub retrieve_clause : Clause → Dict Object → Bool → Result (Dict Object)
    retrieve_clause (compare k comparator values) items full =
        retrieve_compare (to_lower k) comparator values items full
    retrieve_clause (and_filters subs) items full = retrieve_all subs items full
    retrieve_clause (or_filters subs) items full = do
      found ← retrieve_any subs []
      ok (intersection items found full)
    retrieve_clause (other_operator n) items full =
        err (typed cannot_execute_query (foreign ("invalid operator for memdb: " <> decimal n)))

    -- AndFilterOperator: `fullQuery` is false after the first filter.
    pub retrieve_all : Filters → Dict Object → Bool → Result (Dict Object)
    retrieve_all nil items full = ok items
    retrieve_all (cons sub subs) items full = do
      items' ← retrieve_filter sub items full
      retrieve_all subs items' false

    -- OrFilterOperator: each filter is a query of its own.
    pub retrieve_any : Filters → Dict Object → Result (Dict Object)
    retrieve_any nil found = ok found
    retrieve_any (cons sub subs) found = do
      value_items ← retrieve_filter sub [] true
      retrieve_any subs (merge_in found value_items)

  -- `f == nil` is `none`: everything in the table, by its index `id`.
  unfoldable pub retrieve_from_filter : Option Filter → Dict Object → Bool → Result (Dict Object)
  unfolding retrieve_intersection retrieve_filter
  retrieve_from_filter none items full = retrieve_intersection "id" null items full
  retrieve_from_filter (some f) items full = retrieve_filter f items full
