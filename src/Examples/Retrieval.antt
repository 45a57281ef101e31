-- ===== src/Examples/Retrieval.antt =====
-- A table of two items, with an index by name.
use manipulate.Prelude.{
  ◌≡◌, refl, ap, ℕ, ◌∷◌, [], ◌++◌, none, some, true, false, Bool, Option, List, String, arith, ◌==◌,
  ◌||◌, if◌then◌else◌, Bool-cases, inl, inr, eq_iff,
}
use manipulate.Prelude.Dict.{Dict, lookup, insert}
use manipulate.Prelude.Text.{starts_with, to_lower}
use manipulate.Errors.{Result, ok, err, foreign}
use manipulate.Filter.{
  Value, null, text, boolean, number, duration, object_id, Filter, clause, end, compare, equal,
  contains,
}
use manipulate.Memory.Query.{Source, index_argument, retrieve_from_filter}
use manipulate.Memory.Query.Meaning.{IsIndexed, by_id, satisfies, keep}
use manipulate.Memory.Query.Selection.{Selected}
use manipulate.Memory.Query.Correct.{retrieve_from_filter-Selected}
use manipulate.Examples.{Item, apple, banana}

-- The index `id` for texts, with its prefixes. There is no other index.
abbrev accepts : String → Value → Bool
accepts k (text v) = k == "id" || k == "id_prefix"
accepts k _ = false

abbrev holds : String → Value → Item → Bool
holds k (text v) o = if k == "id" then o.id == v else starts_with o.id v
holds k _ o = false

abbrev objects : String → Value → List Item
objects k v =
    (if holds k v apple then apple ∷ [] else []) ++ (if holds k v banana then banana ∷ [] else [])

abbrev get : String → Option Value → Result (List Item)
get k none = ok (apple ∷ banana ∷ [])
get k (some v) = if accepts k v then ok (objects k v) else err (foreign "invalid index")

abbrev table : Source Item
table = record { get = get; copied = λ o. ok o; identifier = λ o. o.id; comparator_number = λ c. 0 }

abbrev content : Dict Item
content = ("a", apple) ∷ ("b", banana) ∷ []

get_objects :
    (k : String) (v : Value) → accepts k v ≡ true → get k (index_argument v) ≡ ok (objects k v)
get_objects k null a = cc a
get_objects k (text v) a = rw a refl
get_objects k (boolean v) a = cc a
get_objects k (number v) a = cc a
get_objects k (duration v) a = cc a
get_objects k (object_id v) a = cc a

lookup_objects :
    (k : String) (v : Value) (i : String)
    → lookup i (by_id (λ (o : Item). o.id) (objects k v) []) ≡ keep (holds k v) (lookup i content)
unfolding lookup by_id insert
lookup_objects k v i = elim (Bool-cases (holds k v apple)) [
  | inl a ↦ elim (Bool-cases (holds k v banana)) [
    | inl b ↦ rw (a, b) (ground (arith, a, b, eq_iff "a" i, eq_iff "b" i))
    | inr b ↦ rw (a, b) (ground (arith, a, b, eq_iff "a" i, eq_iff "b" i))
  ]
  | inr a ↦ elim (Bool-cases (holds k v banana)) [
    | inl b ↦ rw (a, b) (ground (arith, a, b, eq_iff "a" i, eq_iff "b" i))
    | inr b ↦ rw (a, b) (ground (arith, a, b, eq_iff "a" i, eq_iff "b" i))
  ]
]

table-IsIndexed : IsIndexed table content accepts holds
table-IsIndexed = record {
  objects = objects;
  get_objects = get_objects;
  lookup_objects = λ k v i a. lookup_objects k v i;
  copied_self = λ o. refl;
}

abbrev query : Filter
query =
    clause (compare "ID" equal (text "a" ∷ []))
      (clause (compare "id" contains (text "a" ∷ text "b" ∷ [])) end)

retrieve_from_filter-Selected_example :
    Selected content (retrieve_from_filter table (some query) [] true) (satisfies holds query)
unfolding to_lower
retrieve_from_filter-Selected_example =
    retrieve_from_filter-Selected table content accepts holds table-IsIndexed query
      (refl, ((refl, (refl, tt)), refl))
