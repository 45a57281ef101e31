-- ===== src/Mongo/Compiler/Meaning.antt =====
-- What a filter means for one stored object (a row), and what MongoDB documents of its operators.
use manipulate.Prelude.{
  ℕ, ◌+◌, ◌≡◌, String, Bool, true, false, not, ◌&&◌, ◌||◌, Option, List, [], ◌∷◌, ◌==◌,
}
use manipulate.ObjectId.{parse}
use manipulate.Filter.{
  Value, null, text, boolean, duration, Comparator, equal, not_equal, greater, greater_or_equal,
  lesser, lesser_or_equal, contained_in, not_contained_in, contains, not_contains, matches, exists,
  not_exists, Filter, end, clause, compare, Clause, and_filters, or_filters, other_operator,
  Filters, nil, cons,
}
use manipulate.Mongo.Bson
use manipulate.Mongo.Bson.{
  Bson, plain, instant, array, documents, Array, no_item, item, Document, Documents, no_document,
  both, single, test,
}
use manipulate.Mongo.Compiler.{identified, massage_key, key_of}

-- The tests on one field of a row.
pub record Tests (Row : Type 0) : Type 0 where
  pub equals : String → Bson → Row → Bool
  pub is_greater : String → Bson → Row → Bool
  pub is_greater_or_equal : String → Bson → Row → Bool
  pub is_lesser : String → Bson → Row → Bool
  pub is_lesser_or_equal : String → Bson → Row → Bool
  pub has : String → Row → Bool
  pub is_like : String → Value → Row → Bool

module _ {Row : Type 0} (selects : Document → Row → Bool) (tests : Tests Row) where
  abbrev pub all_select : Documents → Row → Bool
  all_select no_document r = true
  all_select (both d ds) r = selects d r && all_select ds r

  abbrev pub any_selects : Documents → Row → Bool
  any_selects no_document r = false
  any_selects (both d ds) r = selects d r || any_selects ds r

  abbrev pub equals_any : String → Array → Row → Bool
  equals_any k no_item r = false
  equals_any k (item b items) r = tests.equals k b r || equals_any k items r

  -- The documented meaning of the operators. `$and` and `$or` want an array that is not empty.
  pub record IsMongo : Type 0 where
    pub selects_empty : (r : Row) → selects Bson.end r ≡ true
    pub selects_and :
        (d : Document) (ds : Documents) (r : Row)
        → selects (single "$and" (documents (both d ds))) r ≡ (selects d r && all_select ds r)
    pub selects_or :
        (d : Document) (ds : Documents) (r : Row)
        → selects (single "$or" (documents (both d ds))) r ≡ (selects d r || any_selects ds r)
    pub selects_eq :
        (k : String) (b : Bson) (r : Row) → selects (test k "$eq" b) r ≡ tests.equals k b r
    pub selects_ne :
        (k : String) (b : Bson) (r : Row) → selects (test k "$ne" b) r ≡ not (tests.equals k b r)
    pub selects_in :
        (k : String) (items : Array) (r : Row)
        → selects (test k "$in" (array items)) r ≡ equals_any k items r
    pub selects_nin :
        (k : String) (items : Array) (r : Row)
        → selects (test k "$nin" (array items)) r ≡ not (equals_any k items r)
    pub selects_gt :
        (k : String) (b : Bson) (r : Row) → selects (test k "$gt" b) r ≡ tests.is_greater k b r
    pub selects_gte :
        (k : String) (b : Bson) (r : Row)
        → selects (test k "$gte" b) r ≡ tests.is_greater_or_equal k b r
    pub selects_lt :
        (k : String) (b : Bson) (r : Row) → selects (test k "$lt" b) r ≡ tests.is_lesser k b r
    pub selects_lte :
        (k : String) (b : Bson) (r : Row)
        → selects (test k "$lte" b) r ≡ tests.is_lesser_or_equal k b r
    pub selects_exists :
        (k : String) (r : Row) → selects (test k "$exists" (plain (boolean true))) r ≡ tests.has k r
    pub selects_not_exists :
        (k : String) (r : Row)
        → selects (test k "$exists" (plain (boolean false))) r ≡ not (tests.has k r)
    pub selects_regex :
        (k : String) (v : Value) (r : Row)
        → selects (test k "$regex" (plain v)) r ≡ tests.is_like k v r

-- The stored form of a value: a duration is counted from now, and a text that is an object
-- identifier is one under the key `_id`.
abbrev pub stored : ℕ → String → Value → Bson
stored now k (duration d) = instant (now + d)
stored now k (text v) = identified (k == "_id") v (parse v)
stored now k v = plain v

abbrev pub stored_each : ℕ → String → List Value → Array
stored_each now k [] = no_item
stored_each now k (v ∷ values) = item (stored now k v) (stored_each now k values)

module _ {Row : Type 0} (selects : Document → Row → Bool) (tests : Tests Row) (now : ℕ)
    (translate : Option (String → String)) where
  abbrev pub is_like_any : String → List Value → Row → Bool
  is_like_any k [] r = false
  is_like_any k (v ∷ values) r = tests.is_like k v r || is_like_any k values r

  -- A field equals `false` also if it is absent. The values of a list go by the key in lower case.
  abbrev pub satisfies_compare : String → Comparator → List Value → Row → Bool
  satisfies_compare k equal (boolean false ∷ values) r =
      tests.equals k (plain (boolean false)) r || not (tests.has k r)
  satisfies_compare k equal (v ∷ values) r = tests.equals k (stored now k v) r
  satisfies_compare k not_equal (v ∷ values) r = not (tests.equals k (stored now k v) r)
  satisfies_compare k greater (v ∷ values) r = tests.is_greater k (stored now k v) r
  satisfies_compare k greater_or_equal (v ∷ values) r =
      tests.is_greater_or_equal k (stored now k v) r
  satisfies_compare k lesser (v ∷ values) r = tests.is_lesser k (stored now k v) r
  satisfies_compare k lesser_or_equal (v ∷ values) r = tests.is_lesser_or_equal k (stored now k v) r
  satisfies_compare k contained_in values r =
      equals_any selects tests k (stored_each now (massage_key k) values) r
  satisfies_compare k contains values r =
      equals_any selects tests k (stored_each now (massage_key k) values) r
  satisfies_compare k not_contained_in values r =
      not (equals_any selects tests k (stored_each now (massage_key k) values) r)
  satisfies_compare k not_contains values r =
      not (equals_any selects tests k (stored_each now (massage_key k) values) r)
  satisfies_compare k exists values r = tests.has k r
  satisfies_compare k not_exists values r = not (tests.has k r)
  satisfies_compare k matches values r = is_like_any k values r
  satisfies_compare k _ values r = false

  unfoldable mutual
    pub satisfies : Filter → Row → Bool
    satisfies end r = true
    satisfies (clause c f) r = satisfies_clause c r && satisfies f r

    pub satisfies_clause : Clause → Row → Bool
    satisfies_clause (compare key comparator values) r =
        satisfies_compare (key_of now translate key) comparator values r
    satisfies_clause (and_filters subs) r = satisfies_all subs r
    satisfies_clause (or_filters subs) r = satisfies_any subs r
    satisfies_clause (other_operator n) r = false

    pub satisfies_all : Filters → Row → Bool
    satisfies_all nil r = true
    satisfies_all (cons sub subs) r = satisfies sub r && satisfies_all subs r

    pub satisfies_any : Filters → Row → Bool
    satisfies_any nil r = false
    satisfies_any (cons sub subs) r = satisfies sub r || satisfies_any subs r

abbrev pub IsPresent : Value → Type 0
IsPresent null = ⊥
IsPresent _ = Unit

abbrev pub ArePresent : List Value → Type 0
ArePresent [] = Unit
ArePresent (v ∷ values) = IsPresent v × ArePresent values

abbrev HasFirst : List Value → Type 0
HasFirst [] = ⊥
HasFirst (v ∷ values) = IsPresent v

abbrev IsNonEmpty : List Value → Type 0
IsNonEmpty [] = ⊥
IsNonEmpty (v ∷ values) = Unit

abbrev pub IsCompilableCompare : Comparator → List Value → Type 0
IsCompilableCompare contained_in values = ArePresent values
IsCompilableCompare contains values = ArePresent values
IsCompilableCompare not_contained_in values = ArePresent values
IsCompilableCompare not_contains values = ArePresent values
IsCompilableCompare exists values = Unit
IsCompilableCompare not_exists values = Unit
IsCompilableCompare matches values = IsNonEmpty values
IsCompilableCompare equal values = HasFirst values
IsCompilableCompare not_equal values = HasFirst values
IsCompilableCompare greater values = HasFirst values
IsCompilableCompare greater_or_equal values = HasFirst values
IsCompilableCompare lesser values = HasFirst values
IsCompilableCompare lesser_or_equal values = HasFirst values
IsCompilableCompare _ values = ⊥

-- The filters with a document that MongoDB takes: every comparator and operator is one that the
-- compiler names, with a value that is not nil where it reads one, and no list of filters or
-- patterns is empty.
abbrev mutual
  pub IsCompilable : Filter → Type 0
  IsCompilable end = Unit
  IsCompilable (clause c f) = IsCompilableClause c × IsCompilable f

  pub IsCompilableClause : Clause → Type 0
  IsCompilableClause (compare key comparator values) = IsCompilableCompare comparator values
  IsCompilableClause (and_filters nil) = ⊥
  IsCompilableClause (and_filters (cons sub subs)) = IsCompilable sub × AreCompilable subs
  IsCompilableClause (or_filters nil) = ⊥
  IsCompilableClause (or_filters (cons sub subs)) = IsCompilable sub × AreCompilable subs
  IsCompilableClause (other_operator n) = ⊥

  pub AreCompilable : Filters → Type 0
  AreCompilable nil = Unit
  AreCompilable (cons sub subs) = IsCompilable sub × AreCompilable subs
