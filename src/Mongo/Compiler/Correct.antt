-- ===== src/Mongo/Compiler/Correct.antt =====
-- The compiled document selects the rows that satisfy the filter.
use manipulate.Prelude.{ℕ, ◌≡◌, refl, ◌∙◌, String, Bool, true, false, Option, List, [], ◌∷◌, arith}
use manipulate.Errors.{Result, ok}
use manipulate.Filter.{
  Value, null, text, boolean, number, duration, object_id, Comparator, equal, not_equal, greater,
  greater_or_equal, lesser, lesser_or_equal, contained_in, not_contained_in, contains, not_contains,
  matches, not_matches, exists, not_exists, Filter, end, clause, compare, Clause, and_filters,
  or_filters, other_operator, Filters, nil, cons,
}
use manipulate.Mongo.Bson.{Bson, documents, Document, Documents, both, single, append}
use manipulate.Mongo.Compiler.{
  massage_key, massage_value, massage_each, massage_values, key_of, one, regex_tests,
  compile_compare, first_test, equal_test, each_test, compile_filter, compile_clauses,
  compile_clause, compile_subs,
}
use manipulate.Mongo.Compiler.Meaning.{
  Tests, IsMongo, all_select, any_selects, stored, stored_each, is_like_any, satisfies_compare,
  satisfies, satisfies_clause, satisfies_all, satisfies_any, IsPresent, ArePresent,
  IsCompilableCompare, IsCompilable, IsCompilableClause, AreCompilable,
}

module _ (now : ℕ) (translate : Option (String → String)) where
  massage_value-stored :
      (k : String) (v : Value) → IsPresent v → massage_value now translate k v ≡ ok (stored now k v)
  unfolding massage_value
  massage_value-stored k null h = absurd h
  massage_value-stored k (text v) h = refl
  massage_value-stored k (boolean b) h = refl
  massage_value-stored k (number n) h = refl
  massage_value-stored k (duration d) h = refl
  massage_value-stored k (object_id i) h = refl

  massage_each-stored :
      (k : String) (values : List Value)
      → ArePresent values
      → massage_each now translate k values ≡ ok (stored_each now k values)
  unfolding massage_each
  massage_each-stored k [] h = refl
  massage_each-stored k (v ∷ values) h =
      rw (massage_value-stored k v h.0, massage_each-stored k values h.1)

module _ {Row : Type 0} (selects : Document → Row → Bool) (tests : Tests Row)
    (mongo : IsMongo selects tests) (now : ℕ) (translate : Option (String → String)) where
  -- The call returns a document that selects by the predicate.
  abbrev pub Compiles : Result Document → (Row → Bool) → Type 0
  Compiles result q = (d : Document) × (result ≡ ok d) × ((r : Row) → selects d r ≡ q r)

  abbrev CompilesOne : Result Documents → (Row → Bool) → Type 0
  CompilesOne result q =
      (d : Document) × (result ≡ ok (one now translate d)) × ((r : Row) → selects d r ≡ q r)

  first-Compiles :
      (operator k : String) (values : List Value) (q : Bson → Row → Bool)
      → ((b : Bson) (r : Row) → selects (single k (Bson.document (single operator b))) r ≡ q b r)
      → (v : Value) → IsPresent v
      → CompilesOne (first_test now translate operator k (v ∷ values)) (q (stored now k v))
  first-Compiles operator k values q law v h =
      (_, rw (massage_value-stored now translate k v h), law (stored now k v))

  each-Compiles :
      (operator k : String) (values : List Value) (q : Row → Bool)
      → ((r : Row)
          → selects
              (single k (
                Bson.document
                  (single operator (Bson.array (stored_each now (massage_key k) values)))))
              r
            ≡ q r)
      → ArePresent values
      → CompilesOne (each_test now translate operator k values) q
  unfolding massage_values
  each-Compiles operator k values q law h =
      (_, rw (massage_each-stored now translate (massage_key k) values h), law)

  any_selects-regex_tests :
      (k : String) (values : List Value) (r : Row)
      → any_selects selects tests (regex_tests now translate k values) r
        ≡ is_like_any selects tests now translate k values r
  unfolding regex_tests
  any_selects-regex_tests k [] r = refl
  any_selects-regex_tests k (v ∷ values) r =
      rw (mongo.selects_regex k v r, any_selects-regex_tests k values r)

  equal-Compiles :
      (k : String) (v : Value) (values : List Value)
      → IsPresent v
      → CompilesOne
          (equal_test now translate k v)
          (satisfies_compare selects tests now translate k equal (v ∷ values))
  equal-Compiles k (boolean true) values h = (_, refl, mongo.selects_eq k _)
  equal-Compiles k (boolean false) values h = (
    _,
    refl,
    λ r. rw (mongo.selects_or, mongo.selects_eq, mongo.selects_not_exists) (ground arith),
  )
  equal-Compiles k null values h = absurd h
  equal-Compiles k (text v) values h =
      first-Compiles "$eq" k values (tests.equals k) (mongo.selects_eq k) (text v) tt
  equal-Compiles k (number v) values h =
      first-Compiles "$eq" k values (tests.equals k) (mongo.selects_eq k) (number v) tt
  equal-Compiles k (duration v) values h =
      first-Compiles "$eq" k values (tests.equals k) (mongo.selects_eq k) (duration v) tt
  equal-Compiles k (object_id v) values h =
      first-Compiles "$eq" k values (tests.equals k) (mongo.selects_eq k) (object_id v) tt

  compare-Compiles :
      (k : String) (comparator : Comparator) (values : List Value)
      → IsCompilableCompare comparator values
      → CompilesOne
          (compile_compare now translate k comparator values)
          (satisfies_compare selects tests now translate k comparator values)
  unfolding compile_compare
  compare-Compiles k equal [] h = absurd h
  compare-Compiles k equal (v ∷ values) h = equal-Compiles k v values h
  compare-Compiles k not_equal [] h = absurd h
  compare-Compiles k not_equal (v ∷ values) h =
      first-Compiles "$ne" k values _ (mongo.selects_ne k) v h
  compare-Compiles k greater [] h = absurd h
  compare-Compiles k greater (v ∷ values) h =
      first-Compiles "$gt" k values _ (mongo.selects_gt k) v h
  compare-Compiles k greater_or_equal [] h = absurd h
  compare-Compiles k greater_or_equal (v ∷ values) h =
      first-Compiles "$gte" k values _ (mongo.selects_gte k) v h
  compare-Compiles k lesser [] h = absurd h
  compare-Compiles k lesser (v ∷ values) h =
      first-Compiles "$lt" k values _ (mongo.selects_lt k) v h
  compare-Compiles k lesser_or_equal [] h = absurd h
  compare-Compiles k lesser_or_equal (v ∷ values) h =
      first-Compiles "$lte" k values _ (mongo.selects_lte k) v h
  compare-Compiles k contained_in values h = each-Compiles "$in" k values _ (mongo.selects_in k _) h
  compare-Compiles k contains values h = each-Compiles "$in" k values _ (mongo.selects_in k _) h
  compare-Compiles k not_contained_in values h =
      each-Compiles "$nin" k values _ (mongo.selects_nin k _) h
  compare-Compiles k not_contains values h =
      each-Compiles "$nin" k values _ (mongo.selects_nin k _) h
  compare-Compiles k exists values h = (_, refl, mongo.selects_exists k)
  compare-Compiles k not_exists values h = (_, refl, mongo.selects_not_exists k)
  compare-Compiles k matches [] h = absurd h
  compare-Compiles k matches (v ∷ values) h = (
    _,
    refl,
    λ r. unfold regex_tests in mongo.selects_or _ _ r ∙ any_selects-regex_tests k (v ∷ values) r,
  )
  compare-Compiles k not_matches values h = absurd h

  -- The list of documents for the clauses, or for the filters of one clause.
  abbrev CompilesAll : Result Documents → (Row → Bool) → (Row → Bool) → Type 0
  CompilesAll result q p =
      (ds : Documents) × (result ≡ ok ds)
      × ((r : Row) → all_select selects tests ds r ≡ q r)
      × ((r : Row) → any_selects selects tests ds r ≡ p r)

  mutual
    unfolding compile_filter satisfies append

    filter-Compiles :
        (f : Filter)
        → IsCompilable f
        → Compiles (compile_filter now translate f) (satisfies selects tests now translate f)
    filter-Compiles end h = (_, refl, mongo.selects_empty)
    filter-Compiles (clause c f) h =
        let (d, e, s) = clause-Compiles c h.0 in
        let (ds, e', s') = clauses-Compile f h.1 in
        (
          single "$and" (documents (both d ds)),
          rw (e, e'),
          λ r. mongo.selects_and d ds r ∙ rw (s r, s' r),
        )

    clauses-Compile :
        (f : Filter)
        → IsCompilable f
        → (ds : Documents) × (compile_clauses now translate f ≡ ok ds)
          × ((r : Row) → all_select selects tests ds r ≡ satisfies selects tests now translate f r)
    clauses-Compile end h = (_, refl, λ r. refl)
    clauses-Compile (clause c f) h =
        let (d, e, s) = clause-Compiles c h.0 in
        let (ds, e', s') = clauses-Compile f h.1 in (both d ds, rw (e, e'), λ r. rw (s r, s' r))

    clause-Compiles :
        (c : Clause)
        → IsCompilableClause c
        → CompilesOne
            (compile_clause now translate c)
            (satisfies_clause selects tests now translate c)
    clause-Compiles (compare key comparator values) h =
        compare-Compiles (key_of now translate key) comparator values h
    clause-Compiles (and_filters nil) h = absurd h
    clause-Compiles (and_filters (cons sub subs)) h =
        let (d, e, s) = filter-Compiles sub h.0 in
        let (ds, e', s', p') = subs-Compile subs h.1 in
        (
          single "$and" (documents (both d ds)),
          rw (e, e'),
          λ r. mongo.selects_and d ds r ∙ rw (s r, s' r),
        )
    clause-Compiles (or_filters nil) h = absurd h
    clause-Compiles (or_filters (cons sub subs)) h =
        let (d, e, s) = filter-Compiles sub h.0 in
        let (ds, e', s', p') = subs-Compile subs h.1 in
        (
          single "$or" (documents (both d ds)),
          rw (e, e'),
          λ r. mongo.selects_or d ds r ∙ rw (s r, p' r),
        )
    clause-Compiles (other_operator n) h = absurd h

    subs-Compile :
        (subs : Filters)
        → AreCompilable subs
        → CompilesAll
            (compile_subs now translate subs)
            (satisfies_all selects tests now translate subs)
            (satisfies_any selects tests now translate subs)
    subs-Compile nil h = (_, refl, λ r. refl, λ r. refl)
    subs-Compile (cons sub subs) h =
        let (d, e, s) = filter-Compiles sub h.0 in
        let (ds, e', s', p') = subs-Compile subs h.1 in
        (both d ds, rw (e, e'), λ r. rw (s r, s' r), λ r. rw (s r, p' r))

  -- With MongoDB's documented operators, `CompileFilter` returns, for a filter with a document that
  -- MongoDB takes, a document that selects exactly the rows that satisfy the filter.
  pub compile_filter-Compiles :
      (f : Filter)
      → IsCompilable f
      → Compiles (compile_filter now translate f) (satisfies selects tests now translate f)
  compile_filter-Compiles f h = filter-Compiles f h
