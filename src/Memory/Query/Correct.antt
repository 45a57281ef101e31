-- ===== src/Memory/Query/Correct.antt =====
-- The retrieval selects the objects that satisfy the filter: every clause, and the whole query.
use manipulate.Prelude.{
  refl, String, ◌<>◌, Bool, true, false, ◌&&◌, ◌||◌, some, List, [], ◌∷◌, arith,
}
use manipulate.Prelude.{Option-cases, inl, inr}
use manipulate.Prelude.Dict.{Dict, lookup}
use manipulate.Prelude.Text.{to_lower, trim_prefix, trim_suffix}
use manipulate.Errors.{ok}
use manipulate.Filter.{
  Value, text, Comparator, equal, matches, contains, Filter, end, clause, compare, Clause,
  and_filters, or_filters, other_operator, Filters, nil, cons,
}
use manipulate.Memory.Query.{
  Source, merge_in, retrieve_intersection, retrieve_equal, retrieve_matches, retrieve_contains,
  retrieve_compare, retrieve_filter, retrieve_clause, retrieve_all, retrieve_any,
  retrieve_from_filter,
}
use manipulate.Memory.Query.Meaning.{
  IsIndexed, holds_prefix, satisfies_compare, satisfies, satisfies_clause, satisfies_all,
  satisfies_any, IsSupported, IsSupportedClause, IsSupportedAll, IsSupportedAny, IsSupportedCompare,
  ArePatterns,
}
use manipulate.Memory.Query.Selection.{
  Selects, Selected, Starts, bind-Selected, Selected-ext, merge_in-Selects, intersection-Selects,
  retrieve_intersection-Selected, retrieve_contains-Selected,
}

module _ {Object : Type 0} (source : Source Object) (content : Dict Object)
    (accepts : String → Value → Bool) (holds : String → Value → Object → Bool)
    (indexed : IsIndexed source content accepts holds) where
  retrieve_matches-Selected :
      (k : String) (values : List Value) (found : Dict Object) (p : Object → Bool)
      → ArePatterns accepts k values
      → Selects content found p
      → Selected content
          (retrieve_matches source k values found true)
          (λ o. p o || holds_prefix holds k values o)
  unfolding retrieve_matches
  retrieve_matches-Selected k [] found p a h =
      Selected-ext content (ok found) p _ (λ o. ground arith) h
  retrieve_matches-Selected k (text v ∷ values) found p a h = rw a.0.0 (
      bind-Selected content
        (retrieve_intersection source (k <> "_prefix")
          (text (trim_suffix b'$' (trim_prefix b'^' v))) [] true)
        _ _ _
        (retrieve_intersection-Selected source content accepts holds indexed (k <> "_prefix")
          (text (trim_suffix b'$' (trim_prefix b'^' v))) true [] (λ o. true) a.0.1
          (refl, λ o. refl))
        λ items s.
          Selected-ext content _ _ _ (λ o. ground arith)
            (retrieve_matches-Selected k values (merge_in found items) _ a.1
              (merge_in-Selects content found items p _ h s)))
  retrieve_matches-Selected k (_ ∷ values) found p a h = absurd a.0

  nothing-Selects : Selects content [] (λ o. false)
  nothing-Selects i =
      unfold lookup in elim (Option-cases (lookup i content)) [ inl e ↦ rw e | inr (o, e) ↦ rw e ]

  retrieve_compare-Selected :
      (k : String) (c : Comparator) (values : List Value) (full : Bool) (items : Dict Object)
      (q : Object → Bool)
      → IsSupportedCompare accepts full k c values
      → Starts content full items q
      → Selected content
          (retrieve_compare source k c values items full)
          (λ o. q o && satisfies_compare holds k c values o)
  unfolding retrieve_compare retrieve_equal
  retrieve_compare-Selected k equal [] full items q a s = absurd a
  retrieve_compare-Selected k equal (v ∷ values) full items q a s =
      retrieve_intersection-Selected source content accepts holds indexed k v full items q a s
  retrieve_compare-Selected k contains values full items q a s =
      bind-Selected content (retrieve_contains source k values []) _ _ _
        (retrieve_contains-Selected source content accepts holds indexed k values [] (λ o. false) a
          nothing-Selects)
        λ found h. intersection-Selects content full items found q _ s h
  retrieve_compare-Selected k matches values false items q a s = cc (a.0)
  retrieve_compare-Selected k matches values true items q a s = rw s.0 (
      Selected-ext content _ (λ o. false || holds_prefix holds k values o) _
        (λ o. ground (arith, s.1 o))
        (retrieve_matches-Selected k values [] (λ o. false) a.1 nothing-Selects))
  retrieve_compare-Selected k _ values full items q a s = absurd a

  mutual
    unfolding retrieve_filter satisfies

    filter-Selected :
        (f : Filter) (full : Bool) (items : Dict Object) (q : Object → Bool)
        → IsSupported accepts full f
        → Starts content full items q
        → Selected content (retrieve_filter source f items full) (λ o. q o && satisfies holds f o)
    filter-Selected end false items q a s =
        Selected-ext content (ok items) q _ (λ o. ground arith) s
    filter-Selected end true items q a s = cc a
    filter-Selected (clause c f) full items q a s =
        bind-Selected content (retrieve_clause source c items full) _ _ _
          (clause-Selected c full items q a.0 s)
          λ items' s'.
            Selected-ext content _ _ _ (λ o. ground arith) (filter-Selected f false items' _ a.1 s')

    clause-Selected :
        (c : Clause) (full : Bool) (items : Dict Object) (q : Object → Bool)
        → IsSupportedClause accepts full c
        → Starts content full items q
        → Selected content
            (retrieve_clause source c items full)
            (λ o. q o && satisfies_clause holds c o)
    clause-Selected (compare k c values) full items q a s =
        retrieve_compare-Selected (to_lower k) c values full items q a s
    clause-Selected (and_filters subs) full items q a s = all-Selected subs full items q a s
    clause-Selected (or_filters subs) full items q a s =
        bind-Selected content (retrieve_any source subs []) _ _ _
          (any-Selected subs [] (λ o. false) a nothing-Selects)
          λ found h. intersection-Selects content full items found q _ s h
    clause-Selected (other_operator n) full items q a s = absurd a

    all-Selected :
        (subs : Filters) (full : Bool) (items : Dict Object) (q : Object → Bool)
        → IsSupportedAll accepts full subs
        → Starts content full items q
        → Selected content
            (retrieve_all source subs items full)
            (λ o. q o && satisfies_all holds subs o)
    all-Selected nil false items q a s = Selected-ext content (ok items) q _ (λ o. ground arith) s
    all-Selected nil true items q a s = cc a
    all-Selected (cons sub subs) full items q a s =
        bind-Selected content (retrieve_filter source sub items full) _ _ _
          (filter-Selected sub full items q a.0 s)
          λ items' s'.
            Selected-ext content _ _ _ (λ o. ground arith) (all-Selected subs false items' _ a.1 s')

    any-Selected :
        (subs : Filters) (found : Dict Object) (p : Object → Bool)
        → IsSupportedAny accepts subs
        → Selects content found p
        → Selected content (retrieve_any source subs found) (λ o. p o || satisfies_any holds subs o)
    any-Selected nil found p a h = Selected-ext content (ok found) p _ (λ o. ground arith) h
    any-Selected (cons sub subs) found p a h =
        bind-Selected content (retrieve_filter source sub [] true) _ _ _
          (filter-Selected sub true [] (λ o. true) a.0 (refl, λ o. refl))
          λ items s.
            Selected-ext content _ _ _ (λ o. ground arith)
              (any-Selected subs (merge_in found items) _ a.1
                (merge_in-Selects content found items p _ h s))

  -- Over a table whose indexes answer the lookups that a supported filter asks for, with the keys and
  -- values that they accept, the retrieval for the filter, started as `RetrieveMany` and `Count`
  -- start it, returns exactly the objects of the table that satisfy the filter, each under its
  -- identifier.
  pub retrieve_from_filter-Selected :
      (f : Filter)
      → IsSupported accepts true f
      → Selected content (retrieve_from_filter source (some f) [] true) (satisfies holds f)
  unfolding retrieve_from_filter
  retrieve_from_filter-Selected f a = filter-Selected f true [] (λ o. true) a (refl, λ o. refl)
