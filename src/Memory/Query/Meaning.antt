-- ===== src/Memory/Query/Meaning.antt =====
-- What a filter means for one object, and that the retrieval selects by it.
use manipulate.Prelude.{
  ◌≡◌, refl, String, ◌<>◌, Bool, true, false, ◌&&◌, ◌||◌, Option, none, some, List, [], ◌∷◌, arith,
  eq_iff,
}
use manipulate.Prelude.{if◌then◌else◌}
use manipulate.Prelude.Dict.{Dict, lookup, insert, lookup-insert}
use manipulate.Prelude.Text.{to_lower, has_prefix, trim_prefix, trim_suffix}
use manipulate.Errors.{ok}
use manipulate.Filter.{
  Value, text, Comparator, equal, matches, contains, Filter, end, clause, compare, Clause,
  and_filters, or_filters, other_operator, Filters, nil, cons,
}
use manipulate.Memory.Query.{Source, is_present, merge_in, intersection, index_argument}

-- The object, if there is one and it passes the test.
abbrev pub keep : {A : Type 0} → (A → Bool) → Option A → Option A
keep p none = none
keep p (some a) = if p a then some a else none

pub lookup-merge_in :
    {A : Type 0} (i : String) (target source : Dict A)
    → lookup i (merge_in target source)
      ≡ (if is_present (lookup i source) then lookup i source else lookup i target)
unfolding merge_in lookup
lookup-merge_in i target [] = refl
lookup-merge_in i target ((k, v) ∷ source) =
    ground (arith, lookup-insert k i v (merge_in target source), lookup-merge_in i target source)

pub lookup-intersection :
    {A : Type 0} (i : String) (target source : Dict A) (full : Bool)
    → lookup i (intersection target source full)
      ≡ (if is_present (lookup i target) || full then lookup i source else none)
unfolding intersection lookup
lookup-intersection i target [] full = ground arith
lookup-intersection i target ((k, v) ∷ source) full =
    ground (arith, eq_iff k i, lookup-intersection i target source full)

-- The objects of a drained iterator, by identifier.
unfoldable pub by_id :
    {Object : Type 0} → (Object → String) → List Object → Dict Object → Dict Object
by_id identifier [] found = found
by_id identifier (o ∷ objects) found = by_id identifier objects (insert (identifier o) o found)

-- The table: its objects by identifier, which indexes it has for which values, and which objects an
-- index finds for a value. For any other index or value memdb may return an error. The copy of an
-- object equals it.
pub record IsIndexed {Object : Type 0} (source : Source Object) (content : Dict Object)
    (accepts : String → Value → Bool) (holds : String → Value → Object → Bool) : Type 0 where
  pub objects : String → Value → List Object
  pub get_objects :
      (k : String) (v : Value)
      → accepts k v ≡ true
      → source.get k (index_argument v) ≡ ok (objects k v)
  pub lookup_objects :
      (k : String) (v : Value) (i : String)
      → accepts k v ≡ true
      → lookup i (by_id source.identifier (objects k v) []) ≡ keep (holds k v) (lookup i content)
  pub copied_self : (o : Object) → source.copied o ≡ ok o

module _ {Object : Type 0} (holds : String → Value → Object → Bool) where
  abbrev pub holds_any : String → List Value → Object → Bool
  holds_any k [] o = false
  holds_any k (v ∷ values) o = holds k v o || holds_any k values o

  abbrev pub holds_prefix : String → List Value → Object → Bool
  holds_prefix k [] o = false
  holds_prefix k (text v ∷ values) o =
      holds (k <> "_prefix") (text (trim_suffix b'$' (trim_prefix b'^' v))) o
      || holds_prefix k values o
  holds_prefix k (_ ∷ values) o = false

  abbrev pub satisfies_compare : String → Comparator → List Value → Object → Bool
  satisfies_compare k equal (v ∷ values) o = holds k v o
  satisfies_compare k contains values o = holds_any k values o
  satisfies_compare k matches values o = holds_prefix k values o
  satisfies_compare k _ _ o = false

  unfoldable mutual
    -- An object satisfies a filter if it satisfies every clause.
    pub satisfies : Filter → Object → Bool
    satisfies end o = true
    satisfies (clause c f) o = satisfies_clause c o && satisfies f o

    pub satisfies_clause : Clause → Object → Bool
    satisfies_clause (compare k comparator values) o =
        satisfies_compare (to_lower k) comparator values o
    satisfies_clause (and_filters subs) o = satisfies_all subs o
    satisfies_clause (or_filters subs) o = satisfies_any subs o
    satisfies_clause (other_operator n) o = false

    pub satisfies_all : Filters → Object → Bool
    satisfies_all nil o = true
    satisfies_all (cons sub subs) o = satisfies sub o && satisfies_all subs o

    pub satisfies_any : Filters → Object → Bool
    satisfies_any nil o = false
    satisfies_any (cons sub subs) o = satisfies sub o || satisfies_any subs o

module _ (accepts : String → Value → Bool) where
  -- The index for the comparison, and the one for prefixes, take the values.
  abbrev pub AreAccepted : String → List Value → Type 0
  AreAccepted k [] = Unit
  AreAccepted k (v ∷ values) = (accepts k v ≡ true) × AreAccepted k values

  abbrev IsPattern : String → Value → Type 0
  IsPattern k (text v) =
      (has_prefix b'^' v ≡ true)
      × (accepts (k <> "_prefix") (text (trim_suffix b'$' (trim_prefix b'^' v))) ≡ true)
  IsPattern k _ = ⊥

  abbrev pub ArePatterns : String → List Value → Type 0
  ArePatterns k [] = Unit
  ArePatterns k (v ∷ values) = IsPattern k v × ArePatterns k values

  abbrev pub IsSupportedCompare : Bool → String → Comparator → List Value → Type 0
  IsSupportedCompare first k equal (v ∷ values) = accepts k v ≡ true
  IsSupportedCompare first k contains values = AreAccepted k values
  IsSupportedCompare first k matches values = (first ≡ true) × ArePatterns k values
  IsSupportedCompare first k _ _ = ⊥

  -- The filters whose retrieval goes by their meaning: the comparators are the supported ones, the
  -- table has the indexes for their keys and values, a matches comparison opens its query, and no
  -- query is empty. `first` is the source's `fullQuery`.
  abbrev mutual
    pub IsSupported : Bool → Filter → Type 0
    IsSupported first end = first ≡ false
    IsSupported first (clause c f) = IsSupportedClause first c × IsSupported false f

    pub IsSupportedClause : Bool → Clause → Type 0
    IsSupportedClause first (compare k comparator values) =
        IsSupportedCompare first (to_lower k) comparator values
    IsSupportedClause first (and_filters subs) = IsSupportedAll first subs
    IsSupportedClause first (or_filters subs) = IsSupportedAny subs
    IsSupportedClause first (other_operator n) = ⊥

    pub IsSupportedAll : Bool → Filters → Type 0
    IsSupportedAll first nil = first ≡ false
    IsSupportedAll first (cons sub subs) = IsSupported first sub × IsSupportedAll false subs

    pub IsSupportedAny : Filters → Type 0
    IsSupportedAny nil = Unit
    IsSupportedAny (cons sub subs) = IsSupported true sub × IsSupportedAny subs
