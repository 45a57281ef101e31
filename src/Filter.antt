-- ===== src/Filter.antt =====
-- What the accessors of `*elemental.Filter` return (filter.go aliases the type), as a tree: one
-- clause for each index, with its operator and what the accessors hold at that index.
use manipulate.Prelude.{ℕ, String, Bool, List}
use manipulate.Prelude.Int.{ℤ}

-- The dynamic types of an `interface{}` value that the filter code tells apart.
pub data Value : Type 0 where
  null : Value
  text : String → Value
  boolean : Bool → Value
  number : ℤ → Value
  duration : ℕ → Value
  object_id : String → Value

pub data Comparator : Type 0 where
  equal not_equal greater greater_or_equal lesser lesser_or_equal : Comparator
  contained_in not_contained_in contains not_contains matches not_matches exists not_exists :
      Comparator

mutual
  -- The clauses in order.
  pub data Filter : Type 0 where
    end : Filter
    clause : Clause → Filter → Filter

  -- AndOperator with key, comparator and values; AndFilterOperator and OrFilterOperator with
  -- their filters; any other operator.
  pub data Clause : Type 0 where
    compare : String → Comparator → List Value → Clause
    and_filters : Filters → Clause
    or_filters : Filters → Clause
    other_operator : ℕ → Clause

  pub data Filters : Type 0 where
    nil : Filters
    cons : Filter → Filters → Filters
