-- ===== src/Memory/Backend.antt =====
-- What the store uses: go-memdb, elemental's objects and filters, and the deep copy.
use manipulate.Prelude.{ℕ, String, Bool, Option, List}
use manipulate.Errors.{Error, Result}
use manipulate.Filter.{Value, Filter, Comparator}
use manipulate.Context.{Types}

-- A schema, a database and a transaction of memdb, and its methods. `get` and `first` are those of
-- a read transaction of the database; a result is drained into a list. `commit` also gives the
-- database after it.
pub record MemDb (Object : Type 0) : Type 1 where
  pub Schema : Type 0
  pub Db : Type 0
  pub Txn : Type 0
  pub new_db : Schema → Result Db
  pub get : Db → String → String → Option Value → Result (List Object)
  pub first : Db → String → String → String → Result (Option Object)
  pub begin : Db → Txn
  pub txn_get : Txn → String → String → String → Result (List Object)
  pub txn_insert : Txn → String → Object → Result (Unit {0}) × Txn
  pub txn_delete : Txn → String → Object → Result (Unit {0}) × Txn
  pub commit : Txn → Db → Txn × Db
  pub abort : Txn → Txn
  pub is_not_found : Error → Bool

-- The methods of an object, the deep copy, the n-th new object identifier in hexadecimal, the tree
-- of a filter, and the number of a comparator.
pub record Elemental (T : Types) : Type 0 where
  pub category : T.Identifiable → String
  pub identifier : T.Identifiable → String
  pub set_identifier : String → T.Identifiable → T.Identifiable
  pub deep_copy : T.Identifiable → Result T.Identifiable
  pub new_object_id : ℕ → String
  pub tree : T.Filter → Filter
  pub comparator_number : Comparator → ℕ

-- The three writes, to speak of them together.
pub data Write (T : Types) : Type 0 where
  creation modification deletion : T.Identifiable → Write T
