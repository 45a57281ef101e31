-- ===== src/Examples.antt =====
-- Concrete parameters, and the theorems applied to them.
mod Basics
mod Iteration
mod Retrieval
mod Transactions
mod Caching
mod Upstream
mod Refreshing
mod Renewing
mod Indexing
mod Rows
mod Mongo
mod Http
mod Push
use manipulate.Prelude.{ℕ, String}
use manipulate.Context.{Types, Context, initial}
use manipulate.Filter.{Filter}

pub record Item : Type 0 where
  pub id : String
  pub rank : ℕ

abbrev pub types : Types
types = record {
  Filter = Filter;
  Identifiable = Item;
  FinalizerFunc = Unit {0};
  RetryFunc = Unit {0};
  GoContext = Unit {0};
  Value = ℕ;
}

abbrev pub request : Context types
request = initial tt

abbrev pub in_transaction : Context types
in_transaction = record (initial tt) { transaction_id = "t1" }

abbrev pub apple : Item
apple = record { id = "a"; rank = 1 }

abbrev pub banana : Item
banana = record { id = "b"; rank = 2 }

abbrev pub cherry : Item
cherry = record { id = "c"; rank = 3 }
