-- ===== src/Examples/Transactions.antt =====
-- A database of items by identifier, as memdb keeps one: a transaction is a copy that a commit
-- publishes, and an ended transaction is `none`.
use manipulate.Prelude.{
  ◌≡◌, refl, ap, ◌∷◌, [], none, some, false, Option, List, String, arith, ◌==◌, if◌then◌else◌,
}
use manipulate.Prelude.Decimal.{decimal}
use manipulate.Prelude.Dict.{Dict, lookup, insert, remove, lookup-insert}
use manipulate.Errors.{Error, Result, ok, err, foreign, typed, object_not_found}
use manipulate.Memory.Backend.{MemDb, Elemental, creation, modification}
use manipulate.Memory.Store.{Manipulator, perform, create, retrieve, transaction_id_of}
use manipulate.Memory.Store.Counting.{count-retrieve_many}
use manipulate.Errors.{◌>>=◌}
use manipulate.Prelude.{length, ◌+◌}
use manipulate.Memory.Store.Failures.{perform-failed}
use manipulate.Memory.Store.Transactions.{AllAborted}
use manipulate.Memory.Store.LostWrites.{write, commit_step, here, next, Reach-db}
use manipulate.Memory.Store.Objects.{IsKeyed, create-retrieve}
use manipulate.Examples.{Item, types, request, in_transaction, apple, banana}

abbrev Items : Type 0
Items = Dict Item

abbrev all : Items → List Item
all [] = []
all ((k, o) ∷ items) = o ∷ all items

abbrev one : Option Item → List Item
one none = []
one (some o) = o ∷ []

abbrev opened : {A : Type 0} → Option Items → A → (Items → A) → A
opened none none_left f = none_left
opened (some items) none_left f = f items

abbrev ended : Error
ended = foreign "transaction ended"

abbrev inserted : Option Items → Item → Result (Unit {0}) × Option Items
inserted none o = (err ended, none)
inserted (some items) o = (ok tt, some (insert o.id o items))

abbrev deleted : Option Items → Item → Result (Unit {0}) × Option Items
deleted none o = (err ended, none)
deleted (some items) o = (ok tt, some (remove o.id items))

abbrev committed : Option Items → Items → Items
committed none d = d
committed (some items) d = items

abbrev memdb : MemDb Item
memdb = record {
  Schema = Unit {0};
  Db = Items;
  Txn = Option Items;
  new_db = λ schema. ok [];
  get = λ d table index v. ok (all d);
  first = λ d table index i. ok (lookup i d);
  begin = some;
  txn_get = λ t table index i. ok (one (lookup i (committed t [])));
  txn_insert = λ t table o. inserted t o;
  txn_delete = λ t table o. deleted t o;
  commit = λ t d. (none, committed t d);
  abort = λ t. none;
  is_not_found = λ e. false;
}

abbrev elemental : Elemental types
elemental = record {
  category = λ o. "fruits";
  identifier = λ o. o.id;
  set_identifier = λ i o. record o { id = i };
  deep_copy = λ o. ok o;
  new_object_id = decimal;
  tree = λ f. f;
  comparator_number = λ c. 0;
}

abbrev found : Option Item → Result (Option Item)
found o = ok o

committed-inserted :
    (d : Items) (o : Item) (t : Option Items) (j : String)
    → inserted (some d) o ≡ (ok tt, t)
    → found (lookup j (committed t d)) ≡ (if o.id == j then ok (some o) else ok (lookup j d))
committed-inserted d o t j e = rw (← ap (λ p. p.1) e) (ground (arith, lookup-insert o.id j o d))

keyed : IsKeyed memdb elemental
keyed = record {
  first-insert = λ d table o t j e. committed-inserted d o t j e;
  copy_self = λ o. refl;
}

-- A manipulator that holds one item.
abbrev stocked : Manipulator memdb elemental
stocked = record {
  db = ("a", apple) ∷ [];
  generation = 0;
  schema = tt;
  registry = [];
  no_copy = false;
  minted = 0;
}

create-retrieve_example :
    retrieve memdb elemental banana
      (create memdb elemental (some request) banana stocked).manipulator
    ≡ (if elemental.identifier (create memdb elemental (some request) banana stocked).object
          == elemental.identifier banana
        then ok (create memdb elemental (some request) banana stocked).object
        else retrieve memdb elemental banana stocked)
unfolding create transaction_id_of
create-retrieve_example =
    create-retrieve memdb elemental keyed (some request) banana banana stocked refl refl refl

-- The item is not in the database.
refused :
    (perform memdb elemental (modification banana) (some request) stocked).outcome
    ≡ err (typed object_not_found (foreign "Cannot find object with given ID"))
unfolding manipulate.Memory.Store.update lookup
refused = refl

perform-failed_example :
    (perform memdb elemental (modification banana) (some request) stocked).manipulator.db
    ≡ ("a", apple) ∷ []
perform-failed_example =
    perform-failed memdb elemental (modification banana) (some request) stocked
      (rw refused (λ e. cc e))

abbrev written : Manipulator memdb elemental
written = (perform memdb elemental (creation banana) (some in_transaction) stocked).manipulator

stocked-AllAborted : AllAborted memdb elemental stocked
unfolding lookup
stocked-AllAborted tid h e = cc e

Reach-db_example :
    AllAborted memdb elemental (manipulate.Memory.Store.commit memdb elemental "t1" written).1
    × ((manipulate.Memory.Store.commit memdb elemental "t1" written).1.db ≡ stocked.db)
unfolding transaction_id_of
Reach-db_example =
    Reach-db memdb elemental (λ t d. refl) stocked-AllAborted
      (next (next here (write (creation banana) (some in_transaction) stocked (λ e. cc e)))
        (commit_step "t1" written))

-- The commit returns no error, and the item is not in the database.
lost_write : (manipulate.Memory.Store.commit memdb elemental "t1" written).0 ≡ ok tt
unfolding manipulate.Memory.Store.commit create lookup insert
lost_write = refl

count-retrieve_many_example :
    (manipulate.Memory.Store.retrieve_many memdb elemental
        (some request)
        "fruits"
        (banana ∷ [])
        stocked
      >>= λ objects. ok (length objects))
    ≡ (manipulate.Memory.Store.count memdb elemental (some request) "fruits" stocked >>= λ n.
        ok (1 + n))
count-retrieve_many_example =
    count-retrieve_many memdb elemental request "fruits" (banana ∷ []) stocked
