-- ===== src/Memory/Store.antt =====
-- manipmemory/manipulator.go: the operations of `memdbManipulator` and its transactions. memdb,
-- the deep copy and the objects' methods are parameters. A registered transaction is held by the
-- registry alone, so what an operation does to it is written back there. A transaction is of the
-- database that it was opened on: `generation` numbers the databases that `Flush` puts in place.
pub mod Failures
pub mod Transactions
pub mod LostWrites
pub mod Objects
pub mod Counting
use manipulate.Prelude.{
  ℕ, ◌+◌, String, ◌<>◌, Bool, true, false, Option, none, some, List, [], ◌∷◌, ◌++◌, map,
}
use manipulate.Prelude.{if◌then◌else◌, ◌==◌, eqb, length}
use manipulate.Prelude.Dict
use manipulate.Prelude.Dict.{Dict, lookup, insert, remove}
use manipulate.Errors.{
  Error, foreign, typed, cannot_execute_query, object_not_found, cannot_commit, not_implemented,
  Result, ok, err, panic, ◌>>=◌,
}
use manipulate.Filter.{Value, Filter, Comparator}
use manipulate.Context.{Types, Context}
use manipulate.Memory.Backend.{MemDb, Elemental, Write, creation, modification, deletion}
use manipulate.Memory.Query.{Source, execute_error, retrieve_from_filter}

module _ {T : Types} (memdb : MemDb T.Identifiable) (elemental : Elemental T) where
  open memdb use {Schema, Db, Txn}
  open elemental use {category, identifier, set_identifier, deep_copy, new_object_id, tree}

  -- A transaction and the generation of its database.
  pub record Handle : Type 0 where
    pub generation : ℕ
    pub txn : Txn

  pub record Manipulator : Type 0 where
    pub db : Db
    pub generation : ℕ
    pub schema : Schema
    pub registry : Dict Handle
    pub no_copy : Bool
    pub minted : ℕ

  -- How an operation ends: what it returns, its object, and the manipulator after it.
  pub record Ended : Type 0 where
    pub outcome : Result (Unit {0})
    pub object : T.Identifiable
    pub manipulator : Manipulator

  -- New, after the schema is made.
  unfoldable pub new : Schema → Bool → Result Manipulator
  new schema no_copy = do
    db ← memdb.new_db schema
    ok (record {
      db = db;
      generation = 0;
      schema = schema;
      registry = [];
      no_copy = no_copy;
      minted = 0;
    })

  unfoldable pub flush : Manipulator → Result Manipulator
  flush m = do db ← memdb.new_db m.schema; ok (record m { db = db; generation = m.generation + 1 })

  -- The transaction of a context, where no context is as a new one.
  unfoldable pub transaction_id_of : Option (Context T) → String
  transaction_id_of none = ""
  transaction_id_of (some mctx) = mctx.transaction_id

  unfoldable pub registered : Manipulator → String → Option Handle
  registered m tid = lookup tid m.registry

  unfoldable pub open_txn : Manipulator → Handle
  open_txn m = record { generation = m.generation; txn = memdb.begin m.db }

  unfoldable pub register_txn : String → Handle → Manipulator → Manipulator
  register_txn tid h m = record m { registry = insert tid h m.registry }

  unfoldable pub unregister_txn : String → Manipulator → Manipulator
  unregister_txn tid m = record m { registry = remove tid m.registry }

  abbrev or_register : String → Option Handle → Manipulator → Handle × Manipulator
  or_register tid (some h) m = (h, m)
  or_register tid none m = (open_txn m, register_txn tid (open_txn m) m)

  unfoldable pub txn_for_id : String → Manipulator → Handle × Manipulator
  unfolding registered open_txn register_txn
  txn_for_id tid m = if tid == "" then (open_txn m, m) else or_register tid (registered m tid) m

  -- A commit publishes in the manipulator's database unless it was replaced since.
  unfoldable pub publish : Handle → Manipulator → Manipulator
  publish h m =
      if eqb h.generation m.generation then record m { db = (memdb.commit h.txn m.db).1 } else m

  -- What was done to a registered transaction is seen through the registry.
  abbrev write_back : String → Handle → Manipulator → Manipulator
  write_back tid h m = if tid == "" then m else register_txn tid h m

  -- `defer txn.Abort()`, which runs whatever way the operation ends.
  unfoldable pub deferred_abort : String → Handle → Manipulator → Manipulator
  unfolding register_txn
  deferred_abort tid h m = write_back tid (record h { txn = memdb.abort h.txn }) m

  -- `if tid == "" { txn.Commit() }`
  unfoldable pub commit_own : String → Handle → Manipulator → Manipulator
  unfolding publish
  commit_own tid h m = if tid == "" then publish h m else m

  -- The end of a write: the error that it returns, or the commit.
  unfoldable pub end_write :
      (Error → Error) → String → Handle → T.Identifiable → Result (Unit {0}) → Manipulator → Ended
  unfolding deferred_abort commit_own
  end_write as_error tid h object (ok _) m = record {
    outcome = ok tt;
    object = object;
    manipulator = deferred_abort tid h (commit_own tid h m);
  }
  end_write as_error tid h object (err e) m = record {
    outcome = err (as_error e);
    object = object;
    manipulator = deferred_abort tid h m;
  }
  end_write as_error tid h object panic m = record {
    outcome = panic;
    object = object;
    manipulator = deferred_abort tid h m;
  }

  unfoldable pub copy_unless : Bool → T.Identifiable → Result T.Identifiable
  copy_unless no_copy object = if no_copy then ok object else deep_copy object

  -- `if object.Identifier() == "" { object.SetIdentifier(bson.NewObjectId().Hex()) }`
  unfoldable pub with_identifier : T.Identifiable → Manipulator → T.Identifiable × Manipulator
  with_identifier object m =
      if identifier object == ""
      then (set_identifier (new_object_id m.minted) object, record m { minted = m.minted + 1 })
      else (object, m)

  -- The copy and the insertion of `Create` and `Update`.
  unfoldable pub store :
      String → Handle → T.Identifiable → Result T.Identifiable → Manipulator → Ended
  unfolding end_write
  store tid h object (ok cp) m =
      let (r, t) = memdb.txn_insert h.txn (category object) cp in
      end_write (typed cannot_execute_query) tid (record h { txn = t }) object r m
  store tid h object (err e) m = end_write (typed cannot_execute_query) tid h object (err e) m
  store tid h object panic m = end_write (typed cannot_execute_query) tid h object panic m

  unfoldable pub create : Option (Context T) → T.Identifiable → Manipulator → Ended
  unfolding transaction_id_of txn_for_id with_identifier copy_unless store
  create mctx object m =
      let tid = transaction_id_of mctx in
      let (h, m1) = txn_for_id tid m in
      let (object', m2) = with_identifier object m1 in
      store tid h object' (copy_unless m2.no_copy object') m2

  -- `Update` looks the object up first, and takes an error as an absent object.
  abbrev update_found :
      String → Handle → T.Identifiable → Result (List T.Identifiable) → Manipulator → Ended
  update_found tid h object (ok (o ∷ found)) m = store tid h object (copy_unless m.no_copy object) m
  update_found tid h object panic m = end_write (typed object_not_found) tid h object panic m
  update_found tid h object _ m =
      end_write (typed object_not_found) tid h object
        (err (foreign "Cannot find object with given ID")) m

  unfoldable pub update : Option (Context T) → T.Identifiable → Manipulator → Ended
  unfolding transaction_id_of txn_for_id copy_unless store
  update mctx object m =
      let tid = transaction_id_of mctx in
      let (h, m1) = txn_for_id tid m in
      update_found tid h object (memdb.txn_get h.txn (category object) "id" (identifier object)) m1

  abbrev delete_error : Error → Error
  delete_error e =
      if memdb.is_not_found e then typed object_not_found e else typed cannot_execute_query e

  unfoldable pub delete : Option (Context T) → T.Identifiable → Manipulator → Ended
  unfolding transaction_id_of txn_for_id end_write
  delete mctx object m =
      let tid = transaction_id_of mctx in
      let (h, m1) = txn_for_id tid m in
      let (r, t) = memdb.txn_delete h.txn (category object) object in
      end_write delete_error tid (record h { txn = t }) object r m1

  abbrev pub perform : Write T → Option (Context T) → Manipulator → Ended
  perform (creation o) mctx m = create mctx o m
  perform (modification o) mctx m = update mctx o m
  perform (deletion o) mctx m = delete mctx o m

  abbrev commit_handle : String → Option Handle → Manipulator → Result (Unit {0}) × Manipulator
  commit_handle tid none m =
      (err (typed cannot_commit (foreign ("Cannot find transaction: " <> tid <> " "))), m)
  commit_handle tid (some h) m = (ok tt, unregister_txn tid (publish h m))

  unfoldable pub commit : String → Manipulator → Result (Unit {0}) × Manipulator
  unfolding registered publish unregister_txn
  commit tid m = commit_handle tid (registered m tid) m

  abbrev abort_handle : String → Option Handle → Manipulator → Bool × Manipulator
  abort_handle tid none m = (false, m)
  abort_handle tid (some h) m = (true, unregister_txn tid m)

  unfoldable pub abort : String → Manipulator → Bool × Manipulator
  unfolding registered unregister_txn
  abort tid m = abort_handle tid (registered m tid) m

  -- `first` of the index `id`, and the object that `Retrieve` writes into its argument.
  abbrev found_object : Bool → Option T.Identifiable → Result T.Identifiable
  found_object no_copy none =
      err (typed object_not_found (foreign "cannot find the object for the given ID"))
  found_object no_copy (some raw) = execute_error (copy_unless no_copy raw)

  unfoldable pub retrieve : T.Identifiable → Manipulator → Result T.Identifiable
  unfolding copy_unless
  retrieve object m = do
    raw ← execute_error (memdb.first m.db (category object) "id" (identifier object))
    found_object m.no_copy raw

  -- What `retrieveFromFilter` reads of one table.
  abbrev source_of : String → Manipulator → Source T.Identifiable
  source_of table m = record {
    get = memdb.get m.db table;
    copied = copy_unless m.no_copy;
    identifier = identifier;
    comparator_number = elemental.comparator_number;
  }

  abbrev filter_of : Option (Context T) → Option Filter
  filter_of none = none
  filter_of (some mctx) = elim mctx.filter [ none ↦ none | some f ↦ some (tree f) ]

  -- The objects are appended to `dest` in the order of the map, which Go leaves open.
  unfoldable pub retrieve_many :
      Option (Context T) → String → List T.Identifiable → Manipulator → Result (List T.Identifiable)
  unfolding copy_unless
  retrieve_many mctx table dest m = do
    items ← retrieve_from_filter (source_of table m) (filter_of mctx) [] true
    ok (dest ++ map (λ (k, o). o) items)

  -- A nil context is a nil pointer that is read.
  unfoldable pub count : Option (Context T) → String → Manipulator → Result ℕ
  unfolding copy_unless
  count none table m = panic
  count (some mctx) table m = do
    items ← retrieve_from_filter (source_of table m) (filter_of (some mctx)) [] true
    ok (length items)

  unfoldable pub delete_many : Result (Unit {0})
  delete_many = err (typed not_implemented (foreign "DeleteMany not implemented in manipmemory"))
