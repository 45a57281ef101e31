-- ===== src/Mongo/Writes.antt =====
-- manipmongo/manipulator.go: `Create`, `Update` and `Delete`. The collection, the finalizers, the
-- encrypters and the sharder are parameters; `S` is the state of the database. Tracing and sessions
-- are not modelled.
pub mod Objects
use manipulate.Prelude.{
  ℕ, zero, String, Bool, true, false, Option, none, some, List, [], ◌∷◌, if◌then◌else◌, ◌==◌,
}
use manipulate.Prelude.Dict.{Dict, lookup, insert}
use manipulate.Context.{Context}
use manipulate.Errors.{
  Error, Result, ok, err, panic, ◌>>=◌, typed, foreign, wrapped, cannot_build_query,
}
use manipulate.Mongo.Bson
use manipulate.Mongo.Bson.{Bson, document, Document, field, single}
use manipulate.Mongo.Failures.{Driver}
use manipulate.Mongo.Retry.{Answer, Outcome, returned, running, World, run_query}
use manipulate.Mongo.Queries
use manipulate.Mongo.Queries.{
  Request, Opaque, operations, not_operations, Operation, Sharder, Settings, restricted, shard_one,
  write_document, filter_or,
}

-- EncryptAttributes and DecryptAttributes of an object, which may fail in the middle.
pub record Encrypter (Object : Type 0) : Type 0 where
  pub encrypt : Object → Option Error × Object
  pub decrypt : Object → Option Error × Object

-- What an operation of an update is: the object, or a value that the request gives.
pub data Change (Object : Type 0) : Type 0 where
  whole : Object → Change Object
  part : Bson → Change Object

-- The operations of the collection, by the number of the try. `upsert` answers the text of the
-- identifier of a document that it inserted.
pub record Collection (Object S : Type 0) : Type 0 where
  pub insert_one : Object → ℕ → S → Answer Unit × S
  pub upsert_one : Document → Dict (Change Object) → ℕ → S → Answer (Option String) × S
  pub update_one : Document → Object → ℕ → S → Answer Unit × S
  pub remove_one : Document → ℕ → S → Answer Unit × S

-- How an operation ends, with the object as the caller has it then.
pub data Ended (Object S : Type 0) : Type 0 where
  ended : Option Error → Object → S → Ended Object S
  panicked : Ended Object S
  not_ended : S → Ended Object S

-- return manipulate.ErrCannotBuildQuery{Err: fmt.Errorf("<text>: %w", err)}, if there is an error.
abbrev pub cannot_build : String → Option Error → Option Error
cannot_build text none = none
cannot_build text (some e) = some (typed cannot_build_query (wrapped text e))

module _ {Object S : Type 0} where
  infixl 20 ◌and_then◌
  abbrev pub ◌and_then◌ : Ended Object S → (Object → S → Ended Object S) → Ended Object S
  ended none o s and_then next = next o s
  ended (some e) o s and_then next = ended (some e) o s
  panicked and_then next = panicked
  not_ended s and_then next = not_ended s

  abbrev pub changed : String → Option Error × Object → S → Ended Object S
  changed text (e, o) s = ended (cannot_build text e) o s

  abbrev pub encrypted : String → Option (Encrypter Object) → Object → S → Ended Object S
  encrypted text none o s = ended none o s
  encrypted text (some encrypter) o s = changed text (encrypter.encrypt o) s

  abbrev pub decrypted : String → Option (Encrypter Object) → Object → S → Ended Object S
  decrypted text none o s = ended none o s
  decrypted text (some encrypter) o s = changed text (encrypter.decrypt o) s

  abbrev finalized : Option (Object → Option Error × Object) → Object → S → Ended Object S
  finalized none o s = ended none o s
  finalized (some f) o s = let (e, o') = f o in ended e o' s

  abbrev sharded_object : Option (Sharder Object) → Request Object → Object → S → Ended Object S
  sharded_object none c o s = ended none o s
  sharded_object (some sharder) c o s =
      changed "unable to execute sharder.Shard" (sharder.shard c o) s

  abbrev noticed :
      String → Operation → Option (Sharder Object) → Request Object → Object → S → Ended Object S
  noticed text operation none c o s = ended none o s
  noticed text operation (some sharder) c o s =
      ended (cannot_build text (sharder.on_sharded_write c operation o)) o s

  -- The end of RunQuery, where the object takes what the operation returned.
  abbrev pub answered :
      {Out : Type 0} → (Out → Object → Object) → Object → Outcome Out S → Ended Object S
  answered keep o (running s) = not_ended s
  answered keep o (returned out (some e) waits s) = ended (some e) o s
  answered keep o (returned none none waits s) = ended none o s
  answered keep o (returned (some out) none waits s) = ended none (keep out o) s

-- base[k] = v
unfoldable pub set_field : String → Bson → Document → Document
set_field k v Bson.end = single k v
set_field k v (field k' b d) =
    let rest = set_field k v d in if k' == k then field k v d else field k' b rest

unfoldable pub set_fields : Document → Document → Document
unfolding set_field
set_fields Bson.end base = base
set_fields (field k b d) base = set_fields d (set_field k b base)

-- The `$setOnInsert` of the request, added to the base, where a value that is no bson.M panics.
abbrev set_on_insert : Document → Bson → Result Document
set_on_insert base (document d) = ok (set_fields d base)
set_on_insert base _ = panic

unfoldable pub find_field : String → Document → Option Bson
find_field k Bson.end = none
find_field k (field k' b d) = if k' == k then some b else find_field k d

abbrev on_insert_or : Document → Option Bson → Result Document
on_insert_or base none = ok base
on_insert_or base (some b) = set_on_insert base b

module _ {Object : Type 0} where
  -- The loop over the operations of the request, but for `$setOnInsert`.
  unfoldable pub add_operations : Document → Dict (Change Object) → Dict (Change Object)
  unfolding insert
  add_operations Bson.end ops = ops
  add_operations (field k b d) ops =
      if k == "$setOnInsert" then add_operations d ops else add_operations d (insert k (part b) ops)

  unfoldable pub upsert_operations : Bson → Object → Document → Result (Dict (Change Object))
  unfolding set_fields find_field add_operations
  upsert_operations id o ops = do
    on_insert ← on_insert_or (single "_id" id) (find_field "$setOnInsert" ops)
    ok (add_operations ops (("$set", whole o) ∷ ("$setOnInsert", part (document on_insert)) ∷ []))

module _ {Object S : Type 0} (identifier : Object → String)
    (set_identifier : String → Object → Object) (reset_defaults : Object → Object) (driver : Driver)
    (settings : Settings Object) (encrypter : Option (Encrypter Object))
    (default_retry_func : Option (ℕ → Error → Option Error)) (collection : Collection Object S)
    (now fuel : ℕ) where
  abbrev world_of : Request Object → World
  world_of c = record {
    retry_func = c.retry_func;
    default_retry_func = default_retry_func;
    done = c.ctx.done;
    deadline = c.ctx.deadline;
    now = c.ctx.now;
  }

  abbrev pub kept {ℓ} : {Out : Type ℓ} → Out → Object → Object
  kept out o = o

  -- What RunQuery makes of the operation on a document, if there is a document.
  abbrev pub sent :
      Request Object
      → Result Document
      → (Document → ℕ → S → Answer Unit × S)
      → Object
      → S
      → Ended Object S
  sent c (ok d) operation o s =
      answered kept o (run_query driver (world_of c) (operation d) fuel 0 [] s)
  sent c (err e) operation o s = ended (some e) o s
  sent c panic operation o s = panicked

  unfoldable pub update : Request Object → Object → S → Ended Object S
  unfolding write_document run_query
  update c o s =
      encrypted "update: unable to encrypt attributes" encrypter o s
      and_then (λ o s.
          sent c (write_document identifier settings now c o) (λ d. collection.update_one d o) o s)
      and_then decrypted "update: unable to decrypt attributes" encrypter

  unfoldable pub delete : Request Object → Object → S → Ended Object S
  unfolding write_document run_query
  delete c o s =
      sent c (write_document identifier settings now c o) collection.remove_one o s
      and_then noticed "unable to execute sharder.OnShardedWrite for delete" Operation.delete
          settings.sharder c
      and_then (λ o s. ended none (reset_defaults o) s)

  abbrev take_identifier : Option String → Object → Object
  take_identifier none o = o
  take_identifier (some id) o = set_identifier id o

  abbrev upserted :
      Request Object → Result Document → Result (Dict (Change Object)) → Object → S → Ended Object S
  upserted c (ok d) (ok changes) o s =
      answered take_identifier o
        (run_query driver (world_of c) (collection.upsert_one d changes) fuel 0 [] s)
  upserted c (err e) (ok changes) o s = ended (some e) o s
  upserted c panic (ok changes) o s = panicked
  upserted c d (err e) o s = ended (some e) o s
  upserted c d panic o s = panicked

  -- The filter of an upsert, which is not under the forced filter.
  unfoldable pub upsert_document : Result Document → Request Object → Object → Result Document
  upsert_document nil_filter c o = do
    f ← filter_or identifier settings now nil_filter c.filter
    sq ← shard_one identifier settings now settings.sharder c o
    ok (restricted sq f)

  -- The write of `Create`, for the opaque value of the option of an upsert.
  unfoldable pub stored_by :
      Result Document → Bson → Request Object → Option Opaque → Object → S → Ended Object S
  unfolding upsert_document upsert_operations run_query
  stored_by nil_filter id c none o s =
      answered kept o (run_query driver (world_of c) (collection.insert_one o) fuel 0 [] s)
  stored_by nil_filter id c (some not_operations) o s =
      ended (some (typed cannot_build_query (foreign "upsert operations must be of type bson.M")))
        (set_identifier "" o) s
  stored_by nil_filter id c (some (operations ops)) o s =
      let o' = set_identifier "" o in
      upserted c (upsert_document nil_filter c o') (upsert_operations id o' ops) o' s

  -- `Create`, where `id` is the new identifier and `text` its text.
  unfoldable pub create :
      Result Document → Bson → String → Request Object → Object → S → Ended Object S
  unfolding stored_by lookup
  create nil_filter id text c o s =
      finalized c.create_finalizer (set_identifier text o) s
      and_then sharded_object settings.sharder c
      and_then encrypted "create: unable to encrypt attributes" encrypter
      and_then stored_by nil_filter id c (lookup "manipmongo.upsert" c.opaque)
      and_then decrypted "create: unable to decrypt attributes" encrypter
      and_then noticed "unable to execute sharder.OnShardedWrite on create" Operation.create
          settings.sharder c
