-- ===== src/Memory/Store/Failures.antt =====
-- Writes that do not succeed.
use manipulate.Prelude.{◌≡◌, ◌≢◌, refl, ◌∙◌, String, Option, List, ◌∷◌, arith}
use manipulate.Errors.{Error, Result, ok, err, panic, typed, cannot_execute_query, object_not_found}
use manipulate.Context.{Types, Context}
use manipulate.Memory.Backend.{MemDb, Elemental, Write, creation, modification, deletion}
use manipulate.Memory.Store.{
  Manipulator, Handle, create, update, delete, end_write, deferred_abort, txn_for_id, store,
  copy_unless, with_identifier, transaction_id_of, delete_error, update_found, perform,
}

module _ {T : Types} (memdb : MemDb T.Identifiable) (elemental : Elemental T) where
  db-deferred_abort :
      (tid : String) (h : Handle memdb elemental) (m : Manipulator memdb elemental)
      → (deferred_abort memdb elemental tid h m).db ≡ m.db
  unfolding deferred_abort
  db-deferred_abort tid h m = ground arith

  end_write-failed :
      (as_error : Error → Error) (tid : String) (h : Handle memdb elemental)
      (object : T.Identifiable) (r : Result (Unit {0})) (m : Manipulator memdb elemental)
      → (end_write memdb elemental as_error tid h object r m).outcome ≢ ok tt
      → (end_write memdb elemental as_error tid h object r m).manipulator.db ≡ m.db
  unfolding end_write
  end_write-failed as_error tid h object (ok u) m n = absurd (n refl)
  end_write-failed as_error tid h object (err e) m n = db-deferred_abort tid h m
  end_write-failed as_error tid h object panic m n = db-deferred_abort tid h m

  store-failed :
      (tid : String) (h : Handle memdb elemental) (object : T.Identifiable)
      (cp : Result T.Identifiable) (m : Manipulator memdb elemental)
      → (store memdb elemental tid h object cp m).outcome ≢ ok tt
      → (store memdb elemental tid h object cp m).manipulator.db ≡ m.db
  unfolding store
  store-failed tid h object (ok cp) m n =
      let (r, t) = memdb.txn_insert h.txn (elemental.category object) cp in
      end_write-failed (typed cannot_execute_query) tid (record h { txn = t }) object r m n
  store-failed tid h object (err e) m n = db-deferred_abort tid h m
  store-failed tid h object panic m n = db-deferred_abort tid h m

  db-txn_for_id :
      (tid : String) (m : Manipulator memdb elemental)
      → (txn_for_id memdb elemental tid m).1.db ≡ m.db
  unfolding txn_for_id
  db-txn_for_id tid m = ground arith

  db-with_identifier :
      (object : T.Identifiable) (m : Manipulator memdb elemental)
      → (with_identifier memdb elemental object m).1.db ≡ m.db
  unfolding with_identifier
  db-with_identifier object m = ground arith

  create-failed :
      (mctx : Option (Context T)) (object : T.Identifiable) (m : Manipulator memdb elemental)
      → (create memdb elemental mctx object m).outcome ≢ ok tt
      → (create memdb elemental mctx object m).manipulator.db ≡ m.db
  create-failed mctx object m =
      unfold create in
      λ n.
        let tid = transaction_id_of memdb elemental mctx in
        let (h, m1) = txn_for_id memdb elemental tid m in
        let (object', m2) = with_identifier memdb elemental object m1 in
        store-failed tid h object' (copy_unless memdb elemental m2.no_copy object') m2 n
        ∙ db-with_identifier object m1
        ∙ db-txn_for_id tid m

  update_found-failed :
      (tid : String) (h : Handle memdb elemental) (object : T.Identifiable)
      (found : Result (List T.Identifiable)) (m : Manipulator memdb elemental)
      → (update_found memdb elemental tid h object found m).outcome ≢ ok tt
      → (update_found memdb elemental tid h object found m).manipulator.db ≡ m.db
  update_found-failed tid h object (ok (o ∷ found)) m = store-failed tid h object _ m
  update_found-failed tid h object panic m = end_write-failed _ tid h object panic m
  update_found-failed tid h object _ m = end_write-failed (typed object_not_found) tid h object _ m

  update-failed :
      (mctx : Option (Context T)) (object : T.Identifiable) (m : Manipulator memdb elemental)
      → (update memdb elemental mctx object m).outcome ≢ ok tt
      → (update memdb elemental mctx object m).manipulator.db ≡ m.db
  update-failed mctx object m =
      unfold update in
      λ n.
        let tid = transaction_id_of memdb elemental mctx in
        let (h, m1) = txn_for_id memdb elemental tid m in
        update_found-failed tid h object
          (memdb.txn_get h.txn (elemental.category object) "id" (elemental.identifier object)) m1 n
        ∙ db-txn_for_id tid m

  delete-failed :
      (mctx : Option (Context T)) (object : T.Identifiable) (m : Manipulator memdb elemental)
      → (delete memdb elemental mctx object m).outcome ≢ ok tt
      → (delete memdb elemental mctx object m).manipulator.db ≡ m.db
  delete-failed mctx object m =
      unfold delete in
      λ n.
        let tid = transaction_id_of memdb elemental mctx in
        let (h, m1) = txn_for_id memdb elemental tid m in
        let (r, t) = memdb.txn_delete h.txn (elemental.category object) object in
        end_write-failed (delete_error memdb elemental) tid (record h { txn = t }) object r m1 n
        ∙ db-txn_for_id tid m

  -- A write that returns an error or panics leaves the database as it was: a `Create`, an `Update`
  -- or a `Delete`, with a transaction or without.
  pub perform-failed :
      (w : Write T) (mctx : Option (Context T)) (m : Manipulator memdb elemental)
      → (perform memdb elemental w mctx m).outcome ≢ ok tt
      → (perform memdb elemental w mctx m).manipulator.db ≡ m.db
  perform-failed (creation o) mctx m = create-failed mctx o m
  perform-failed (modification o) mctx m = update-failed mctx o m
  perform-failed (deletion o) mctx m = delete-failed mctx o m
