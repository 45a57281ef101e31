-- ===== src/Memory/Store/Transactions.antt =====
-- Writes with a transaction identifier. Each ends with the deferred abort of the transaction that
-- it leaves registered.
use manipulate.Prelude.{
  ◌≡◌, ◌≢◌, refl, ◌∙◌, sym, String, Option, none, some, List, ◌∷◌, arith, Bool-cases, inl, inr,
  ◌==◌, eq_false, ne_of_false, eq_iff,
}
use manipulate.Prelude.Dict.{lookup, insert, lookup-insert}
use manipulate.Errors.{Error, Result, ok, err, panic, typed, cannot_execute_query, object_not_found}
use manipulate.Context.{Types, Context}
use manipulate.Memory.Backend.{MemDb, Elemental, Write, creation, modification, deletion}
use manipulate.Memory.Store.{
  Manipulator, Ended, Handle, create, update, delete, end_write, txn_for_id, store, copy_unless,
  with_identifier, transaction_id_of, register_txn, delete_error, update_found, perform,
  or_register,
}

module _ {T : Types} (memdb : MemDb T.Identifiable) (elemental : Elemental T) where
  -- Every registered transaction is an aborted one.
  abbrev pub AllAborted : Manipulator memdb elemental → Type 0
  AllAborted m =
      (tid : String) (h : Handle memdb elemental)
      → lookup tid m.registry ≡ some h
      → (t : memdb.Txn) × (h.txn ≡ memdb.abort t)

  -- What a write with a transaction leaves: the database that was there, and a registry in which
  -- that transaction is aborted.
  pub record Leaves (tid : String) (m : Manipulator memdb elemental) (e : Ended memdb elemental)
      : Type 0 where
    pub same_db : e.manipulator.db ≡ m.db
    pub others : (j : String) → tid ≢ j → lookup j e.manipulator.registry ≡ lookup j m.registry
    pub aborted :
        (h : Handle memdb elemental)
        → lookup tid e.manipulator.registry ≡ some h
        → (t : memdb.Txn) × (h.txn ≡ memdb.abort t)

  registered_abort-Leaves :
      (tid : String) (h : Handle memdb elemental) (m : Manipulator memdb elemental)
      (r : Result (Unit {0})) (o : T.Identifiable)
      → Leaves tid m (record {
        outcome = r;
        object = o;
        manipulator = record m {
          registry = insert tid (record h { txn = memdb.abort h.txn }) m.registry;
        };
      })
  registered_abort-Leaves tid h m r o = record {
    same_db = refl;
    others = λ j ne. rw (lookup-insert, eq_false tid j ne);
    aborted = λ h' e. (
      h.txn,
      ground (
        arith,
        lookup-insert tid tid (record h { txn = memdb.abort h.txn }) m.registry,
        eq_iff tid tid,
        e,
      ),
    );
  }

  end_write-Leaves :
      (as_error : Error → Error) (tid : String) (h : Handle memdb elemental)
      (object : T.Identifiable) (r : Result (Unit {0})) (m : Manipulator memdb elemental)
      → tid ≢ ""
      → Leaves tid m (end_write memdb elemental as_error tid h object r m)
  unfolding end_write
  end_write-Leaves as_error tid h object (ok u) m n =
      rw (eq_false tid "" n) (registered_abort-Leaves tid h m (ok tt) object)
  end_write-Leaves as_error tid h object (err e) m n =
      rw (eq_false tid "" n) (registered_abort-Leaves tid h m (err (as_error e)) object)
  end_write-Leaves as_error tid h object panic m n =
      rw (eq_false tid "" n) (registered_abort-Leaves tid h m panic object)

  store-Leaves :
      (tid : String) (h : Handle memdb elemental) (object : T.Identifiable)
      (cp : Result T.Identifiable) (m : Manipulator memdb elemental)
      → tid ≢ ""
      → Leaves tid m (store memdb elemental tid h object cp m)
  store-Leaves tid h object (ok cp) m n =
      unfold store in
      let (r, t) = memdb.txn_insert h.txn (elemental.category object) cp in
      end_write-Leaves (typed cannot_execute_query) tid (record h { txn = t }) object r m n
  store-Leaves tid h object (err e) m n =
      unfold store in end_write-Leaves (typed cannot_execute_query) tid h object (err e) m n
  store-Leaves tid h object panic m n =
      unfold store in end_write-Leaves (typed cannot_execute_query) tid h object panic m n

  update_found-Leaves :
      (tid : String) (h : Handle memdb elemental) (object : T.Identifiable)
      (found : Result (List T.Identifiable)) (m : Manipulator memdb elemental)
      → tid ≢ ""
      → Leaves tid m (update_found memdb elemental tid h object found m)
  update_found-Leaves tid h object (ok (o ∷ found)) m n = store-Leaves tid h object _ m n
  update_found-Leaves tid h object panic m n =
      end_write-Leaves (typed object_not_found) tid h object panic m n
  update_found-Leaves tid h object _ m n =
      end_write-Leaves (typed object_not_found) tid h object _ m n

  -- Finding or opening the transaction, and giving the object an identifier, come before.
  record Prepares (tid : String) (m m' : Manipulator memdb elemental) : Type 0 where
    same_db : m'.db ≡ m.db
    others : (j : String) → tid ≢ j → lookup j m'.registry ≡ lookup j m.registry

  or_register-Prepares :
      (tid : String) (o : Option (Handle memdb elemental)) (m : Manipulator memdb elemental)
      → Prepares tid m (or_register memdb elemental tid o m).1
  unfolding register_txn
  or_register-Prepares tid (some h) m = record { same_db = refl; others = λ j ne. refl }
  or_register-Prepares tid none m = record {
    same_db = refl;
    others = λ j ne. rw (lookup-insert, eq_false tid j ne);
  }

  txn_for_id-Prepares :
      (tid : String) (m : Manipulator memdb elemental)
      → tid ≢ ""
      → Prepares tid m (txn_for_id memdb elemental tid m).1
  unfolding txn_for_id
  txn_for_id-Prepares tid m n =
      rw (eq_false tid "" n) (or_register-Prepares tid (lookup tid m.registry) m)

  with_identifier-Prepares :
      (tid : String) (object : T.Identifiable) (m m' : Manipulator memdb elemental)
      → Prepares tid m m'
      → Prepares tid m (with_identifier memdb elemental object m').1
  unfolding with_identifier
  with_identifier-Prepares tid object m m' p =
      elim (Bool-cases (elemental.identifier object == "")) [
        | inl e ↦ rw e (record { same_db = p.same_db; others = p.others })
        | inr e ↦ rw e p
      ]

  Prepares-Leaves :
      (tid : String) {m m' : Manipulator memdb elemental} {e : Ended memdb elemental}
      → Prepares tid m m'
      → Leaves tid m' e
      → Leaves tid m e
  Prepares-Leaves tid p l = record {
    same_db = l.same_db ∙ p.same_db;
    others = λ j ne. l.others j ne ∙ p.others j ne;
    aborted = l.aborted;
  }

  pub perform-Leaves :
      (w : Write T) (mctx : Option (Context T)) (m : Manipulator memdb elemental)
      → transaction_id_of memdb elemental mctx ≢ ""
      → Leaves (transaction_id_of memdb elemental mctx) m (perform memdb elemental w mctx m)
  perform-Leaves (creation object) mctx m n =
      unfold create in
      let tid = transaction_id_of memdb elemental mctx in
      let (h, m1) = txn_for_id memdb elemental tid m in
      let (object', m2) = with_identifier memdb elemental object m1 in
      Prepares-Leaves tid (with_identifier-Prepares tid object m m1 (txn_for_id-Prepares tid m n))
        (store-Leaves tid h object' (copy_unless memdb elemental m2.no_copy object') m2 n)
  perform-Leaves (modification object) mctx m n =
      unfold update in
      let tid = transaction_id_of memdb elemental mctx in
      let (h, m1) = txn_for_id memdb elemental tid m in
      Prepares-Leaves tid (txn_for_id-Prepares tid m n) (
        update_found-Leaves tid h object
          (memdb.txn_get h.txn (elemental.category object) "id" (elemental.identifier object)) m1 n)
  perform-Leaves (deletion object) mctx m n =
      unfold delete in
      let tid = transaction_id_of memdb elemental mctx in
      let (h, m1) = txn_for_id memdb elemental tid m in
      let (r, t) = memdb.txn_delete h.txn (elemental.category object) object in
      Prepares-Leaves tid (txn_for_id-Prepares tid m n)
        (end_write-Leaves (delete_error memdb elemental) tid (record h { txn = t }) object r m1 n)

  pub Leaves-AllAborted :
      (tid : String) {m : Manipulator memdb elemental} {e : Ended memdb elemental}
      → Leaves tid m e
      → AllAborted m
      → AllAborted e.manipulator
  Leaves-AllAborted tid l a j h found = elim (Bool-cases (tid == j)) [
    | inl e ↦ l.aborted h (rw ((eq_iff tid j).0 e) found)
    | inr e ↦ a j h (sym (l.others j (ne_of_false tid j e)) ∙ found)
  ]
