-- ===== src/Memory/Store/Objects.antt =====
-- Creating and updating an object outside of transactions, and retrieving it.
use manipulate.Prelude.{
  ◌≡◌, refl, ◌∙◌, ℕ, ◌+◌, String, Bool, true, false, Option, some, arith, Bool-cases, inl, inr,
  ◌==◌, eqb,
}
use manipulate.Prelude.{if◌then◌else◌}
use manipulate.Errors.{Result, ok, err, panic, typed, cannot_execute_query}
use manipulate.Context.{Types, Context}
use manipulate.Memory.Backend.{MemDb, Elemental}
use manipulate.Memory.Store.{
  Manipulator, Ended, Handle, create, end_write, open_txn, txn_for_id, store, copy_unless,
  with_identifier, transaction_id_of, retrieve,
}

-- What the source relies on: a committed insertion is what the lookup of its identifier finds from
-- then on, and no other lookup of the table changes; the deep copy of an object equals it.
pub record IsKeyed {T : Types} (memdb : MemDb T.Identifiable) (elemental : Elemental T)
    : Type 0 where
  pub first-insert :
      (d : memdb.Db) (table : String) (o : T.Identifiable) (t : memdb.Txn) (j : String)
      → memdb.txn_insert (memdb.begin d) table o ≡ (ok tt, t)
      → memdb.first (memdb.commit t d).1 table "id" j
        ≡ (if elemental.identifier o == j then ok (some o) else memdb.first d table "id" j)
  pub copy_self : (o : T.Identifiable) → elemental.deep_copy o ≡ ok o

module _ {T : Types} (memdb : MemDb T.Identifiable) (elemental : Elemental T)
    (keyed : IsKeyed memdb elemental) where
  copy_unless_self :
      (no_copy : Bool) (o : T.Identifiable) → copy_unless memdb elemental no_copy o ≡ ok o
  unfolding copy_unless
  copy_unless_self true o = refl
  copy_unless_self false o = keyed.copy_self o

  abbrev retrieved :
      T.Identifiable → T.Identifiable → Manipulator memdb elemental → Result T.Identifiable
  retrieved object x m =
      if elemental.identifier object == elemental.identifier x
      then ok object
      else retrieve memdb elemental x m

  retrieve-committed :
      (object x : T.Identifiable) (m : Manipulator memdb elemental) (t : memdb.Txn)
      → elemental.category x ≡ elemental.category object
      → memdb.txn_insert (memdb.begin m.db) (elemental.category object) object ≡ (ok tt, t)
      → retrieve memdb elemental x (record m { db = (memdb.commit t m.db).1 })
        ≡ retrieved object x m
  unfolding retrieve
  retrieve-committed object x m t c e =
      rw
        (c, keyed.first-insert m.db (elemental.category object) object t (elemental.identifier x) e)
        elim (Bool-cases (elemental.identifier object == elemental.identifier x)) [
          | inl same ↦ rw (same, copy_unless_self m.no_copy object)
          | inr other ↦ rw other
        ]

  eqb_refl : (n : ℕ) → eqb n n ≡ true
  eqb_refl n = ground arith

  end_write-retrieved :
      (object x : T.Identifiable) (m : Manipulator memdb elemental) (r : Result (Unit {0}))
      (t : memdb.Txn)
      → elemental.category x ≡ elemental.category object
      → memdb.txn_insert (memdb.begin m.db) (elemental.category object) object ≡ (r, t)
      → (end_write memdb elemental
          (typed cannot_execute_query)
          ""
          (record { generation = m.generation; txn = t })
          object
          r
          m).outcome
        ≡ ok tt
      → retrieve memdb elemental x
          (end_write memdb elemental
            (typed cannot_execute_query)
            ""
            (record { generation = m.generation; txn = t })
            object
            r
            m).manipulator
        ≡ retrieved object x m
  unfolding end_write
  end_write-retrieved object x m (ok tt) t c e done =
      rw (eqb_refl m.generation) (retrieve-committed object x m t c e)
  end_write-retrieved object x m (err e') t c e done = cc done
  end_write-retrieved object x m panic t c e done = cc done

  store-retrieved :
      (object x : T.Identifiable) (m : Manipulator memdb elemental) (cp : Result T.Identifiable)
      → elemental.category x ≡ elemental.category object
      → cp ≡ ok object
      → (store memdb elemental "" (open_txn memdb elemental m) object cp m).outcome ≡ ok tt
      → retrieve memdb elemental x
          (store memdb elemental "" (open_txn memdb elemental m) object cp m).manipulator
        ≡ retrieved object x m
  store-retrieved object x m cp c same = rw same (
      unfold store open_txn in
      λ done.
        let (r, t) = memdb.txn_insert (memdb.begin m.db) (elemental.category object) object in
        end_write-retrieved object x m r t c refl done)

  -- A write without a transaction, of the object that it leaves in its caller's hands.
  created-retrieved :
      (object x : T.Identifiable) (m m' : Manipulator memdb elemental)
      → open_txn memdb elemental m ≡ open_txn memdb elemental m'
      → retrieve memdb elemental x m' ≡ retrieve memdb elemental x m
      → elemental.category x ≡ elemental.category object
      → (store memdb elemental ""
          (open_txn memdb elemental m)
          object
          (copy_unless memdb elemental m'.no_copy object)
          m').outcome
        ≡ ok tt
      → retrieve memdb elemental x
          (store memdb elemental ""
            (open_txn memdb elemental m)
            object
            (copy_unless memdb elemental m'.no_copy object)
            m').manipulator
        ≡ retrieved object x m
  created-retrieved object x m m' same unchanged c = rw same λ done.
      store-retrieved object x m' _ c (copy_unless_self m'.no_copy object) done ∙ rw unchanged

  -- `Create` once its context is read.
  created : String → T.Identifiable → Manipulator memdb elemental → Ended memdb elemental
  created tid object m =
      let (h, m1) = txn_for_id memdb elemental tid m in
      let (object', m2) = with_identifier memdb elemental object m1 in
      store memdb elemental tid h object' (copy_unless memdb elemental m2.no_copy object') m2

  create-created :
      (mctx : Option (Context T)) (object : T.Identifiable) (m : Manipulator memdb elemental)
      → create memdb elemental mctx object m
        ≡ created (transaction_id_of memdb elemental mctx) object m
  unfolding create created
  create-created mctx object m = refl

  abbrev IsRetrieved : T.Identifiable → Manipulator memdb elemental → Ended memdb elemental → Type 0
  IsRetrieved x m e =
      elemental.category x ≡ elemental.category e.object
      → e.outcome ≡ ok tt
      → retrieve memdb elemental x e.manipulator ≡ retrieved e.object x m

  object-store :
      (h : Handle memdb elemental) (object : T.Identifiable) (cp : Result T.Identifiable)
      (m : Manipulator memdb elemental)
      → (store memdb elemental "" h object cp m).object ≡ object
  unfolding store
  object-store h object (ok cp) m =
      object-end_write (memdb.txn_insert h.txn (elemental.category object) cp).0
    where
      object-end_write :
          (r : Result (Unit {0}))
          → (end_write memdb elemental
              (typed cannot_execute_query)
              ""
              (record h { txn = (memdb.txn_insert h.txn (elemental.category object) cp).1 })
              object
              r
              m).object
            ≡ object
      object-end_write (ok u) = refl
      object-end_write (err e) = refl
      object-end_write panic = refl
  object-store h object (err e) m = refl
  object-store h object panic m = refl

  stored-IsRetrieved :
      (object x : T.Identifiable) (m m' : Manipulator memdb elemental)
      → open_txn memdb elemental m ≡ open_txn memdb elemental m'
      → retrieve memdb elemental x m' ≡ retrieve memdb elemental x m
      → IsRetrieved x m (
          store memdb elemental ""
            (open_txn memdb elemental m)
            object
            (copy_unless memdb elemental m'.no_copy object)
            m')
  stored-IsRetrieved object x m m' same unchanged =
      rw object-store (λ c done. created-retrieved object x m m' same unchanged c done)

  created-IsRetrieved :
      (object x : T.Identifiable) (m : Manipulator memdb elemental)
      → IsRetrieved x m (created "" object m)
  unfolding created with_identifier txn_for_id
  created-IsRetrieved object x m = elim (Bool-cases (elemental.identifier object == "")) [
    | inl fresh ↦ rw fresh (
        stored-IsRetrieved _ x m (record m { minted = m.minted + 1 }) (unfold open_txn in refl)
          (unfold retrieve in refl))
    | inr named ↦ rw named (stored-IsRetrieved object x m m refl refl)
  ]

  -- Over a keyed table, after a `Create` without a transaction that succeeds: `Retrieve` of an
  -- object of the same category finds the created object, with the identifier that it has after
  -- the call, if that is the identifier asked for, and what it found before the call if not.
  pub create-retrieve :
      (mctx : Option (Context T)) (object x : T.Identifiable) (m : Manipulator memdb elemental)
      → transaction_id_of memdb elemental mctx ≡ ""
      → elemental.category x ≡ elemental.category (create memdb elemental mctx object m).object
      → (create memdb elemental mctx object m).outcome ≡ ok tt
      → retrieve memdb elemental x (create memdb elemental mctx object m).manipulator ≡ (
          if elemental.identifier (create memdb elemental mctx object m).object
            == elemental.identifier x
          then ok (create memdb elemental mctx object m).object
          else retrieve memdb elemental x m)
  create-retrieve mctx object x m own =
      rw (create-created mctx object m, own) (created-IsRetrieved object x m)
