-- ===== src/Memory/Store/LostWrites.antt =====
-- What is left of the writes of transactions: the deferred abort of each write ends the registered
-- transaction, and a commit of an ended transaction does nothing.
use manipulate.Prelude.{
  ◌≡◌, ◌≢◌, refl, ◌∙◌, sym, ap, String, Option, none, some, arith, Bool-cases, inl, inr, ◌==◌,
  Option-cases, eqb,
}
use manipulate.Prelude.Dict.{lookup, remove, lookup-remove}
use manipulate.Context.{Types, Context}
use manipulate.Memory.Backend.{MemDb, Elemental, Write}
use manipulate.Memory.Store.{
  Manipulator, Handle, transaction_id_of, perform, commit, abort, commit_handle, abort_handle,
  publish, unregister_txn,
}
use manipulate.Memory.Store.Transactions.{AllAborted, perform-Leaves, Leaves-AllAborted}

module _ {T : Types} (memdb : MemDb T.Identifiable) (elemental : Elemental T) where
  -- The steps of clients that use transactions: a write whose context has one, a commit and an
  -- abort.
  pub data Step : Manipulator memdb elemental → Manipulator memdb elemental → Type 0 where
    write :
        (w : Write T) (mctx : Option (Context T)) (m : Manipulator memdb elemental)
        → transaction_id_of memdb elemental mctx ≢ ""
        → Step m (perform memdb elemental w mctx m).manipulator
    commit_step :
        (tid : String) (m : Manipulator memdb elemental) → Step m (commit memdb elemental tid m).1
    abort_step :
        (tid : String) (m : Manipulator memdb elemental) → Step m (abort memdb elemental tid m).1

  pub data Reach (m : Manipulator memdb elemental) : Manipulator memdb elemental → Type 0 where
    here : Reach m m
    next : {m1 m2 : Manipulator memdb elemental} → Reach m m1 → Step m1 m2 → Reach m m2

  AllAborted-remove :
      (tid : String) (m m' : Manipulator memdb elemental)
      → m'.registry ≡ remove tid m.registry
      → AllAborted memdb elemental m
      → AllAborted memdb elemental m'
  AllAborted-remove tid m m' e a j h found = elim (Bool-cases (tid == j)) [
    | inl same ↦ cc (sym found ∙ ap (lookup j) e ∙ lookup-remove tid j m.registry, same)
    | inr other ↦ a j h (ground (arith, lookup-remove tid j m.registry, found, ap (lookup j) e))
  ]

  commit-found :
      (tid : String) (m : Manipulator memdb elemental) (o : Option (Handle memdb elemental))
      → lookup tid m.registry ≡ o
      → commit memdb elemental tid m ≡ commit_handle memdb elemental tid o m
  unfolding commit
  commit-found tid m o e = ap (λ found. commit_handle memdb elemental tid found m) e

  abort-found :
      (tid : String) (m : Manipulator memdb elemental) (o : Option (Handle memdb elemental))
      → lookup tid m.registry ≡ o
      → abort memdb elemental tid m ≡ abort_handle memdb elemental tid o m
  unfolding abort
  abort-found tid m o e = ap (λ found. abort_handle memdb elemental tid found m) e

  unregister-Keeps :
      (tid : String) (m : Manipulator memdb elemental)
      → AllAborted memdb elemental m
      → AllAborted memdb elemental (unregister_txn memdb elemental tid m)
        × ((unregister_txn memdb elemental tid m).db ≡ m.db)
  unfolding unregister_txn
  unregister-Keeps tid m a =
      (AllAborted-remove tid m (unregister_txn memdb elemental tid m) refl a, refl)

  -- What a step keeps: the aborted transactions, and the database.
  abbrev Keeps : Manipulator memdb elemental → Manipulator memdb elemental → Type 0
  Keeps m m' = AllAborted memdb elemental m' × (m'.db ≡ m.db)

  abort-Keeps :
      (tid : String) (m : Manipulator memdb elemental)
      → AllAborted memdb elemental m
      → Keeps m (abort memdb elemental tid m).1
  abort-Keeps tid m a = elim (Option-cases (lookup tid m.registry)) [
    | inl e ↦ rw (abort-found tid m none e) (a, refl)
    | inr (h, e) ↦ rw (abort-found tid m (some h) e) (unregister-Keeps tid m a)
  ]

  module _
      (commit_aborted : (t : memdb.Txn) (d : memdb.Db)
        → (memdb.commit (memdb.abort t) d).1 ≡ d) where
    publish_aborted :
        (h : Handle memdb elemental) (m : Manipulator memdb elemental) (t : memdb.Txn)
        → h.txn ≡ memdb.abort t
        → publish memdb elemental h m ≡ m
    unfolding publish
    publish_aborted h m t e = elim (Bool-cases (eqb h.generation m.generation)) [
      | inl same ↦ rw (same, e) (ap (λ d. record m { db = d }) (commit_aborted t m.db))
      | inr other ↦ rw other
    ]

    commit-Keeps :
        (tid : String) (m : Manipulator memdb elemental)
        → AllAborted memdb elemental m
        → Keeps m (commit memdb elemental tid m).1
    commit-Keeps tid m a = elim (Option-cases (lookup tid m.registry)) [
      | inl e ↦ rw (commit-found tid m none e) (a, refl)
      | inr (h, e) ↦
          let (t, aborted) = a tid h e in
          rw (commit-found tid m (some h) e, publish_aborted h m t aborted)
            (unregister-Keeps tid m a)
    ]

    Step-Keeps :
        {m m' : Manipulator memdb elemental} → Step m m' → AllAborted memdb elemental m → Keeps m m'
    Step-Keeps (write w mctx m n) a =
        let l = perform-Leaves memdb elemental w mctx m n in
        (Leaves-AllAborted memdb elemental (transaction_id_of memdb elemental mctx) l a, l.same_db)
    Step-Keeps (commit_step tid m) a = commit-Keeps tid m a
    Step-Keeps (abort_step tid m) a = abort-Keeps tid m a

    -- Where memdb ignores the commit of an aborted transaction: from a manipulator whose registered
    -- transactions, if any, are aborted, no sequence of writes with transaction identifiers, of
    -- commits and of aborts changes the database, and the registered transactions stay aborted.
    pub Reach-db :
        {m m' : Manipulator memdb elemental}
        → AllAborted memdb elemental m
        → Reach m m'
        → AllAborted memdb elemental m' × (m'.db ≡ m.db)
    Reach-db a here = (a, refl)
    Reach-db a (next r st) =
        let (a1, e1) = Reach-db a r in let (a2, e2) = Step-Keeps st a1 in (a2, e2 ∙ e1)
