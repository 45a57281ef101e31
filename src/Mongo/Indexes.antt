-- ===== src/Mongo/Indexes.antt =====
-- manipmongo/helpers.go: `CreateIndex`, `EnsureIndex`, `DeleteIndex` and `DoesDatabaseExist`. The
-- calls of mgo are parameters; `S` is the state of the database.
pub mod Scope
use manipulate.Prelude.{
  ℕ, ◌+◌, ◌/◌, String, ◌<>◌, Bool, false, ◌||◌, Option, none, some, List, [], ◌∷◌, ◌==◌, ◌⊎◌, inl,
  inr, ltb, if◌then◌else◌,
}
use manipulate.Prelude.Decimal.{decimal}
use manipulate.Prelude.Text.{includes}
use manipulate.Errors.{Error, foreign, message}

-- mgo.Index, as far as the code reads it; `rest` is what it only passes on. The expiry is in
-- nanoseconds.
pub record Index (Rest : Type 0) : Type 0 where
  pub name : String
  pub expire_after : ℕ
  pub rest : Rest

-- collection.EnsureIndex, collection.DropIndexName and the command collMod, which is given a name
-- and a number of seconds.
pub record Collection (Rest S : Type 0) : Type 0 where
  pub ensure : Index Rest → S → Option Error × S
  pub drop : String → S → Option Error × S
  pub col_mod : String → ℕ → S → Option Error × S

module _ {Rest S : Type 0} (collection : Collection Rest S) where
  open collection use {ensure, drop, col_mod}

  -- An index without a name gets one from its number.
  abbrev pub named : String → ℕ → Index Rest → Index Rest
  named identity i index =
      if index.name == ""
      then record index { name = "index_" <> identity <> "_" <> decimal i }
      else index

  abbrev pub or_error : String → Option Error × S → Option Error × S
  or_error text (none, s) = (none, s)
  or_error text (some e, s) = (some (foreign (text <> message e)), s)

  abbrev pub recreated : Index Rest → Option Error × S → Option Error × S
  recreated index (some e, s) = (some (foreign ("cannot delete previous index: " <> message e)), s)
  recreated index (none, s) =
      or_error ("unable to ensure index after dropping old one '" <> index.name <> "': ")
        (ensure index s)

  -- An index that exists with other options: its expiry is changed, or it is made anew.
  unfoldable pub replace_index : Index Rest → S → Option Error × S
  replace_index index s =
      if ltb 0 index.expire_after
      then or_error "cannot update TTL index: "
          (col_mod index.name (index.expire_after / 1_000_000_000) s)
      else recreated index (drop index.name s)

  abbrev pub after_ensure : Index Rest → Option Error × S → Option Error × S
  after_ensure index (none, s) = (none, s)
  after_ensure index (some e, s) =
      if includes (message e) "already exists with different options"
      then replace_index index s
      else (some (foreign ("unable to ensure index '" <> index.name <> "': " <> message e)), s)

  -- The body of the loop of `EnsureIndex`.
  unfoldable pub ensure_one : Index Rest → S → Option Error × S
  unfolding replace_index includes
  ensure_one index s = after_ensure index (ensure index s)

  abbrev pub unless_failed : Option Error × S → (S → Option Error × S) → Option Error × S
  unless_failed (some e, s) next = (some e, s)
  unless_failed (none, s) next = next s

  -- The loop from the index numbered `i` on.
  unfoldable pub ensure_from : String → ℕ → List (Index Rest) → S → Option Error × S
  unfolding ensure_one decimal
  ensure_from identity i [] s = (none, s)
  ensure_from identity i (index ∷ indexes) s =
      unless_failed (ensure_one (named identity i index) s)
        λ t. ensure_from identity (i + 1) indexes t

  -- The indexes from the one numbered `i` on, with their names.
  unfoldable pub named_from : String → ℕ → List (Index Rest) → List (Index Rest)
  unfolding decimal
  named_from identity i [] = []
  named_from identity i (index ∷ indexes) =
      named identity i index ∷ named_from identity (i + 1) indexes

  unfoldable pub ensure_index : String → List (Index Rest) → S → Option Error × S
  unfolding ensure_from
  ensure_index identity indexes s = ensure_from identity 0 indexes s

  unfoldable pub create_from : String → ℕ → List (Index Rest) → S → Option Error × S
  unfolding decimal
  create_from identity i [] s = (none, s)
  create_from identity i (index ∷ indexes) s =
      let n = named identity i index in
      unless_failed (or_error ("unable to ensure index '" <> n.name <> "': ") (ensure n s))
        λ t. create_from identity (i + 1) indexes t

  unfoldable pub create_index : String → List (Index Rest) → S → Option Error × S
  unfolding create_from
  create_index identity indexes s = create_from identity 0 indexes s

  unfoldable pub delete_index : List String → S → Option Error × S
  delete_index [] s = (none, s)
  delete_index (name ∷ names) s = unless_failed (drop name s) λ t. delete_index names t

-- `DoesDatabaseExist`, by the answer to the question for the names of the databases.
unfoldable pub is_among : String → List String → Bool
is_among name [] = false
is_among name (db ∷ dbs) = db == name || is_among name dbs

unfoldable pub does_database_exist : String → Error ⊎ List String → Error ⊎ Bool
unfolding is_among
does_database_exist name (inl e) = inl e
does_database_exist name (inr dbs) = inr (is_among name dbs)
