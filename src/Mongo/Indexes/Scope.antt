-- ===== src/Mongo/Indexes/Scope.antt =====
-- Which indexes of the collection `EnsureIndex` changes.
use manipulate.Prelude.{ℕ, ◌≡◌, ◌≢◌, String, Option}
use manipulate.Errors.{Error}
use manipulate.Mongo.Indexes.{Index, Collection}

-- The documented scope of the calls, for a collection whose indexes `index_of` gives by name: each
-- changes the index of the name that it is given at most, whether it returns an error or not.
pub record IsCollection {Rest S : Type 0} (collection : Collection Rest S)
    (index_of : String → S → Option (Index Rest)) : Type 0 where
  pub ensure_others :
      (i : Index Rest) (name : String) (s : S)
      → i.name ≢ name
      → index_of name (collection.ensure i s).1 ≡ index_of name s
  pub drop_others :
      (dropped name : String) (s : S)
      → dropped ≢ name
      → index_of name (collection.drop dropped s).1 ≡ index_of name s
  pub modify_others :
      (changed name : String) (seconds : ℕ) (s : S)
      → changed ≢ name
      → index_of name (collection.col_mod changed seconds s).1 ≡ index_of name s

module _ {Rest S : Type 0} (collection : Collection Rest S)
    (index_of : String → S → Option (Index Rest)) (is : IsCollection collection index_of) where
  -- The index of another name is as it was.
  abbrev pub Keeps : String → S → Option Error × S → Type 0
  Keeps name s p = index_of name p.1 ≡ index_of name s
