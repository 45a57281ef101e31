-- ===== src/Mongo/Bson.antt =====
-- The values and documents of mgo's package bson that the code builds: `bson.D` is a `Document`,
-- `[]bson.D` is `Documents`, a slice of values is an `Array`. A map with one key is a `Document`.
use manipulate.Prelude.{ℕ, String, List}
use manipulate.Filter.{Value}

mutual
  pub data Bson : Type 0 where
    plain : Value → Bson
    instant : ℕ → Bson
    oid : List ℕ → Bson
    array : Array → Bson
    document : Document → Bson
    documents : Documents → Bson

  pub data Array : Type 0 where
    no_item : Array
    item : Bson → Array → Array

  pub data Document : Type 0 where
    end : Document
    field : String → Bson → Document → Document

  pub data Documents : Type 0 where
    no_document : Documents
    both : Document → Documents → Documents

-- A document with one field.
abbrev pub single : String → Bson → Document
single k v = field k v end

-- {k: {operator: v}}
abbrev pub test : String → String → Bson → Document
test k operator v = single k (document (single operator v))

unfoldable pub append : Documents → Documents → Documents
append no_document es = es
append (both d ds) es = both d (append ds es)
