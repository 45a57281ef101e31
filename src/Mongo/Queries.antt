-- ===== src/Mongo/Queries.antt =====
-- manipmongo/manipulator.go: the documents and queries that the operations send. A sharder, the
-- collection and what mgo makes of a query are parameters. `now` is what the clock says, and what
-- CompileFilter does with a nil filter, where `DeleteMany` passes one, is `nil_filter`.
pub mod Restriction
use manipulate.Prelude.{
  ℕ, zero, suc, ◌+◌, ◌*◌, ◌-◌, String, true, Option, none, some, List, [], ◌∷◌, if◌then◌else◌, ◌==◌,
}
use manipulate.Prelude.Int.{ℤ, pos, negsuc, is_nonpos}
use manipulate.Prelude.Dict.{Dict}
use manipulate.Context.{Types, Context}
use manipulate.Errors.{
  Error, Result, ok, err, panic, ◌>>=◌, typed, foreign, wrapped, cannot_build_query,
}
use manipulate.Filter.{Filter}
use manipulate.ObjectId.{parse}
use manipulate.Mongo.Bson
use manipulate.Mongo.Bson.{Document, Documents, no_document, both, field, single, documents, append}
use manipulate.Mongo.Compiler.{identified, compile_filter}
use manipulate.Mongo.Failures.{Driver}
use manipulate.Mongo.Ordering.{Found, apply_ordering, make_fields_selector, prepare_next_filter}

-- The end and the deadline of Go's context, by the number of tries, and the time.
pub record Clock : Type 0 where
  pub done : ℕ → Option Error
  pub deadline : Option ℕ
  pub now : ℕ → ℕ

-- An opaque value: a `bson.M`, as a document with distinct keys, or another value.
pub data Opaque : Type 0 where
  operations : Document → Opaque
  not_operations : Opaque

abbrev MongoTypes : Type 0 → Types
MongoTypes Object = record {
  Filter = Filter;
  Identifiable = Object;
  FinalizerFunc = Object → Option Error × Object;
  RetryFunc = ℕ → Error → Option Error;
  GoContext = Clock;
  Value = Opaque;
}

abbrev pub Request : Type 0 → Type 0
Request Object = Context (MongoTypes Object)

pub data Operation : Type 0 where
  create delete : Operation

-- A `Sharder`, where a nil document is `none`. What it does to the database is not modelled.
pub record Sharder (Object : Type 0) : Type 0 where
  pub shard : Request Object → Object → Option Error × Object
  pub on_sharded_write : Request Object → Operation → Object → Option Error
  pub filter_one : Request Object → Object → Result (Option Document)
  pub filter_many : Request Object → Result (Option Document)

-- The fields of `mongoManipulator` that the documents depend on; `field_name` is the attribute
-- specifier of the identity.
pub record Settings (Object : Type 0) : Type 0 where
  pub sharder : Option (Sharder Object)
  pub forced_read_filter : Option Document
  pub field_name : Option (String → String)

pub record Query : Type 0 where
  pub filter : Document
  pub limit : Option ℕ
  pub skip : Option ℤ
  pub sort : List String
  pub select : Option (Dict ℕ)

-- bson.D{{Name: "$and", Value: []bson.D{d, filter}}}, if there is such a d.
abbrev pub restricted : Option Document → Document → Document
restricted none filter = filter
restricted (some d) filter = single "$and" (documents (both d (both filter no_document)))

abbrev sharded {ℓ} : {A : Type ℓ} → Result A → Result A
sharded (ok a) = ok a
sharded (err e) = err (typed cannot_build_query (wrapped "cannot compute sharding filter" e))
sharded panic = panic

-- append(filter, elem)
unfoldable pub append_field : Document → String → Bson.Bson → Document
append_field Bson.end k b = single k b
append_field (field k' b' d) k b = field k' b' (append_field d k b)

abbrev pub identifier_of : String → Bson.Bson
identifier_of id = identified true id (parse id)

abbrev pub option_document : Option Document → Documents
option_document none = no_document
option_document (some d) = both d no_document

-- filter = bson.D{{Name: "$and", Value: append(ands, filter)}}, if there are ands.
abbrev pub all_of : Documents → Document → Document
all_of no_document filter = filter
all_of (both d ds) filter = single "$and" (documents (append (both d ds) (both filter no_document)))

-- The limit, or else the page size, if positive.
abbrev pub positive : ℤ → Option ℕ
positive (pos zero) = none
positive (pos (suc n)) = some (suc n)
positive (negsuc n) = none

abbrev limit_or : Option ℕ → ℤ → Option ℕ
limit_or none page_size = positive page_size
limit_or (some n) page_size = some n

abbrev scale : ℕ → ℤ → ℤ
scale k (pos n) = pos (k * n)
scale zero (negsuc n) = pos 0
scale (suc k) (negsuc n) = negsuc (suc k * suc n - 1)

-- (p - 1) * mctx.PageSize(), if p > 0
abbrev skip_of : ℤ → ℤ → Option ℤ
skip_of (pos zero) page_size = none
skip_of (pos (suc k)) page_size = some (scale k page_size)
skip_of (negsuc n) page_size = none

abbrev pub user_document : ℕ → Option (String → String) → Option Filter → Result Document
user_document now translate none = ok Bson.end
user_document now translate (some f) = compile_filter now translate f

module _ {Object : Type 0} (identifier : Object → String) (settings : Settings Object)
    (now : ℕ) where
  abbrev pub shard_one :
      Option (Sharder Object) → Request Object → Object → Result (Option Document)
  shard_one none c o = ok none
  shard_one (some sharder) c o = sharded (sharder.filter_one c o)

  abbrev pub shard_many : Option (Sharder Object) → Request Object → Result (Option Document)
  shard_many none c = ok none
  shard_many (some sharder) c = sharded (sharder.filter_many c)

  unfoldable pub restrict_one : Request Object → Object → Document → Result Document
  restrict_one c o filter = do
    sq ← shard_one settings.sharder c o
    ok (restricted settings.forced_read_filter (restricted sq filter))

  unfoldable pub restrict_many : Request Object → Document → Result Document
  restrict_many c filter = do
    sq ← shard_many settings.sharder c
    ok (restricted settings.forced_read_filter (restricted sq filter))

  -- The filter of `Retrieve`.
  unfoldable pub retrieve_document : Request Object → Object → Result Document
  unfolding compile_filter append_field restrict_one
  retrieve_document c o = do
    f ← user_document now settings.field_name c.filter
    restrict_one c o (append_field f "_id" (identifier_of (identifier o)))

  -- The filter of `Update` and `Delete`.
  unfoldable pub write_document : Request Object → Object → Result Document
  unfolding restrict_one
  write_document c o = restrict_one c o (single "_id" (identifier_of (identifier o)))

  -- The filter of `Count`.
  unfoldable pub count_document : Request Object → Result Document
  unfolding compile_filter restrict_many
  count_document c = do f ← user_document now none c.filter; restrict_many c f

  abbrev pub filter_or : Result Document → Option Filter → Result Document
  filter_or nil_filter none = nil_filter
  filter_or nil_filter (some f) = compile_filter now none f

  -- The filter of `DeleteMany`.
  unfoldable pub delete_many_document : Result Document → Request Object → Result Document
  unfolding compile_filter restrict_many
  delete_many_document nil_filter c = do f ← filter_or nil_filter c.filter; restrict_many c f

  -- mctx.Order(), or else the order of a DefaultOrderer.
  abbrev pub order_or : List String → Option (List String) → List String
  order_or [] none = []
  order_or [] (some default_order) = apply_ordering default_order settings.field_name
  order_or (o ∷ order) default_order = apply_ordering (o ∷ order) settings.field_name

  module _ (driver : Driver) (find_id : Bson.Bson → String → Found) where
    abbrev next_by : List String → String → Result (Option Document)
    next_by [] after = do d ← prepare_next_filter driver find_id "" after; ok (some d)
    next_by (o ∷ []) after = do d ← prepare_next_filter driver find_id o after; ok (some d)
    next_by (o ∷ o' ∷ order) after = err (
        typed cannot_build_query (foreign "cannot use multiple ordering fields when using 'after'"))

    abbrev pub next_document : List String → String → Result (Option Document)
    next_document order after = if after == "" then ok none else next_by order after

    abbrev pub ands_of : Option Document → Option Document → Documents
    ands_of sq nf =
        append (option_document sq)
          (append (option_document settings.forced_read_filter) (option_document nf))

    abbrev pub query_of : List String → Request Object → Documents → Document → Query
    query_of order c ands f = record {
      filter = all_of ands f;
      limit = limit_or (positive c.limit) c.page_size;
      skip = skip_of c.page c.page_size;
      sort = order;
      select = make_fields_selector c.fields settings.field_name;
    }

    -- The query of `RetrieveMany`, for objects of an optional default order.
    unfoldable pub retrieve_many_query : Option (List String) → Request Object → Result Query
    unfolding compile_filter append apply_ordering make_fields_selector prepare_next_filter
    retrieve_many_query default_order c = do
      f ← user_document now settings.field_name c.filter
      sq ← shard_many settings.sharder c
      nf ← next_document (order_or c.order default_order) c.after
      ok (query_of (order_or c.order default_order) c (ands_of sq nf) f)
