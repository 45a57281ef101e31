-- ===== src/Mongo/Queries/Restriction.antt =====
-- What the documents that the operations send select.
use manipulate.Prelude.{
  ℕ, ◌≡◌, refl, ◌∙◌, String, Bool, true, ◌&&◌, Option, none, some, List, arith,
}
use manipulate.Errors.{Result, ok}
use manipulate.Filter.{Filter}
use manipulate.Mongo.Bson
use manipulate.Mongo.Bson.{Bson, Document, Documents, no_document, both, field, single, append}
use manipulate.Mongo.Compiler.Meaning.{Tests, IsMongo, all_select, satisfies, IsCompilable}
use manipulate.Mongo.Compiler.Correct.{Compiles, compile_filter-Compiles}
use manipulate.Mongo.Failures.{Driver}
use manipulate.Mongo.Ordering.{Found}
use manipulate.Mongo.Queries.{
  Request, Settings, Query, restricted, append_field, identifier_of, option_document, all_of,
  user_document, shard_one, shard_many, restrict_one, restrict_many, retrieve_document,
  write_document, count_document, delete_many_document, next_document, retrieve_many_query,
  order_or, ands_of, query_of,
}

abbrev IsCompilableOption : Option Filter → Type 0
IsCompilableOption none = Unit
IsCompilableOption (some f) = IsCompilable f

module _ {Row : Type 0} (selects : Document → Row → Bool) (tests : Tests Row)
    (mongo : IsMongo selects tests) where
  -- A row has an identifier under the key `_id`; a document of several fields asks for each.
  pub record HasFields : Type 0 where
    pub selects_id :
        (id : String) (r : Row)
        → selects (single "_id" (identifier_of id)) r ≡ tests.equals "_id" (identifier_of id) r
    pub selects_field :
        (k : String) (b : Bson) (d : Document) (r : Row)
        → selects (field k b d) r ≡ (selects (single k b) r && selects d r)

  abbrev pub if_selects : Option Document → Row → Bool
  if_selects none r = true
  if_selects (some d) r = selects d r

  restricted-selects :
      (o : Option Document) (filter : Document) (r : Row)
      → selects (restricted o filter) r ≡ (if_selects o r && selects filter r)
  restricted-selects none filter r = refl
  restricted-selects (some d) filter r =
      ground (arith, mongo.selects_and d (both filter no_document) r)

  all_select-append :
      (ds es : Documents) (r : Row)
      → all_select selects tests (append ds es) r
        ≡ (all_select selects tests ds r && all_select selects tests es r)
  unfolding append
  all_select-append no_document es r = refl
  all_select-append (both d ds) es r = ground (arith, all_select-append ds es r)

  all_select-option :
      (o : Option Document) (r : Row)
      → all_select selects tests (option_document o) r ≡ if_selects o r
  all_select-option none r = refl
  all_select-option (some d) r = ground arith

  all_of-selects :
      (ds : Documents) (filter : Document) (r : Row)
      → selects (all_of ds filter) r ≡ (all_select selects tests ds r && selects filter r)
  unfolding append
  all_of-selects no_document filter r = refl
  all_of-selects (both d ds) filter r = ground (
    arith,
    mongo.selects_and d (append ds (both filter no_document)) r,
    all_select-append ds (both filter no_document) r,
  )

  module _ (fields : HasFields) where
    append_field-selects :
        (d : Document) (k : String) (b : Bson) (r : Row)
        → selects (append_field d k b) r ≡ (selects d r && selects (single k b) r)
    unfolding append_field
    append_field-selects Bson.end k b r = ground (arith, mongo.selects_empty r)
    append_field-selects (field k' b' d) k b r = ground (
      arith,
      fields.selects_field k' b' (append_field d k b) r,
      fields.selects_field k' b' d r,
      append_field-selects d k b r,
    )

  module _ {Object : Type 0} (identifier : Object → String) (settings : Settings Object)
      (now : ℕ) where
    abbrev pub satisfies_option : Option (String → String) → Option Filter → Row → Bool
    satisfies_option translate none r = true
    satisfies_option translate (some f) r = satisfies selects tests now translate f r

    user_document-Compiles :
        (translate : Option (String → String)) (f : Option Filter)
        → IsCompilableOption f
        → Compiles selects tests mongo now translate
            (user_document now translate f)
            (satisfies_option translate f)
    user_document-Compiles translate none h = (_, refl, mongo.selects_empty)
    user_document-Compiles translate (some f) h =
        compile_filter-Compiles selects tests mongo now translate f h

    -- A result is a document that selects by the predicate.
    abbrev pub Selects : Result Document → (Row → Bool) → Type 0
    Selects result q = Compiles selects tests mongo now none result q

    abbrev pub forced : Row → Bool
    forced = if_selects settings.forced_read_filter

    -- A document under the sharding filter and the forced filter.
    abbrev pub limited : Option Document → (Row → Bool) → Row → Bool
    limited sq q r = forced r && (if_selects sq r && q r)

    limited-selects :
        (sq : Option Document) (d : Document) (q : Row → Bool)
        → ((r : Row) → selects d r ≡ q r)
        → (r : Row)
        → selects (restricted settings.forced_read_filter (restricted sq d)) r ≡ limited sq q r
    limited-selects sq d q h r = rw (
      restricted-selects settings.forced_read_filter (restricted sq d) r,
      restricted-selects sq d r,
      h r,
    )

    -- `Count` counts, and `DeleteMany` removes, the rows of the sharding filter and of the forced
    -- filter that satisfy the filter of the request, whose keys are not translated.
    pub many_document-Selects :
        (c : Request Object) (f : Filter) (sq : Option Document) (nil_filter : Result Document)
        → c.filter ≡ some f
        → IsCompilable f
        → shard_many identifier settings now settings.sharder c ≡ ok sq
        → Selects
            (count_document identifier settings now c)
            (limited sq (satisfies selects tests now none f))
          × Selects
              (delete_many_document identifier settings now nil_filter c)
              (limited sq (satisfies selects tests now none f))
    unfolding count_document delete_many_document restrict_many
    many_document-Selects c f sq nil_filter filter h shard =
        let (d, e, s) = compile_filter-Compiles selects tests mongo now none f h in
        let document = restricted settings.forced_read_filter (restricted sq d) in
        let selected = limited-selects sq d (satisfies selects tests now none f) s in
        ((document, rw (shard, filter, e), selected), (document, rw (shard, filter, e), selected))

    module _ (fields : HasFields) where
      abbrev pub has_id : Object → Row → Bool
      has_id o r = tests.equals "_id" (identifier_of (identifier o)) r

      -- `Retrieve` asks for the object's identifier among the rows of the sharding filter and of
      -- the forced filter that satisfy the filter of the request, and `Update` and `Delete` for the
      -- identifier among the rows of the two filters.
      pub one_document-Selects :
          (c : Request Object) (o : Object) (sq : Option Document)
          → IsCompilableOption c.filter
          → shard_one identifier settings now settings.sharder c o ≡ ok sq
          → Selects
              (retrieve_document identifier settings now c o)
              (limited sq (λ r. satisfies_option settings.field_name c.filter r && has_id o r))
            × Selects (write_document identifier settings now c o) (limited sq (has_id o))
      unfolding retrieve_document write_document restrict_one
      one_document-Selects c o sq h shard =
          let (d, e, s) = user_document-Compiles settings.field_name c.filter h in
          let id = identifier_of (identifier o) in
          (
            (
              restricted settings.forced_read_filter (restricted sq (append_field d "_id" id)),
              rw (e, shard),
              limited-selects sq (append_field d "_id" id) _
                  (λ r. append_field-selects fields d "_id" id r ∙ rw (s r, fields.selects_id _ r)),
            ),
            (
              restricted settings.forced_read_filter (restricted sq (single "_id" id)),
              rw shard,
              limited-selects sq (single "_id" id) (has_id o) (fields.selects_id _),
            ),
          )

    module _ (driver : Driver) (find_id : Bson → String → Found) where
      ands_of-selects :
          (sq nf : Option Document) (d : Document) (r : Row)
          → (all_select selects tests (ands_of identifier settings now driver find_id sq nf) r
              && selects d r)
            ≡ limited sq (λ r. if_selects nf r && selects d r) r
      unfolding append
      ands_of-selects sq nf d r = ground (
        arith,
        all_select-append (option_document sq)
            (append (option_document settings.forced_read_filter) (option_document nf)) r,
        all_select-append (option_document settings.forced_read_filter) (option_document nf) r,
        all_select-option sq r,
        all_select-option nf r,
        all_select-option settings.forced_read_filter r,
      )

      -- The query of `RetrieveMany` selects the rows of the sharding filter, of the forced filter
      -- and of the filter for the rows after the last page that satisfy the filter of the request.
      pub retrieve_many_query-Selects :
          (default_order : Option (List String)) (c : Request Object) (sq nf : Option Document)
          → IsCompilableOption c.filter
          → shard_many identifier settings now settings.sharder c ≡ ok sq
          → next_document identifier settings now driver find_id
              (order_or identifier settings now c.order default_order)
              c.after
            ≡ ok nf
          → (q : Query) × (retrieve_many_query identifier settings now driver find_id default_order
                c
              ≡ ok q)
            × ((r : Row)
                → selects q.filter r
                  ≡ limited sq
                      (λ r. if_selects nf r && satisfies_option settings.field_name c.filter r)
                      r)
      unfolding retrieve_many_query append
      retrieve_many_query-Selects default_order c sq nf h shard next =
          let (d, e, s) = user_document-Compiles settings.field_name c.filter h in
          let order = order_or identifier settings now c.order default_order in
          let ands = ands_of identifier settings now driver find_id sq nf in
          (
            query_of identifier settings now driver find_id order c ands d,
            rw (e, shard, next),
            λ r. all_of-selects ands d r ∙ ands_of-selects sq nf d r ∙ rw (s r),
          )
