-- ===== src/Mongo/Reads.antt =====
-- manipmongo/manipulator.go: `Retrieve`, `RetrieveMany`, `DeleteMany` and `Count`. The collection is a
-- parameter, by the number of the try; explaining a query is not modelled.
pub mod Pages
use manipulate.Prelude.{
  ℕ, String, Bool, true, false, not, ◌&&◌, ◌||◌, Option, none, some, List, [], ◌∷◌, if◌then◌else◌,
  ◌==◌, length, eqb,
}
use manipulate.Prelude.Int.{ℤ, pos, negsuc, is_nonpos}
use manipulate.Prelude.Dict.{Dict}
use manipulate.Context.{Context}
use manipulate.Errors.{Error, Result, ok, err, panic}
use manipulate.Mongo.Bson.{Bson, Document}
use manipulate.Mongo.Failures.{Driver}
use manipulate.Mongo.Ordering.{Found, make_fields_selector}
use manipulate.Mongo.Queries.{
  Request, Settings, Query, retrieve_document, retrieve_many_query, count_document,
  delete_many_document,
}
use manipulate.Mongo.Retry.{Answer, Outcome, returned, running, World, run_query}
use manipulate.Mongo.Writes.{Encrypter, cannot_build}

-- The reads of a collection, and the removal of all rows of a document.
pub record Source (Object S : Type 0) : Type 0 where
  pub find_one : Document → Option (Dict ℕ) → ℕ → S → Answer Object × S
  pub find_all : Query → ℕ → S → Answer (List Object) × S
  pub remove_all : Document → ℕ → S → Answer Unit × S
  pub count_all : Document → ℕ → S → Answer ℕ × S

-- How a read ends: with an error or not, with what it returns, the request, and the state.
pub data Read (Out Object S : Type 0) : Type 0 where
  read : Option Error → Option Out → Request Object → S → Read Out Object S
  panicked : Read Out Object S
  unfinished : S → Read Out Object S

module _ {Object : Type 0} (identifier : Object → String) (reset_defaults : Object → Object)
    (encrypter : Option (Encrypter Object)) where
  abbrev decrypt_with : Option (Encrypter Object) → Object → Option Error × Object
  decrypt_with none o = (none, o)
  decrypt_with (some encrypter) o = encrypter.decrypt o

  -- The default values that are put back, and the decryption, of one object.
  abbrev restored : Object → Option Error × Object
  restored o = decrypt_with encrypter (reset_defaults o)

  abbrev pub collected :
      Option Error × Object → List Object → Option Error × List Object → Option Error × List Object
  collected (some e, o) os rest = (some e, o ∷ os)
  collected (none, o) os (e, os') = (e, o ∷ os')

  -- The loop over the objects, up to the first one that cannot be decrypted.
  unfoldable pub restore_all : List Object → Option Error × List Object
  restore_all [] = (none, [])
  restore_all (o ∷ os) = let rest = restore_all os in collected (restored o) os rest

  -- lastID, after the loop.
  unfoldable pub last_id : List Object → String
  last_id [] = ""
  last_id (o ∷ []) = identifier o
  last_id (o ∷ o' ∷ os) = last_id (o' ∷ os)

abbrev pub is_positive : ℤ → Bool
is_positive n = not (is_nonpos n)

abbrev pub is_length : ℕ → ℤ → Bool
is_length n (pos m) = eqb n m
is_length n (negsuc m) = false

-- A full page whose last object is a new one.
abbrev pub has_next : {Object : Type 0} → String → ℕ → Request Object → Bool
has_next last n c =
    not (last == "")
    && (not (c.after == "") || is_positive c.limit)
    && is_length n c.limit
    && not (last == c.after)

unfoldable pub set_next : {Object : Type 0} → String → ℕ → Request Object → Request Object
set_next last n c = if has_next last n c then record c { next = last } else c

module _ {Object S : Type 0} (identifier : Object → String) (reset_defaults : Object → Object)
    (driver : Driver) (settings : Settings Object) (encrypter : Option (Encrypter Object))
    (default_retry_func : Option (ℕ → Error → Option Error)) (source : Source Object S)
    (find_id : Bson → String → Found) (now fuel : ℕ) where
  abbrev world_for : Request Object → World
  world_for c = record {
    retry_func = c.retry_func;
    default_retry_func = default_retry_func;
    done = c.ctx.done;
    deadline = c.ctx.deadline;
    now = c.ctx.now;
  }

  -- The end of RunQuery, where `keep` makes what is returned of what the operation answered.
  abbrev pub after_query :
      {Got Out : Type 0}
      → (Got → S → Read Out Object S)
      → Request Object
      → Outcome Got S
      → Read Out Object S
  after_query keep c (running s) = unfinished s
  after_query keep c (returned out (some e) waits s) = read (some e) none c s
  after_query keep c (returned none none waits s) = panicked
  after_query keep c (returned (some got) none waits s) = keep got s

  abbrev pub with_document :
      {Out Sent : Type 0}
      → Request Object
      → (Sent → S → Read Out Object S)
      → Result Sent
      → S
      → Read Out Object S
  with_document c next (ok d) s = next d s
  with_document c next (err e) s = read (some e) none c s
  with_document c next panic s = panicked

  abbrev one_read : Request Object → Option Error × Object → S → Read Object Object S
  one_read c (e, o) s = read (cannot_build "retrieve: unable to decrypt attributes" e) (some o) c s

  unfoldable pub retrieve : Request Object → Object → S → Read Object Object S
  unfolding retrieve_document make_fields_selector run_query
  retrieve c o s =
      with_document c
        (λ d s.
          after_query (λ o s. one_read c (restored identifier reset_defaults encrypter o) s) c
            (run_query driver (world_for c)
              (source.find_one d (make_fields_selector c.fields settings.field_name)) fuel 0 [] s))
        (retrieve_document identifier settings now c o) s

  -- After the loop over the objects; `count` is how many there are.
  abbrev pub many_read :
      Request Object → Option Error × List Object → S → Read (List Object) Object S
  many_read c (some e, os) s =
      read (cannot_build "retrievemany: unable to decrypt attributes" (some e)) (some os) c s
  many_read c (none, os) s =
      read none (some os) (set_next (last_id identifier reset_defaults encrypter os) (length os) c)
        s

  unfoldable pub retrieve_many :
      Option (List String) → Request Object → S → Read (List Object) Object S
  unfolding retrieve_many_query run_query restore_all last_id set_next
  retrieve_many default_order c s =
      with_document c
        (λ q s.
          after_query (λ os s. many_read c (restore_all identifier reset_defaults encrypter os) s) c
            (run_query driver (world_for c) (source.find_all q) fuel 0 [] s))
        (retrieve_many_query identifier settings now driver find_id default_order c) s

  unfoldable pub delete_many : Result Document → Request Object → S → Read Unit Object S
  unfolding delete_many_document run_query
  delete_many nil_filter c s =
      with_document c
        (λ d s.
          after_query (λ u s. read none (some tt) c s) c
            (run_query driver (world_for c) (source.remove_all d) fuel 0 [] s))
        (delete_many_document identifier settings now nil_filter c) s

  unfoldable pub count : Request Object → S → Read ℕ Object S
  unfolding count_document run_query
  count c s =
      with_document c
        (λ d s.
          after_query (λ n s. read none (some n) c s) c
            (run_query driver (world_for c) (source.count_all d) fuel 0 [] s))
        (count_document identifier settings now c) s
