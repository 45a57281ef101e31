-- ===== src/Examples/Mongo.antt =====
-- Filters, queries and the loop of RunQuery over rows.
use manipulate.Prelude.{
  ℕ, suc, ◌+◌, ◌-◌, ◌≡◌, refl, String, false, ◌&&◌, none, some, [], ◌∷◌, ltb, arith, if◌then◌else◌,
}
use manipulate.Prelude.Int.{pos}
use manipulate.Errors.{foreign, ok}
use manipulate.Context.{initial}
use manipulate.Filter.{
  Filter, end, clause, compare, equal, exists, contained_in, text, boolean, number,
}
use manipulate.Mongo.Bson.{Bson, plain, Document, single, test}
use manipulate.Mongo.Compiler.{compile_filter}
use manipulate.Mongo.Compiler.Meaning.{satisfies}
use manipulate.Mongo.Compiler.Correct.{Compiles, compile_filter-Compiles}
use manipulate.Mongo.Failures.{Failure, net, Driver}
use manipulate.Mongo.Retry.{Answer, success, failure, World, run_query}
use manipulate.Mongo.Retry.Attempts.{ReturnsWithin, run_query-ReturnsWithin}
use manipulate.Mongo.Ordering.{Found, missed, prepare_next_filter}
use manipulate.Mongo.Queries.{
  Clock, Request, Settings, Sharder, Query, retrieve_document, write_document, count_document,
  delete_many_document, retrieve_many_query, next_document, restrict_one, identifier_of,
}
use manipulate.Mongo.Queries.Restriction.{
  Selects, limited, satisfies_option, has_id, if_selects, one_document-Selects,
  many_document-Selects, retrieve_many_query-Selects,
}
use manipulate.Mongo.Writes.{Encrypter, Collection, update}
use manipulate.Mongo.Reads.{Source, read, retrieve_many}
use manipulate.Mongo.Reads.Pages.{LeavesNext, retrieve_many-LeavesNext}
use manipulate.Mongo.Writes.Objects.{EndsWith, update-EndsWith}
use manipulate.Examples.Rows.{Row, selects, tests, is_mongo, has_fields}

-- Name == "apple" and rank in [1, 2] and color exists
abbrev sample : Filter
sample = clause (compare "Name" equal (text "apple" ∷ [])) (
    clause (compare "rank" contained_in (number (pos 1) ∷ number (pos 2) ∷ []))
      (clause (compare "color" exists []) end))

compile_filter-Compiles_example :
    Compiles selects tests is_mongo 7 none
      (compile_filter 7 none sample)
      (satisfies selects tests 7 none sample)
compile_filter-Compiles_example =
    compile_filter-Compiles selects tests is_mongo 7 none sample (tt, ((tt, (tt, tt)), (tt, tt)))

-- The object is a number, whose identifier is one letter.
abbrev letter : ℕ → String
letter n = if ltb n 10 then "s" else "t"

abbrev pub clock : Clock
clock = record {
  done = λ try. if ltb try 2 then none else some (foreign "context deadline exceeded");
  deadline = none;
  now = λ try. try;
}

abbrev request : Request ℕ
request = record (initial clock) { filter = some sample; after = "b" }

abbrev zone : Document
zone = single "zone" (plain (number (pos 1)))

abbrev sharder : Sharder ℕ
sharder = record {
  shard = λ c o. (none, o);
  on_sharded_write = λ c operation o. none;
  filter_one = λ c o. ok (some zone);
  filter_many = λ c. ok (some zone);
}

abbrev settings : Settings ℕ
settings = record {
  sharder = some sharder;
  forced_read_filter = some (single "archived" (plain (boolean false)));
  field_name = none;
}

many_document-Selects_example :
    Selects selects tests is_mongo letter settings 7 (count_document letter settings 7 request) (
      limited selects tests is_mongo letter settings 7
        (some zone)
        (satisfies selects tests 7 none sample))
    × Selects selects tests is_mongo letter settings 7
        (delete_many_document letter settings 7 (ok zone) request)
        (limited selects tests is_mongo letter settings 7
          (some zone)
          (satisfies selects tests 7 none sample))
many_document-Selects_example =
    many_document-Selects selects tests is_mongo letter settings 7 request sample (some zone)
      (ok zone) refl (tt, ((tt, (tt, tt)), (tt, tt))) refl

one_document-Selects_example :
    Selects selects tests is_mongo letter settings 7
      (retrieve_document letter settings 7 request 3)
      (limited selects tests is_mongo letter settings 7 (some zone) (λ r.
        satisfies_option selects tests is_mongo letter settings 7 none (some sample) r
        && has_id selects tests is_mongo letter settings 7 has_fields 3 r))
    × Selects selects tests is_mongo letter settings 7
        (write_document letter settings 7 request 3)
        (limited selects tests is_mongo letter settings 7
          (some zone)
          (has_id selects tests is_mongo letter settings 7 has_fields 3))
one_document-Selects_example =
    one_document-Selects selects tests is_mongo letter settings 7 has_fields request 3 (some zone)
      (tt, ((tt, (tt, tt)), (tt, tt))) refl

abbrev pub driver : Driver
driver = record { text = λ f. "no reachable servers"; is_dup = λ f. false }

abbrev pub find_id : Bson → String → Found
find_id id field = missed Failure.not_found

after_b :
    next_document letter settings 7 driver find_id [] "b"
    ≡ ok (some (test "_id" "$gt" (identifier_of "b")))
unfolding prepare_next_filter
after_b = refl

retrieve_many_query-Selects_example :
    (q : Query) × (retrieve_many_query letter settings 7 driver find_id none request ≡ ok q)
    × ((r : Row)
        → selects q.filter r
          ≡ limited selects tests is_mongo letter settings 7
              (some zone)
              (λ r.
                if_selects selects tests is_mongo (some (test "_id" "$gt" (identifier_of "b"))) r
                && satisfies_option selects tests is_mongo letter settings 7 none (some sample) r)
              r)
retrieve_many_query-Selects_example =
    retrieve_many_query-Selects selects tests is_mongo letter settings 7 driver find_id none request
      (some zone) (some (test "_id" "$gt" (identifier_of "b"))) (tt, ((tt, (tt, tt)), (tt, tt)))
      refl after_b

-- An operation that never reaches the server, and counts its calls.
abbrev unreachable : ℕ → ℕ → Answer (Unit {0}) × ℕ
unreachable try calls = (failure tt (net "connection reset"), suc calls)

abbrev world : World
world = record {
  retry_func = none;
  default_retry_func = none;
  done = clock.done;
  deadline = none;
  now = λ try. try;
}

run_query-ReturnsWithin_example : ReturnsWithin 2 (run_query driver world unreachable 3 0 [] 0)
run_query-ReturnsWithin_example =
    run_query-ReturnsWithin driver world unreachable 2 3 0 refl (omega arith)

abbrev collection : Collection ℕ ℕ
collection = record {
  insert_one = λ o. unreachable;
  upsert_one = λ d changes try calls. (success none, calls);
  update_one = λ d o. unreachable;
  remove_one = λ d. unreachable;
}

abbrev encrypter : Encrypter ℕ
encrypter = record { encrypt = λ o. (none, o + 100); decrypt = λ o. (none, o - 100) }

abbrev plain_settings : Settings ℕ
plain_settings = record { sharder = none; forced_read_filter = none; field_name = none }

write_b : write_document letter plain_settings 7 request 103 ≡ ok (single "_id" (identifier_of "t"))
unfolding write_document restrict_one
write_b = refl

update-EndsWith_example : EndsWith 3 103 (
    update letter
      (λ id o. o)
      (λ o. o)
      driver
      plain_settings
      (some encrypter)
      none
      collection
      7
      3
      request
      3
      0)
update-EndsWith_example =
    update-EndsWith letter (λ id o. o) (λ o. o) driver plain_settings (some encrypter) none
      collection 7 3 request 3 103 (single "_id" (identifier_of "t")) 2 0 (refl, refl) write_b refl
      (omega arith)

-- A page of two objects, which is full.
abbrev source : Source ℕ ℕ
source = record {
  find_one = λ d sels try calls. (success 3, suc calls);
  find_all = λ q try calls. (success (3 ∷ 12 ∷ []), suc calls);
  remove_all = λ d. unreachable;
  count_all = λ d try calls. (success 2, suc calls);
}

abbrev paged : Request ℕ
paged = record (initial clock) { limit = pos 2 }

retrieve_many-LeavesNext_example :
    LeavesNext letter
      (λ o. o)
      none
      paged
      (retrieve_many letter
        (λ o. o)
        driver
        plain_settings
        none
        none
        source
        find_id
        7
        3
        none
        paged
        0)
retrieve_many-LeavesNext_example =
    retrieve_many-LeavesNext letter (λ o. o) driver plain_settings none none source find_id 7 3
      paged none 0

page :
    retrieve_many letter (λ o. o) driver plain_settings none none source find_id 7 3 none paged 0
    ≡ read none (some (3 ∷ 12 ∷ [])) (record paged { next = "t" }) 1
unfolding retrieve_many
page = refl
