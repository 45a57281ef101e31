-- ===== src/Examples/Rows.antt =====
-- Stored documents as rows, and what the documents of a query select of them.
use manipulate.Prelude.{
  ℕ, ◌≡◌, refl, ◌∙◌, ap, String, Bool, true, false, not, ◌&&◌, ◌||◌, Option, none, some, List,
  if◌then◌else◌, ◌==◌, ltb, leb, eqb,
}
use manipulate.Prelude.Int.{pos}
use manipulate.Prelude.Dict.{Dict, lookup}
use manipulate.ObjectId.{parse}
use manipulate.Filter.{Value, text, boolean, number}
use manipulate.Mongo.Bson
use manipulate.Mongo.Bson.{
  Bson, plain, oid, instant, array, document, documents, Array, no_item, item, Document, Documents,
  no_document, both, field, single, test,
}
use manipulate.Mongo.Compiler.{identified}
use manipulate.Mongo.Compiler.Meaning.{Tests, IsMongo, all_select, any_selects, equals_any}
use manipulate.Mongo.Queries.Restriction.{HasFields}

abbrev pub Row : Type 0
Row = Dict Value

abbrev same_value : Value → Value → Bool
same_value (text a) (text b) = a == b
same_value (boolean true) (boolean b) = b
same_value (boolean false) (boolean b) = not b
same_value (number (pos m)) (number (pos n)) = eqb m n
same_value _ _ = false

abbrev found : (Value → Bool) → Option Value → Bool
found p none = false
found p (some v) = p v

abbrev by_value : (Value → Value → Bool) → Bson → Option Value → Bool
by_value same (plain v) o = found (same v) o
by_value same _ o = false

abbrev below : Value → Value → Bool
below (number (pos m)) (number (pos n)) = ltb m n
below _ _ = false

abbrev up_to : Value → Value → Bool
up_to (number (pos m)) (number (pos n)) = leb m n
up_to _ _ = false

abbrev pub tests : Tests Row
tests = record {
  equals = λ k b r. by_value same_value b (lookup k r);
  is_greater = λ k b r. by_value below b (lookup k r);
  is_greater_or_equal = λ k b r. by_value up_to b (lookup k r);
  is_lesser = λ k b r. by_value (λ v w. below w v) b (lookup k r);
  is_lesser_or_equal = λ k b r. by_value (λ v w. up_to w v) b (lookup k r);
  has = λ k r. found (λ v. true) (lookup k r);
  is_like = λ k v r. found (same_value v) (lookup k r);
}

abbrev in_array : String → Array → Row → Bool
in_array k no_item r = false
in_array k (item b items) r = tests.equals k b r || in_array k items r

abbrev in_list : String → Bson → Row → Bool
in_list k (array items) r = in_array k items r
in_list k _ r = false

abbrev has_or_not : String → Bson → Row → Bool
has_or_not k (plain (boolean true)) r = tests.has k r
has_or_not k _ r = not (tests.has k r)

abbrev is_like : String → Bson → Row → Bool
is_like k (plain v) r = tests.is_like k v r
is_like k _ r = false

abbrev operator : String → String → Bson → Row → Bool
operator k o b r =
    if o == "$eq"
    then tests.equals k b r
    else if o == "$ne"
    then not (tests.equals k b r)
    else if o == "$in"
    then in_list k b r
    else if o == "$nin"
    then not (in_list k b r)
    else if o == "$gt"
    then tests.is_greater k b r
    else if o == "$gte"
    then tests.is_greater_or_equal k b r
    else if o == "$lt"
    then tests.is_lesser k b r
    else if o == "$lte"
    then tests.is_lesser_or_equal k b r
    else if o == "$exists"
    then has_or_not k b r
    else is_like k b r

abbrev mutual
  pub selects : Document → Row → Bool
  selects Bson.end r = true
  selects (field k b d) r = selects_field_of k b r && selects d r

  selects_field_of : String → Bson → Row → Bool
  selects_field_of k (documents ds) r = if k == "$or" then selects_any ds r else selects_all ds r
  selects_field_of k (document (field o b Bson.end)) r = operator k o b r
  selects_field_of k b r = tests.equals k b r

  selects_all : Documents → Row → Bool
  selects_all no_document r = true
  selects_all (both d ds) r = selects d r && selects_all ds r

  selects_any : Documents → Row → Bool
  selects_any no_document r = false
  selects_any (both d ds) r = selects d r || selects_any ds r

and_true : (b : Bool) → (b && true) ≡ b
and_true true = refl
and_true false = refl

selects_all-lem : (ds : Documents) (r : Row) → selects_all ds r ≡ all_select selects tests ds r
selects_all-lem no_document r = refl
selects_all-lem (both d ds) r = rw (selects_all-lem ds r) refl

selects_any-lem : (ds : Documents) (r : Row) → selects_any ds r ≡ any_selects selects tests ds r
selects_any-lem no_document r = refl
selects_any-lem (both d ds) r = rw (selects_any-lem ds r) refl

in_array-lem :
    (k : String) (items : Array) (r : Row) → in_array k items r ≡ equals_any selects tests k items r
in_array-lem k no_item r = refl
in_array-lem k (item b items) r = rw (in_array-lem k items r) refl

pub is_mongo : IsMongo selects tests
is_mongo = record {
  selects_empty = λ r. refl;
  selects_and = λ d ds r. and_true _ ∙ selects_all-lem (both d ds) r;
  selects_or = λ d ds r. and_true _ ∙ selects_any-lem (both d ds) r;
  selects_eq = λ k b r. and_true _;
  selects_ne = λ k b r. and_true _;
  selects_in = λ k items r. and_true _ ∙ in_array-lem k items r;
  selects_nin = λ k items r. and_true _ ∙ ap not (in_array-lem k items r);
  selects_gt = λ k b r. and_true _;
  selects_gte = λ k b r. and_true _;
  selects_lt = λ k b r. and_true _;
  selects_lte = λ k b r. and_true _;
  selects_exists = λ k r. and_true _;
  selects_not_exists = λ k r. and_true _;
  selects_regex = λ k v r. and_true _;
}

identified-lem :
    (id : String) (o : Option (List ℕ)) (r : Row)
    → selects (single "_id" (identified true id o)) r ≡ tests.equals "_id" (identified true id o) r
identified-lem id none r = and_true _
identified-lem id (some bytes) r = refl

pub has_fields : HasFields selects tests is_mongo
has_fields = record {
  selects_id = λ id r. identified-lem id (parse id) r;
  selects_field = λ k b d r. rw (and_true (selects_field_of k b r)) refl;
}
