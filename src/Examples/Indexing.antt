-- ===== src/Examples/Indexing.antt =====
-- The indexes of a collection and of the in-memory database.
use manipulate.Prelude.{
  ℕ, ◌≡◌, ◌≢◌, ◌↔◌, refl, String, true, Option, none, some, List, [], ◌∷◌, ◌==◌, if◌then◌else◌,
  eq_refl, ◌*◌, ◌<>◌,
}
use manipulate.Prelude.Dict.{Dict, lookup, insert, remove, lookup-insert}
use manipulate.Prelude.Decimal.{decimal}
use manipulate.Prelude.Text.{includes, starts_with, to_lower}
use manipulate.Errors.{Error, foreign, message, ok}
use manipulate.Filter.{text}
use manipulate.Mongo.Indexes.{
  Index, Collection, ensure_index, ensure_from, ensure_one, replace_index,
}
use manipulate.Memory.Schema.{FieldValue, text_field, from_object, from_args}
use manipulate.Memory.Schema.Keys.{folded, from_object-from_args}
use manipulate.Examples.{Item, apple}

abbrev Indexes : Type 0
Indexes = Dict (Index String)

-- Makes an index, unless there is one with other options.
abbrev put : Index String → Option (Index String) → Indexes → Option Error × Indexes
put i none s = (none, insert i.name i s)
put i (some old) s =
    if old.rest == i.rest
    then (none, insert i.name i s)
    else (some (foreign "already exists with different options"), s)

abbrev modify : String → ℕ → Option (Index String) → Indexes → Option Error × Indexes
modify name seconds none s = (some (foreign "no such index"), s)
modify name seconds (some old) s =
    (none, insert name (record old { expire_after = seconds * 1_000_000_000 }) s)

abbrev collection : Collection String Indexes
collection = record {
  ensure = λ i s. put i (lookup i.name s) s;
  drop = λ name s. (none, remove name s);
  col_mod = λ name seconds s. modify name seconds (lookup name s) s;
}

lookup-inserted :
    (name : String) (i : Index String) (s : Indexes) → lookup name (insert name i s) ≡ some i
lookup-inserted name i s = rw (lookup-insert name name i s, eq_refl name) refl

-- One index expires after a second and a half, and one has no name.
abbrev indexes : List (Index String)
indexes =
    record { name = "age"; expire_after = 1_500_000_000; rest = "x" }
    ∷ record { name = ""; expire_after = 0; rest = "y" }
    ∷ []

-- The collection has the first one with other options, and another index.
abbrev before : Indexes
before =
    ("age", record { name = "age"; expire_after = 5; rest = "old" })
    ∷ ("rank", record { name = "rank"; expire_after = 0; rest = "z" })
    ∷ []

after : ensure_index collection "fruit" indexes before ≡ (
  none,
  ("age", record { name = "age"; expire_after = 1_000_000_000; rest = "old" })
      ∷ ("rank", record { name = "rank"; expire_after = 0; rest = "z" })
      ∷ ("index_fruit_1", record { name = "index_fruit_1"; expire_after = 0; rest = "y" })
      ∷ [],
)
unfolding ensure_index ensure_from ensure_one replace_index lookup insert decimal includes message
after = refl

abbrev field : String → Item → Option FieldValue
field name o = some (text_field o.id)

from_object-from_args_example :
    ((key asked : String) × (from_object field (λ o. o.id) "id" true apple ≡ ok (some key))
      × (from_args (λ v. "") true (text "A" ∷ []) ≡ ok asked)
      × (starts_with (key <> "7") asked ≡ true))
    ↔ ((apple.id ≢ "") × (folded true "a" ≡ folded true "A"))
unfolding to_lower
from_object-from_args_example =
    from_object-from_args field (λ o. o.id) (λ v. "") "id" true apple "a" "A" "7" refl (refl, tt)
      (refl, tt)
