-- ===== src/Memory/Schema/Keys.antt =====
-- What a lookup in an index of this package finds. memdb stores the key that FromObject makes with
-- the identifier of the object behind it, and looks for the stored keys that begin with the key that
-- FromArgs makes.
use Prim.Native.String.append
use Prim.Native.Char.{Char, code, nul}
use package.text.Mathlib.TextEquality.{Char-path}
use manipulate.Prelude.{
  ◌≡◌, ◌≢◌, ◌↔◌, refl, ap, sym, ◌∙◌, String, ◌<>◌, Bool, true, false, Option, some, ◌∷◌, [], ◌==◌,
  if◌then◌else◌, eqb, Bool-cases, inl, inr, eq_false, ne_of_false, ◌&&◌, arith,
}
use manipulate.Prelude.Text.{to_lower, starts_with}
use manipulate.Errors.{ok}
use manipulate.Filter.{Value, text}
use manipulate.Memory.Schema.{FieldValue, text_field, terminated, key_of, from_object, from_args}

-- The text that an index stores: in lower case, if it is told so.
abbrev pub folded : Bool → String → String
folded lowercase s = if lowercase then to_lower s else s

-- A text without the character 0, which ends the keys.
abbrev IsNulFree : String → Type 0
IsNulFree String.[] = Unit
IsNulFree (String.◌∷◌ c s) = (eqb (code c) 0 ≡ false) × IsNulFree s

-- The text before another one, with the character 0 between.
abbrev ended : String → String → String
ended String.[] rest = String.◌∷◌ nul rest
ended (String.◌∷◌ c s) rest = String.◌∷◌ c (ended s rest)

ended-lem : (s rest : String) → (s <> String.◌∷◌ nul String.[]) <> rest ≡ ended s rest
ended-lem String.[] rest =
    (λ i. append.cons nul String.[] rest i) ∙ ap (String.◌∷◌ nul) (λ i. append.nil rest i)
ended-lem (String.◌∷◌ c s) rest =
    (λ i. append.cons c s (String.◌∷◌ nul String.[]) i <> rest)
    ∙ (λ i. append.cons c (s <> String.◌∷◌ nul String.[]) rest i)
    ∙ ap (String.◌∷◌ c) (ended-lem s rest)

ended-nul : (s : String) → s <> String.◌∷◌ nul String.[] ≡ ended s String.[]
ended-nul String.[] = λ i. append.nil (String.◌∷◌ nul String.[]) i
ended-nul (String.◌∷◌ c s) =
    (λ i. append.cons c s (String.◌∷◌ nul String.[]) i) ∙ ap (String.◌∷◌ c) (ended-nul s)

code_eq : (c d : Char) → eqb (code c) (code d) ≡ true → code c ≡ code d
code_eq c d h = ground arith

and_true : (a b : Bool) → (a && b) ≡ true → (a ≡ true) × (b ≡ true)
and_true true b h = (refl, h)
and_true false b h = ground arith

starts_with-ended :
    (s t rest : String)
    → IsNulFree s
    → IsNulFree t
    → starts_with (ended s rest) (ended t String.[]) ≡ true
    → s ≡ t
unfolding starts_with
starts_with-ended String.[] String.[] rest hs ht h = refl
starts_with-ended String.[] (String.◌∷◌ d t) rest hs (hd, ht) h = ground arith
starts_with-ended (String.◌∷◌ c s) String.[] rest (hc, hs) ht h = ground arith
starts_with-ended (String.◌∷◌ c s) (String.◌∷◌ d t) rest (hc, hs) (hd, ht) h =
    let (same, rest_h) = and_true (eqb (code c) (code d)) _ h in
    let head = Char-path c d (code_eq c d same) in
    cc (head, starts_with-ended s t rest hs ht rest_h)

ended-starts_with : (s rest : String) → starts_with (ended s rest) (ended s String.[]) ≡ true
unfolding starts_with
ended-starts_with String.[] rest = ground arith
ended-starts_with (String.◌∷◌ c s) rest = ground (arith, ended-starts_with s rest)

-- A lookup by a text finds the texts that are stored as it is.
found-same :
    (lowercase : Bool) (s v identifier : String)
    → IsNulFree (folded lowercase s)
    → IsNulFree (folded lowercase v)
    → starts_with (terminated lowercase s <> identifier) (terminated lowercase v) ≡ true
    → folded lowercase s ≡ folded lowercase v
found-same lowercase s v identifier free_s free_v h =
    starts_with-ended (folded lowercase s) (folded lowercase v) identifier free_s free_v
      (rw (sym (ended-lem (folded lowercase s) identifier), sym (ended-nul (folded lowercase v))) h)

same-found :
    (lowercase : Bool) (s v identifier : String)
    → folded lowercase s ≡ folded lowercase v
    → starts_with (terminated lowercase s <> identifier) (terminated lowercase v) ≡ true
same-found lowercase s v identifier same =
    rw (same, ended-lem (folded lowercase v) identifier, ended-nul (folded lowercase v))
      (ended-starts_with (folded lowercase v) identifier)

ok-injective : {A : Type 0} {a b : A} → ok a ≡ ok b → a ≡ b
ok-injective h = cc h

some-injective : {A : Type 0} {a b : A} → some a ≡ some b → a ≡ b
some-injective h = cc h

key_of-some :
    (lowercase : Bool) (s key : String)
    → key_of lowercase s ≡ some key
    → (s ≢ "") × (terminated lowercase s ≡ key)
key_of-some lowercase s key h = elim (Bool-cases (s == "")) [
  | inl e ↦ cc (rw e at h)
  | inr e ↦ (ne_of_false s "" e, some-injective (rw e at h))
]

key_of-lem :
    (lowercase : Bool) (s : String) → s ≢ "" → key_of lowercase s ≡ some (terminated lowercase s)
key_of-lem lowercase s h = rw (eq_false s "" h)

module _ {Object : Type 0} (field : String → Object → Option FieldValue)
    (go_syntax : Object → String) (value_syntax : Value → String) where
  from_object-lem :
      (name : String) (lowercase : Bool) (o : Object) (s : String)
      → field name o ≡ some (text_field s)
      → from_object field go_syntax name lowercase o ≡ ok (key_of lowercase s)
  unfolding from_object
  from_object-lem name lowercase o s e = rw (e, from_object)

  -- Among texts without the character 0, an index of this package finds an object by a text exactly
  -- if the object's field is not empty and is the text, up to the case of the letters where the index
  -- ignores it: the key that is stored, whatever identifier follows it, begins with the key that is
  -- looked for. A field that is empty is found by no text, not by the empty one either.
  pub from_object-from_args :
      (name : String) (lowercase : Bool) (o : Object) (s v identifier : String)
      → field name o ≡ some (text_field s)
      → IsNulFree (folded lowercase s)
      → IsNulFree (folded lowercase v)
      → ((key asked : String) × (from_object field go_syntax name lowercase o ≡ ok (some key))
          × (from_args value_syntax lowercase (text v ∷ []) ≡ ok asked)
          × (starts_with (key <> identifier) asked ≡ true))
        ↔ ((s ≢ "") × (folded lowercase s ≡ folded lowercase v))
  unfolding from_args
  from_object-from_args name lowercase o s v identifier e free_s free_v = (
    (λ (key, asked, stored, made, found).
        let (given, same) =
          key_of-some lowercase s key
            (ok-injective (sym (from_object-lem name lowercase o s e) ∙ stored)) in
        (
          given,
          found-same lowercase s v identifier free_s free_v (cc (same, ok-injective made, found)),
        )),
    λ (given, same). (
      terminated lowercase s,
      terminated lowercase v,
      from_object-lem name lowercase o s e ∙ ap ok (key_of-lem lowercase s given),
      refl,
      same-found lowercase s v identifier same,
    ),
  )
