-- ===== src/Prelude/Text.antt =====
-- The functions of the package strings that the source calls. Letters are the ASCII letters: a key
-- or prefix with another capital letter is outside the model.
use Prim.Native.Nat.{ℕ, zero, suc, ◌-◌}
use Prim.Native.Char.{Char, code}
use Prim.Native.String.{String, ◌++◌ as ◌<>◌}
use mathlib.Core.Bool.{Bool, true, false, ◌&&◌, ◌||◌}
use mathlib.Core.List.{List, [], ◌∷◌}
use mathlib.Core.Option.{Option, none, some}
use manipulate.Prelude.Tests.{leb, eqb, if◌then◌else◌, ◌==◌}
use manipulate.Prelude.Lists.{get_or}

abbrev lower_letters : List Char
lower_letters =
    "a" ∷ "b" ∷ "c" ∷ "d" ∷ "e" ∷ "f" ∷ "g" ∷ "h" ∷ "i" ∷ "j" ∷ "k" ∷ "l" ∷ "m" ∷ "n" ∷ "o" ∷ "p"
    ∷ "q" ∷ "r" ∷ "s" ∷ "t" ∷ "u" ∷ "v" ∷ "w" ∷ "x" ∷ "y" ∷ "z" ∷ []

lower_char : Char → Char
lower_char c =
    if leb b'A' (code c) && leb (code c) b'Z' then get_or lower_letters (code c - b'A') c else c

-- strings.ToLower
unfoldable pub to_lower : String → String
unfolding lower_char
to_lower String.[] = String.[]
to_lower (String.◌∷◌ c s) = String.◌∷◌ (lower_char c) (to_lower s)

-- strings.HasPrefix and strings.TrimPrefix, of a prefix that is one character.
unfoldable pub has_prefix : ℕ → String → Bool
has_prefix p String.[] = false
has_prefix p (String.◌∷◌ c s) = eqb (code c) p

unfoldable pub trim_prefix : ℕ → String → String
trim_prefix p String.[] = String.[]
trim_prefix p (String.◌∷◌ c s) = if eqb (code c) p then s else String.◌∷◌ c s

-- strings.TrimSuffix, of a suffix that is one character.
unfoldable pub trim_suffix : ℕ → String → String
trim_suffix p String.[] = String.[]
trim_suffix p (String.◌∷◌ c String.[]) =
    if eqb (code c) p then String.[] else String.◌∷◌ c String.[]
trim_suffix p (String.◌∷◌ c (String.◌∷◌ d s)) = String.◌∷◌ c (trim_suffix p (String.◌∷◌ d s))

-- strings.SplitN(s, ".", 2): the parts around the first dot, if there is one.
unfoldable pub split_dot : String → Option (String × String)
split_dot String.[] = none
split_dot (String.◌∷◌ c s) =
    let rest = split_dot s in
    if eqb (code c) b'.'
    then some (String.[], s)
    else elim rest [ none ↦ none | some (a, b) ↦ some (String.◌∷◌ c a, b) ]

-- strings.HasPrefix, strings.Contains and strings.HasSuffix.
unfoldable pub starts_with : String → String → Bool
starts_with s String.[] = true
starts_with String.[] (String.◌∷◌ d p) = false
starts_with (String.◌∷◌ c s) (String.◌∷◌ d p) = eqb (code c) (code d) && starts_with s p

unfoldable pub includes : String → String → Bool
unfolding starts_with
includes String.[] part = starts_with String.[] part
includes (String.◌∷◌ c s) part = starts_with (String.◌∷◌ c s) part || includes s part

unfoldable pub ends_with : String → String → Bool
ends_with String.[] part = String.[] == part
ends_with (String.◌∷◌ c s) part = String.◌∷◌ c s == part || ends_with s part

abbrev text_length : String → ℕ
text_length String.[] = zero
text_length (String.◌∷◌ c s) = suc (text_length s)

-- strings.Replace(s, old, new, -1), for an old text that is not empty: `skip` characters of the
-- last occurrence are left out.
replace_from : String → String → ℕ → String → String
unfolding starts_with
replace_from old new skip String.[] = String.[]
replace_from old new (suc skip) (String.◌∷◌ c s) = replace_from old new skip s
replace_from old new zero (String.◌∷◌ c s) =
    let replaced = new <> replace_from old new (text_length old - 1) s in
    let kept = String.◌∷◌ c (replace_from old new zero s) in
    if starts_with (String.◌∷◌ c s) old then replaced else kept

unfoldable pub replace_all : String → String → String → String
unfolding replace_from
replace_all s old new = replace_from old new zero s

-- strings.Replace(s, old, new, 1).
drop_text : ℕ → String → String
drop_text zero s = s
drop_text (suc n) String.[] = String.[]
drop_text (suc n) (String.◌∷◌ c s) = drop_text n s

unfoldable pub replace_first : String → String → String → String
unfolding starts_with drop_text
replace_first String.[] old new = String.[]
replace_first (String.◌∷◌ c s) old new =
    let kept = String.◌∷◌ c (replace_first s old new) in
    if starts_with (String.◌∷◌ c s) old
    then new <> drop_text (text_length old) (String.◌∷◌ c s)
    else kept

-- strings.TrimLeft and strings.TrimRight, of a set of one character.
unfoldable pub trim_left : ℕ → String → String
trim_left p String.[] = String.[]
trim_left p (String.◌∷◌ c s) =
    let rest = trim_left p s in if eqb (code c) p then rest else String.◌∷◌ c s

abbrev drop_alone : Bool → Char → String → String
drop_alone true c String.[] = String.[]
drop_alone b c s = String.◌∷◌ c s

unfoldable pub trim_right : ℕ → String → String
trim_right p String.[] = String.[]
trim_right p (String.◌∷◌ c s) = drop_alone (eqb (code c) p) c (trim_right p s)
