-- ===== src/Context/Derivation.antt =====
-- What `Derive` keeps, and how derivations and options compose.
use manipulate.Prelude.{◌≡◌, refl, ap, ◌∙◌, List, [], ◌∷◌, ◌++◌, All}
use manipulate.Context.{Types, Context, ContextOption, apply_options, copy, derive}

module _ {T : Types} where
  -- An option that does the same before and after the copy of a context.
  abbrev pub Settles : ContextOption T → Type 0
  Settles opt = (c : Context T) → copy (opt c) ≡ opt (copy c)

  apply_options-append :
      (xs ys : List (ContextOption T)) (c : Context T)
      → apply_options (xs ++ ys) c ≡ apply_options ys (apply_options xs c)
  unfolding apply_options
  apply_options-append [] ys c = refl
  apply_options-append (x ∷ xs) ys c = apply_options-append xs ys (x c)

  copy-copy : (c : Context T) → copy (copy c) ≡ copy c
  unfolding copy
  copy-copy c = refl

  copy-apply_options :
      (xs : List (ContextOption T)) (c : Context T)
      → All Settles xs
      → copy (apply_options xs c) ≡ apply_options xs (copy c)
  unfolding apply_options
  copy-apply_options [] c h = refl
  copy-apply_options (x ∷ xs) c h = copy-apply_options xs (x c) h.1 ∙ ap (apply_options xs) (h.0 c)

  -- Deriving twice is deriving once with the options of both, in order, if each of the first
  -- options commutes with the copy.
  pub derive-derive :
      (xs ys : List (ContextOption T)) (c : Context T)
      → All Settles xs
      → derive (derive c xs) ys ≡ derive c (xs ++ ys)
  derive-derive xs ys c h =
      unfold derive in
      rw (apply_options-append xs ys (copy c), copy-apply_options xs (copy c) h, copy-copy c)
