-- ===== src/Iter/Drain.antt =====
-- `IterUntilFunc` over a store whose objects the iterator function removes block by block.
use manipulate.Prelude.{
  ℕ, zero, suc, ◌+◌, ◌<◌, ◌≤◌, ◌≡◌, ◌≢◌, refl, sym, ap, inl, inr, ◌⊎◌, ◌∙◌, String, true, Option,
  none, arith,
}
use manipulate.Prelude.{List, [], ◌∷◌, ◌++◌, length, eq_false, ◌==◌, if◌then◌else◌}
use manipulate.Prelude.Int.{ℤ, pos, negsuc}
use manipulate.Errors.{Error}
use manipulate.Context.{Types, Context, derive}
use manipulate.Context.Options.{option_after}
use manipulate.Iter.{RetrieveMany, returned, loop, round, context_or_new, iter_until_func}
use mathlib.Core.List.{append-nil, append_assoc}

-- The objects that still match the filter, and those that were handled, in order.
pub record Store (A : Type 0) : Type 0 where
  pub left : List A
  pub handled : List A

abbrev split {ℓ} : {A : Type ℓ} → ℕ → List A → List A × List A
split zero xs = ([], xs)
split (suc n) [] = ([], [])
split (suc n) (x ∷ xs) = let (front, rest) = split n xs in (x ∷ front, rest)

abbrev drop_all {ℓ} : {A B : Type ℓ} → List A → List B → List B
drop_all [] ys = ys
drop_all (x ∷ xs) [] = []
drop_all (x ∷ xs) (y ∷ ys) = drop_all xs ys

abbrev count : ℤ → ℕ
count (pos n) = n
count (negsuc n) = 0

-- No token is set with the last objects, and otherwise some token that is not empty.
abbrev token_for {ℓ} : {A : Type ℓ} → String → List A → String
token_for token [] = ""
token_for token (x ∷ xs) = token

-- The first objects that are left; with a token, which says how far the pages before went, the ones
-- behind them.
abbrev page_at {ℓ} : {A : Type ℓ} → String → ℕ → List A → List A × List A
page_at after n xs = if after == "" then split n xs else split n (split n xs).1

-- Fills the list with the page that the context's `after` and `limit` name, of the objects that are
-- left at the time of the call.
abbrev pub serve_left : {T : Types} → String → RetrieveMany T (Store T.Identifiable)
serve_left token mctx dest s = record {
  error = none;
  objects = dest ++ (page_at mctx.after (count mctx.limit) s.left).0;
  mctx = record mctx { next = token_for token (page_at mctx.after (count mctx.limit) s.left).1 };
  state = s;
}

-- The iterator function deletes the objects of its block.
abbrev pub handle : {A : Type 0} → List A → Store A → Option Error × Store A
handle block s = (none, record { left = drop_all block s.left; handled = s.handled ++ block })

split-append {ℓ} : {A : Type ℓ} (n : ℕ) (xs : List A) → (split n xs).0 ++ (split n xs).1 ≡ xs
split-append zero xs = refl
split-append (suc n) [] = refl
split-append (suc n) (x ∷ xs) = ap (λ ys. x ∷ ys) (split-append n xs)

drop_all-split {ℓ} :
    {A : Type ℓ} (n : ℕ) (xs : List A) → drop_all (split n xs).0 xs ≡ (split n xs).1
drop_all-split zero xs = refl
drop_all-split (suc n) [] = refl
drop_all-split (suc n) (x ∷ xs) = drop_all-split n xs

length-split {ℓ} : {A : Type ℓ} (n : ℕ) (xs : List A) → length (split n xs).1 ≤ length xs
length-split zero xs = omega arith
length-split (suc n) [] = omega arith
length-split (suc n) (x ∷ xs) = omega (arith, length-split n xs)

List-cases {ℓ} : {A : Type ℓ} (xs : List A) → (xs ≡ []) ⊎ ((y : A) × (ys : List A) × (xs ≡ y ∷ ys))
List-cases [] = inl refl
List-cases (y ∷ ys) = inr (y, ys, refl)

module _ {T : Types} (token : String) (set : token ≢ "") (mctx : Context T) (k : ℕ) where
  loop-drain :
      (fuel n : ℕ) (left handled : List T.Identifiable)
      → length left < fuel
      → loop
          (serve_left token)
          []
          mctx
          handle
          (pos (suc k))
          true
          fuel
          n
          ""
          (record { left = left; handled = handled })
        ≡ returned none (record { left = []; handled = handled ++ left })
  unfolding loop round derive option_after
  loop-drain zero n left handled h = elim h [ ]
  loop-drain (suc fuel) n [] handled h = rw append-nil
  loop-drain (suc fuel) n (o ∷ left) handled h = elim (List-cases (split k left).1) [
    | inl e ↦
        rw (loop, round, drop_all-split, e)
          (ap (λ front. returned none (record { left = []; handled = handled ++ o ∷ front }))
            (sym (append-nil _) ∙ front_rest left e))
    | inr (y, ys, e) ↦
        rw (loop, round, drop_all-split, e, eq_false token "" set)
          (loop-drain fuel (n + 1) (y ∷ ys) (handled ++ o ∷ (split k left).0)
              (omega (arith, length-split k left, ap length e))
            ∙ ap (λ all. returned none (record { left = []; handled = all }))
                (append_assoc handled (o ∷ (split k left).0) (y ∷ ys)
                  ∙ ap (λ front. handled ++ o ∷ front) (front_rest left e)))
  ]
    where
      front_rest :
          (left : List T.Identifiable) {rest : List T.Identifiable}
          → (split k left).1 ≡ rest
          → (split k left).0 ++ rest ≡ left
      front_rest left e = rw (← e) (split-append k left)

-- From a store that keeps its objects until the iterator function deletes them, that sets a token
-- while objects are left behind the block, and that skips a page of what is left when it is asked
-- with the token, `IterUntilFunc` with a positive block size
-- returns no error when all objects are handled, each once and in the store's order, and none is
-- left. One more round of fuel than there are objects is enough.
pub iter_until_func-drain :
    {T : Types} (token : String) (ctx : T.GoContext) (mctx : Option (Context T)) (k fuel : ℕ)
    (left : List T.Identifiable)
    → token ≢ ""
    → length left < fuel
    → iter_until_func fuel ctx
        (serve_left token)
        []
        mctx
        handle
        (pos (suc k))
        (record { left = left; handled = [] })
      ≡ returned none (record { left = []; handled = left })
unfolding iter_until_func
iter_until_func-drain token ctx mctx k fuel left set h =
    loop-drain token set (context_or_new ctx mctx) k fuel 0 left [] h
