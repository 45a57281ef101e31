-- ===== src/Iter/Collect.antt =====
-- `Iter` over a server that gives out pages: each page has its objects and the token of the next
-- page, and an empty token marks the last one.
use manipulate.Prelude.{
  ℕ, zero, suc, ◌+◌, ◌<◌, ◌≡◌, ◌≢◌, ap, ◌∙◌, String, false, Option, none, arith,
}
use manipulate.Prelude.{List, [], ◌∷◌, ◌++◌, length, eq_false}
use manipulate.Prelude.Int.{ℤ}
use manipulate.Context.{Types, Context, derive}
use manipulate.Context.Options.{option_after}
use manipulate.Iter.{
  RetrieveMany, returned, loop, round, on_objects, beside, append_block, effective_size, iter,
  iter_func, iter_result,
}
use mathlib.Core.List.{append-nil, append_assoc}

-- The page at a token, for blocks of a size.
abbrev pub Server : Types → Type 0
Server T = ℤ → String → record { objects : List T.Identifiable; next : String }

-- Fills the list that it is given from the page that the context's `after` and `limit` name, and
-- sets the context's `next`.
abbrev pub serve : {T : Types} {S : Type 0} → Server T → RetrieveMany T S
serve server mctx dest s = record {
  error = none;
  objects = dest ++ (server mctx.limit mctx.after).objects;
  mctx = record mctx { next = (server mctx.limit mctx.after).next };
  state = s;
}

-- The pages from a token on: up to an empty page, or to one with no token.
pub data Pages (T : Types) (server : Server T) (size : ℤ)
    : String → List (List T.Identifiable) → Type 0 where
  empty : {after : String} → (server size after).objects ≡ [] → Pages T server size after []
  last :
      {after : String} (o : T.Identifiable) (block : List T.Identifiable)
      → (server size after).objects ≡ o ∷ block
      → (server size after).next ≡ ""
      → Pages T server size after ((o ∷ block) ∷ [])
  more :
      {after : String} (o : T.Identifiable) (block : List T.Identifiable)
      {blocks : List (List T.Identifiable)}
      → (server size after).objects ≡ o ∷ block
      → (server size after).next ≢ ""
      → Pages T server size (server size after).next blocks
      → Pages T server size after ((o ∷ block) ∷ blocks)

unfoldable pub concat {ℓ} : {A : Type ℓ} → List (List A) → List A
concat [] = []
concat (block ∷ blocks) = block ++ concat blocks

module _ {T : Types} {S : Type 0} (server : Server T) (mctx : Context T) (size : ℤ) (s : S) where
  loop-Pages :
      {after : String} {blocks : List (List T.Identifiable)}
      → Pages T server size after blocks
      → (fuel n : ℕ) (collected : List T.Identifiable) → length blocks < fuel
      → loop
          (beside (serve server))
          []
          mctx
          (append_block T S)
          size
          false
          fuel
          n
          after
          (record { state = s; collected = collected })
        ≡ returned none (record { state = s; collected = collected ++ concat blocks })
  unfolding loop round derive option_after concat
  loop-Pages (empty e) zero n collected h = elim h [ ]
  loop-Pages (empty e) (suc fuel) n collected h = rw (loop, round, on_objects, e, append-nil)
  loop-Pages (last o block e e') zero n collected h = elim h [ ]
  loop-Pages (last o block e e') (suc fuel) n collected h =
      rw (loop, round, on_objects, e, e', append-nil)
  loop-Pages (more o block e e' p) zero n collected h = elim h [ ]
  loop-Pages (more o block e e' p) (suc fuel) n collected h =
      rw (loop, round, on_objects, e, eq_false _ _ e')
        (loop-Pages p fuel (n + 1) (collected ++ o ∷ block) (omega arith)
          ∙ rw (append_assoc collected (o ∷ block)))

-- The same for `IterFunc` with the function of `Iter`, which appends each block.
pub iter_func-Pages :
    {T : Types} {S : Type 0} (server : Server T) (ctx : T.GoContext) (mctx : Option (Context T))
    (block_size : ℤ) {blocks : List (List T.Identifiable)} (fuel : ℕ) (s : S)
    → Pages T server (effective_size block_size) "" blocks
    → length blocks < fuel
    → iter_func fuel ctx
        (beside (serve server))
        []
        mctx
        (append_block T S)
        block_size
        (record { state = s; collected = [] })
      ≡ returned none (record { state = s; collected = concat blocks })
unfolding iter_func
iter_func-Pages server ctx mctx block_size fuel s p h = loop-Pages server _ _ s p fuel 0 [] h

-- Over a server whose pages from the first on are `blocks`, asked for blocks of the given size, or
-- of 1000 objects if that is not positive, `Iter` with an empty template returns no error and all
-- objects of all pages in order. One more round of fuel than there are pages is enough.
pub iter-Pages :
    {T : Types} {S : Type 0} (server : Server T) (ctx : T.GoContext) (mctx : Option (Context T))
    (block_size : ℤ) {blocks : List (List T.Identifiable)} (fuel : ℕ) (s : S)
    → Pages T server (effective_size block_size) "" blocks
    → length blocks < fuel
    → iter fuel ctx (serve server) mctx [] block_size s ≡ (returned none s, concat blocks)
unfolding iter
iter-Pages {T} server ctx mctx block_size fuel s p h =
    ap (iter_result T) (iter_func-Pages server ctx mctx block_size fuel s p h)
