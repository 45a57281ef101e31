-- ===== src/Memory/Store/Counting.antt =====
-- `Count` beside `RetrieveMany`.
use manipulate.Prelude.{
  ◌≡◌, refl, ap, suc, ◌+◌, ◌∙◌, String, some, List, [], ◌∷◌, ◌++◌, map, length, length-append,
}
use manipulate.Errors.{Result, ok, err, panic, ◌>>=◌}
use manipulate.Context.{Types, Context}
use manipulate.Memory.Backend.{MemDb, Elemental}
use manipulate.Memory.Store.{Manipulator, retrieve_many, count}

length-map {ℓ} : {A B : Type ℓ} (f : A → B) (xs : List A) → length (map f xs) ≡ length xs
length-map f [] = refl
length-map f (x ∷ xs) = ap suc (length-map f xs)

module _ {T : Types} (memdb : MemDb T.Identifiable) (elemental : Elemental T) where
  -- With a context, `Count` returns the number of objects that `RetrieveMany` appends to its list,
  -- and it fails exactly as `RetrieveMany` does.
  pub count-retrieve_many :
      (mctx : Context T) (table : String) (dest : List T.Identifiable)
      (m : Manipulator memdb elemental)
      → (retrieve_many memdb elemental (some mctx) table dest m >>= λ objects. ok (length objects))
        ≡ (count memdb elemental (some mctx) table m >>= λ n. ok (length dest + n))
  unfolding retrieve_many count
  count-retrieve_many mctx table dest m = go _
    where
      go :
          (r : Result (List (String × T.Identifiable)))
          → ((r >>= λ items. ok (dest ++ map (λ p. p.1) items)) >>= λ objects. ok (length objects))
            ≡ ((r >>= λ items. ok (length items)) >>= λ n. ok (length dest + n))
      go (ok items) = ap ok (length-append dest _ ∙ ap (λ n. length dest + n) (length-map _ items))
      go (err e) = refl
      go panic = refl
