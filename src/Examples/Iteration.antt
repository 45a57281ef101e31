-- ===== src/Examples/Iteration.antt =====
-- Iterating over a server of two pages, and draining a store.
use manipulate.Prelude.{◌≡◌, refl, ℕ, ◌∷◌, [], none, some, arith, ◌==◌, if◌then◌else◌, ne_of_false}
use manipulate.Prelude.Int.{pos}
use manipulate.Iter.{iter, iter_until_func, returned, effective_size}
use manipulate.Iter.Collect.{Server, serve, Pages, more, last, concat, iter-Pages}
use manipulate.Iter.Drain.{serve_left, handle, iter_until_func-drain}
use manipulate.Examples.{types, request, apple, banana, cherry}

abbrev two_pages : Server types
two_pages size after =
    if after == ""
    then record { objects = apple ∷ banana ∷ []; next = "p2" }
    else record { objects = cherry ∷ []; next = "" }

two_pages-Pages :
    Pages types two_pages (effective_size (pos 2)) "" ((apple ∷ banana ∷ []) ∷ (cherry ∷ []) ∷ [])
two_pages-Pages =
    more apple (banana ∷ []) refl (ne_of_false "p2" "" refl) (last cherry [] refl refl)

iter-Pages_example :
    iter {S = ℕ} 3 tt (serve two_pages) (some request) [] (pos 2) 7
    ≡ (returned none 7, concat ((apple ∷ banana ∷ []) ∷ (cherry ∷ []) ∷ []))
iter-Pages_example =
    iter-Pages two_pages tt (some request) (pos 2) 3 7 two_pages-Pages (omega arith)

iter_until_func-drain_example :
    iter_until_func 4 tt
      (serve_left "t")
      []
      (some request)
      handle
      (pos 2)
      (record { left = apple ∷ banana ∷ cherry ∷ []; handled = [] })
    ≡ returned none (record { left = []; handled = apple ∷ banana ∷ cherry ∷ [] })
iter_until_func-drain_example =
    iter_until_func-drain "t" tt (some request) 1 4 (apple ∷ banana ∷ cherry ∷ [])
      (ne_of_false "t" "" refl) (omega arith)
