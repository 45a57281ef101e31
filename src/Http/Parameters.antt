-- ===== src/Http/Parameters.antt =====
-- maniphttp/utils.go: `addQueryParameters`, and `CompileFilter` of
-- maniphttp/internal/compiler/filter.go. The text of a filter is a parameter.
use manipulate.Prelude.{
  zero, suc, String, ◌<>◌, Bool, true, false, Option, none, some, List, [], ◌∷◌, if◌then◌else◌,
  ◌==◌,
}
use manipulate.Prelude.Int.{ℤ, pos, negsuc}
use manipulate.Prelude.Decimal.{decimal}
use manipulate.Context.{Types, Context}
use manipulate.Http.Headers.{Headers, add, add_globals}

-- strconv.Itoa
unfoldable pub itoa : ℤ → String
unfolding decimal
itoa (pos n) = decimal n
itoa (negsuc n) = "-" <> decimal (suc n)

abbrev pub compile_filter : {Filter : Type 0} → (Filter → String) → Option Filter → Headers
compile_filter filter_text none = []
compile_filter filter_text (some f) = ("q", filter_text f ∷ []) ∷ []

abbrev add_if : Bool → String → String → Headers → Headers
add_if false key v q = q
add_if true key v q = add key v q

unfoldable pub add_orders : List String → Headers → Headers
unfolding add
add_orders [] q = q
add_orders (order ∷ orders) q = add_orders orders (add "order" order q)

abbrev is_nonzero : ℤ → Bool
is_nonzero (pos zero) = false
is_nonzero _ = true

abbrev is_positive : ℤ → Bool
is_positive (pos (suc n)) = true
is_positive _ = false

abbrev is_given : String → Bool
is_given s = if s == "" then false else true

module _ {T : Types} (filter_text : T.Filter → String) where
  -- From the values of the URL, the values that are encoded into the query.
  unfoldable pub add_query_parameters : Context T → Headers → Headers
  unfolding add_globals add_orders add itoa
  add_query_parameters c q = add_if c.override_protection "override" "true" (
      add_if c.recursive "recursive" "true" (
        add_if (is_positive c.limit) "limit" (itoa c.limit) (
          add_if (is_given c.after) "after" c.after (
            add_if (is_positive c.page_size) "pagesize" (itoa c.page_size) (
              add_if (is_nonzero c.page) "page" (itoa c.page) (
                add_orders c.order (
                  add_globals c.parameters
                    (add_globals (compile_filter filter_text c.filter) q))))))))
