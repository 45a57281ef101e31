-- ===== src/Iter.antt =====
-- iter.go: `IterFunc`, `IterUntilFunc` and `Iter`. A list of objects is an `elemental.Identifiables`.
-- `S` is what the manipulator and the iterator function may change. The loop takes fuel; `running`
-- means that it ran out. The panics on a nil argument are not modelled: no argument is nil, but
-- for the context.
pub mod Collect
pub mod Drain
use manipulate.Prelude.{ℕ, zero, suc, ◌+◌, String, ◌<>◌, Bool, true, false, Option, none, some}
use manipulate.Prelude.{List, [], ◌∷◌, ◌++◌, ◌==◌, if◌then◌else◌}
use manipulate.Prelude.Int.{ℤ, pos, is_nonpos}
use manipulate.Prelude.Decimal.{decimal}
use manipulate.Errors.{Error, wrapped}
use manipulate.Context.{Types, Context, new_context, derive}
use manipulate.Context.Options.{option_after}

-- What a call of `RetrieveMany` leaves: its error, the filled list, the context and the state.
pub record Retrieved (T : Types) (S : Type 0) : Type 0 where
  pub error : Option Error
  pub objects : List T.Identifiable
  pub mctx : Context T
  pub state : S

abbrev pub RetrieveMany : Types → Type 0 → Type 0
RetrieveMany T S = Context T → List T.Identifiable → S → Retrieved T S

abbrev IteratorFunc : Types → Type 0 → Type 0
IteratorFunc T S = List T.Identifiable → S → Option Error × S

pub data Outcome (S : Type 0) : Type 0 where
  returned : Option Error → S → Outcome S
  running : S → Outcome S

-- How a round of the loop ends: by a return, or with the next `after`.
pub data Round (S : Type 0) : Type 0 where
  finish : Option Error → S → Round S
  continue : String → S → Round S

abbrev default_block_size : ℤ
default_block_size = pos 1000

abbrev pub effective_size : ℤ → ℤ
effective_size block_size = if is_nonpos block_size then default_block_size else block_size

-- `mctx == nil` is `none`.
abbrev context_or_new : {T : Types} → T.GoContext → Option (Context T) → Context T
context_or_new ctx none = new_context ctx []
context_or_new ctx (some mctx) = mctx

-- After the call of the iterator function on a block.
unfoldable pub after_block : {S : Type 0} → Bool → String → String → ℕ → Option Error × S → Round S
after_block disable after next iter (some e, s) =
    finish (some (wrapped ("iter function returned an error on iteration " <> decimal iter) e)) s
after_block disable after next iter (none, s) =
    if next == "" then finish none s else continue (if disable then after else next) s

unfoldable pub on_objects :
    {A S : Type 0}
    → (List A → S → Option Error × S)
    → Bool
    → String
    → String
    → ℕ
    → List A
    → S
    → Round S
on_objects f disable after next iter [] s = finish none s
on_objects f disable after next iter (o ∷ block) s =
    after_block disable after next iter (f (o ∷ block) s)

module _ {T : Types} {S : Type 0} where
  unfoldable pub on_retrieved :
      IteratorFunc T S → Bool → String → ℕ → Option Error → Retrieved T S → Round S
  on_retrieved f disable after iter (some e) r =
      finish (some (wrapped ("unable to retrieve objects for iteration " <> decimal iter) e))
        r.state
  on_retrieved f disable after iter none r =
      on_objects f disable after r.mctx.next iter r.objects r.state

  -- One round of the loop of `doIterFunc`, the one numbered `iter`.
  unfoldable pub round :
      RetrieveMany T S
      → List T.Identifiable
      → Context T
      → IteratorFunc T S
      → ℤ
      → Bool
      → ℕ
      → String
      → S
      → Round S
  unfolding after_block on_objects on_retrieved
  round retrieve template mctx f size disable iter after s =
      let r = retrieve (derive mctx (option_after after size ∷ [])) template s in
      on_retrieved f disable after iter r.error r

  -- The loop: `iter` rounds are over.
  unfoldable pub loop :
      RetrieveMany T S
      → List T.Identifiable
      → Context T
      → IteratorFunc T S
      → ℤ
      → Bool
      → ℕ
      → ℕ
      → String
      → S
      → Outcome S
  loop retrieve template mctx f size disable zero iter after s = running s
  loop retrieve template mctx f size disable (suc fuel) iter after s =
      elim (round retrieve template mctx f size disable (iter + 1) after s) [
        | finish error s' ↦ returned error s'
        | continue after' s' ↦ loop retrieve template mctx f size disable fuel (iter + 1) after' s'
      ]

  unfoldable pub do_iter_func :
      ℕ
      → T.GoContext
      → RetrieveMany T S
      → List T.Identifiable
      → Option (Context T)
      → IteratorFunc T S
      → ℤ
      → Bool
      → S
      → Outcome S
  unfolding loop round
  do_iter_func fuel ctx retrieve template mctx f block_size disable s =
      loop retrieve template (context_or_new ctx mctx) f (effective_size block_size) disable fuel 0
        "" s

  unfoldable pub iter_func :
      ℕ
      → T.GoContext
      → RetrieveMany T S
      → List T.Identifiable
      → Option (Context T)
      → IteratorFunc T S
      → ℤ
      → S
      → Outcome S
  unfolding do_iter_func
  iter_func fuel ctx retrieve template mctx f block_size s =
      do_iter_func fuel ctx retrieve template mctx f block_size false s

  unfoldable pub iter_until_func :
      ℕ
      → T.GoContext
      → RetrieveMany T S
      → List T.Identifiable
      → Option (Context T)
      → IteratorFunc T S
      → ℤ
      → S
      → Outcome S
  unfolding do_iter_func
  iter_until_func fuel ctx retrieve template mctx f block_size s =
      do_iter_func fuel ctx retrieve template mctx f block_size true s

-- The manipulator's state, and the variable `identifiablesTemplate` that the closure of `Iter`
-- appends to.
abbrev pub Collecting : Types → Type 0 → Type 0
Collecting T S = record { state : S; collected : List T.Identifiable }

abbrev pub append_block : (T : Types) (S : Type 0) → IteratorFunc T (Collecting T S)
append_block T S block s = (none, record { state = s.state; collected = s.collected ++ block })

-- `Iter` returns the collected objects, or nil and the error.
abbrev pub iter_result :
    (T : Types) {S : Type 0} → Outcome (Collecting T S) → Outcome S × List T.Identifiable
iter_result T (returned none s) = (returned none s.state, s.collected)
iter_result T (returned (some e) s) = (returned (some e) s.state, [])
iter_result T (running s) = (running s.state, [])

module _ {T : Types} {S : Type 0} where
  abbrev pub beside : RetrieveMany T S → RetrieveMany T (Collecting T S)
  beside retrieve mctx dest s =
      let r = retrieve mctx dest s.state in
      record {
        error = r.error;
        objects = r.objects;
        mctx = r.mctx;
        state = record { state = r.state; collected = s.collected };
      }

  unfoldable pub iter :
      ℕ
      → T.GoContext
      → RetrieveMany T S
      → Option (Context T)
      → List T.Identifiable
      → ℤ
      → S
      → Outcome S × List T.Identifiable
  unfolding iter_func
  iter fuel ctx retrieve mctx template block_size s = iter_result T (
      iter_func fuel ctx (beside retrieve) template mctx (append_block T S) block_size
        (record { state = s; collected = template }))
