-- ===== src/Memory/Query/Selection.antt =====
-- The retrieval selects the objects that satisfy the filter: the steps and the induction.
use manipulate.Prelude.{
  ◌≡◌, refl, ◌∙◌, String, Bool, true, false, ◌&&◌, ◌||◌, none, List, [], ◌∷◌, arith, eq_iff,
}
use manipulate.Prelude.{if◌then◌else◌, Option-cases, inl, inr}
use mathlib.Core.Path.{subst, fun_ext}
use manipulate.Prelude.Dict.{Dict, lookup, insert, lookup-insert}
use manipulate.Errors.{Result, ok, err, panic, ◌>>=◌}
use manipulate.Filter.{Value}
use manipulate.Memory.Query.{
  Source, is_present, merge_in, intersection, combine, retrieve_intersection, retrieve_contains,
}
use manipulate.Memory.Query.Meaning.{
  keep, lookup-merge_in, lookup-intersection, by_id, IsIndexed, AreAccepted, holds_any,
}

module _ {Object : Type 0} (source : Source Object) where
  -- The objects that `combine` puts in.
  unfoldable pub kept : Dict Object → Bool → List Object → Dict Object → Dict Object
  kept existing full [] combined = combined
  kept existing full (o ∷ objects) combined = kept existing full objects (
      if is_present (lookup (source.identifier o) existing) || full
      then insert (source.identifier o) o combined
      else combined)

  pub combine-kept :
      ((o : Object) → source.copied o ≡ ok o)
      → (existing : Dict Object) (full : Bool) (objects : List Object) (combined : Dict Object)
      → combine source existing full objects combined ≡ ok (kept existing full objects combined)
  unfolding combine kept
  combine-kept same existing full [] combined = refl
  combine-kept same existing full (o ∷ objects) combined =
      rw (same o) (combine-kept same existing full objects _)

  lookup-kept :
      (existing : Dict Object) (full : Bool) (i : String) (objects : List Object)
      (combined found : Dict Object)
      → lookup i combined
        ≡ (if is_present (lookup i existing) || full then lookup i found else none)
      → lookup i (kept existing full objects combined) ≡ (
          if is_present (lookup i existing) || full
          then lookup i (by_id source.identifier objects found)
          else none)
  unfolding kept by_id
  lookup-kept existing full i [] combined found h = h
  lookup-kept existing full i (o ∷ objects) combined found h =
      lookup-kept existing full i objects _ (insert (source.identifier o) o found)
        (step (source.identifier o))
    where
      step :
          (j : String)
          → lookup i
              (if is_present (lookup j existing) || full then insert j o combined else combined)
            ≡ (if is_present (lookup i existing) || full then lookup i (insert j o found) else none)
      step j =
          ground (arith, h, eq_iff j i, lookup-insert j i o combined, lookup-insert j i o found)

module _ {Object : Type 0} (content : Dict Object) where
  -- The map holds exactly the table's objects that pass the test.
  abbrev pub Selects : Dict Object → (Object → Bool) → Type 0
  Selects items q = (i : String) → lookup i items ≡ keep q (lookup i content)

  -- The call returns such a map.
  abbrev pub Selected : Result (Dict Object) → (Object → Bool) → Type 0
  Selected (ok items) q = Selects items q
  Selected (err e) q = ⊥
  Selected panic q = ⊥

  -- The start of a query, with an empty map, or a map of what the query selected so far.
  abbrev pub Starts : Bool → Dict Object → (Object → Bool) → Type 0
  Starts true items q = (items ≡ []) × ((o : Object) → q o ≡ true)
  Starts false items q = Selects items q

  pub bind-Selected :
      (m : Result (Dict Object)) (f : Dict Object → Result (Dict Object)) (p q : Object → Bool)
      → Selected m p
      → ((items : Dict Object) → Selects items p → Selected (f items) q)
      → Selected (m >>= f) q
  bind-Selected (ok items) f p q h k = k items h
  bind-Selected (err e) f p q h k = absurd h
  bind-Selected panic f p q h k = absurd h

  pub Selected-ext :
      (r : Result (Dict Object)) (p q : Object → Bool)
      → ((o : Object) → p o ≡ q o)
      → Selected r p
      → Selected r q
  Selected-ext r p q h s = subst (Selected r) (fun_ext h) s

  narrow :
      (full : Bool) (items : Dict Object) (q h : Object → Bool)
      → Starts full items q
      → (i : String)
      → (if is_present (lookup i items) || full then keep h (lookup i content) else none)
        ≡ keep (λ o. q o && h o) (lookup i content)
  narrow true items q h s i = elim (Option-cases (lookup i content)) [
    | inl e ↦ rw e (ground arith)
    | inr (o, e) ↦ rw e (ground (arith, s.1 o))
  ]
  narrow false items q h s i = elim (Option-cases (lookup i content)) [
    | inl e ↦ ground (arith, s i, e)
    | inr (o, e) ↦ ground (arith, s i, e)
  ]

  pub merge_in-Selects :
      (target source : Dict Object) (p q : Object → Bool)
      → Selects target p
      → Selects source q
      → Selects (merge_in target source) (λ o. p o || q o)
  merge_in-Selects target source p q hp hq i =
      lookup-merge_in i target source ∙ elim (Option-cases (lookup i content)) [
        | inl e ↦ ground (arith, hp i, hq i, e)
        | inr (o, e) ↦ ground (arith, hp i, hq i, e)
      ]

  pub intersection-Selects :
      (full : Bool) (items found : Dict Object) (q h : Object → Bool)
      → Starts full items q
      → Selects found h
      → Selects (intersection items found full) (λ o. q o && h o)
  intersection-Selects full items found q h s f i =
      lookup-intersection i items found full ∙ rw (f i) (narrow full items q h s i)

module _ {Object : Type 0} (source : Source Object) (content : Dict Object)
    (accepts : String → Value → Bool) (holds : String → Value → Object → Bool)
    (indexed : IsIndexed source content accepts holds) where
  pub retrieve_intersection-Selected :
      (k : String) (v : Value) (full : Bool) (items : Dict Object) (q : Object → Bool)
      → accepts k v ≡ true
      → Starts content full items q
      → Selected content (retrieve_intersection source k v items full) (λ o. q o && holds k v o)
  unfolding retrieve_intersection
  retrieve_intersection-Selected k v full items q taken s =
      rw
        (
          indexed.get_objects k v taken,
          combine-kept source indexed.copied_self items full (indexed.objects k v) [],
        )
        λ i.
          lookup-kept source items full i (indexed.objects k v) [] []
            (unfold lookup in ground arith)
          ∙ rw (indexed.lookup_objects k v i taken) (narrow content full items q (holds k v) s i)

  pub retrieve_contains-Selected :
      (k : String) (values : List Value) (found : Dict Object) (p : Object → Bool)
      → AreAccepted accepts k values
      → Selects content found p
      → Selected content
          (retrieve_contains source k values found)
          (λ o. p o || holds_any holds k values o)
  unfolding retrieve_contains
  retrieve_contains-Selected k [] found p a h =
      Selected-ext content (ok found) p _ (λ o. ground arith) h
  retrieve_contains-Selected k (v ∷ values) found p a h =
      bind-Selected content (retrieve_intersection source k v [] true) _ (λ o. true && holds k v o)
        _ (retrieve_intersection-Selected k v true [] (λ o. true) a.0 (refl, λ o. refl))
        λ items s.
          Selected-ext content _ _ _ (λ o. ground arith)
            (retrieve_contains-Selected k values (merge_in found items) (λ o. p o || holds k v o)
              a.1 (merge_in-Selects content found items p (holds k v) h s))
