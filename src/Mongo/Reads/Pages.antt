-- ===== src/Mongo/Reads/Pages.antt =====
-- Which next page `RetrieveMany` leaves in the context.
use manipulate.Prelude.{
  ℕ, ◌≡◌, ◌≢◌, refl, String, Bool, true, false, not, ◌&&◌, ◌⊎◌, inl, inr, Option, none, some, List,
  ◌==◌, if◌then◌else◌, length, arith, eq_iff,
}
use manipulate.Prelude.Int.{ℤ, pos, negsuc}
use manipulate.Errors.{Error, Result, ok, err, panic}
use manipulate.Mongo.Bson.{Bson}
use manipulate.Mongo.Failures.{Driver}
use manipulate.Mongo.Ordering.{Found}
use manipulate.Mongo.Queries.{Request, Settings, Query, retrieve_many_query}
use manipulate.Mongo.Retry.{Outcome, returned, running}
use manipulate.Mongo.Reads.{
  Source, Read, read, panicked, unfinished, set_next, last_id, has_next, is_length, with_document,
  after_query, many_read, restore_all, retrieve_many,
}
use manipulate.Mongo.Writes.{Encrypter}

is_length-lem : (n : ℕ) (limit : ℤ) → is_length n limit ≡ true → pos n ≡ limit
is_length-lem n (pos m) h = ground (arith, h)
is_length-lem n (negsuc m) h = cc h

not_same : (s t : String) → not (s == t) ≡ true → s ≢ t
not_same s t h = ground (arith, h, eq_iff s t)

parts : (a b d e : Bool) → (a && b && d && e) ≡ true → (a ≡ true) × (d ≡ true) × (e ≡ true)
parts a b d e h = ground (arith, h)

module _ {Object : Type 0} (identifier : Object → String) (reset_defaults : Object → Object)
    (encrypter : Option (Encrypter Object)) (c : Request Object) where
  -- The next page is as it was, or it is the identifier of the last object of a full page, which is
  -- not the one that this page came after.
  abbrev IsNext : List Object → Request Object → Type 0
  IsNext os c' =
      (c'.next ≡ c.next)
      ⊎ ((c'.next ≡ last_id identifier reset_defaults encrypter os)
          × (c'.next ≢ "")
          × (c'.next ≢ c.after)
          × (pos (length os) ≡ c.limit))

  abbrev pub LeavesNext : {S : Type 0} → Read (List Object) Object S → Type 0
  LeavesNext (read none (some os) c' s) = IsNext os c'
  LeavesNext (read e os c' s) = c'.next ≡ c.next
  LeavesNext panicked = Unit
  LeavesNext (unfinished s) = Unit

  set_next-IsNext :
      (os : List Object)
      → IsNext os (set_next (last_id identifier reset_defaults encrypter os) (length os) c)
  unfolding set_next
  set_next-IsNext os = by (has_next last (length os) c) (λ h. h)
    where
      last : String
      last = last_id identifier reset_defaults encrypter os

      by :
          (b : Bool)
          → (b ≡ true → has_next last (length os) c ≡ true)
          → IsNext os (if b then record c { next = last } else c)
      by false h = inl refl
      by true h =
          let (given, full, new) = parts _ _ _ _ (h refl) in
          inr (refl, not_same _ _ given, not_same _ _ new, is_length-lem _ c.limit full)

module _ {Object S : Type 0} (identifier : Object → String) (reset_defaults : Object → Object)
    (driver : Driver) (settings : Settings Object) (encrypter : Option (Encrypter Object))
    (default_retry_func : Option (ℕ → Error → Option Error)) (source : Source Object S)
    (find_id : Bson → String → Found) (now fuel : ℕ) (c : Request Object) where
  abbrev Leaves : Read (List Object) Object S → Type 0
  Leaves r = LeavesNext identifier reset_defaults encrypter c r

  many_read-Leaves :
      (o : Option Error × List Object) (s : S)
      → Leaves (
          many_read identifier reset_defaults driver settings encrypter default_retry_func source
            find_id now fuel c o s)
  many_read-Leaves (some e, os) s = refl
  many_read-Leaves (none, os) s = set_next-IsNext identifier reset_defaults encrypter c os

  after_query-Leaves :
      {Got : Type 0} (keep : Got → S → Read (List Object) Object S) (outcome : Outcome Got S)
      → ((got : Got) (s : S) → Leaves (keep got s))
      → Leaves (
          after_query identifier reset_defaults driver settings encrypter default_retry_func source
            find_id now fuel keep c outcome)
  after_query-Leaves keep (running s) h = tt
  after_query-Leaves keep (returned out (some e) waits s) h = refl
  after_query-Leaves keep (returned none none waits s) h = tt
  after_query-Leaves keep (returned (some got) none waits s) h = h got s

  with_document-Leaves :
      (next : Query → S → Read (List Object) Object S) (query : Result Query) (s : S)
      → ((q : Query) (s : S) → Leaves (next q s))
      → Leaves (
          with_document identifier reset_defaults driver settings encrypter default_retry_func
            source find_id now fuel c next query s)
  with_document-Leaves next (ok q) s h = h q s
  with_document-Leaves next (err e) s h = refl
  with_document-Leaves next panic s h = tt

  -- `RetrieveMany` leaves the next page of the context as it was, also on an error, or it sets it to
  -- the identifier of the last of the objects that it returns. In this case there are as many of
  -- them as the limit, the identifier is not empty, and it is not the one that the page came after.
  pub retrieve_many-LeavesNext :
      (default_order : Option (List String)) (s : S)
      → Leaves (
          retrieve_many identifier reset_defaults driver settings encrypter default_retry_func
            source find_id now fuel default_order c s)
  unfolding retrieve_many
  retrieve_many-LeavesNext default_order s =
      with_document-Leaves _
        (retrieve_many_query identifier settings now driver find_id default_order c) s
        λ q s.
          after_query-Leaves _ _
            λ os s. many_read-Leaves (restore_all identifier reset_defaults encrypter os) s
