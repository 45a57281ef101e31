-- ===== src/Mongo/Writes/Objects.antt =====
-- In which form the caller has the object after a write.
use manipulate.Prelude.{ℕ, ◌≡◌, ◌<◌, refl, String, Option, none, some}
use manipulate.Errors.{Error, Result, ok}
use manipulate.Mongo.Bson.{Document}
use manipulate.Mongo.Failures.{Driver}
use manipulate.Mongo.Retry.{Answer, Outcome, returned, running}
use manipulate.Mongo.Retry.Attempts.{ReturnsWithin, run_query-ReturnsWithin}
use manipulate.Mongo.Queries.{Request, Settings, write_document}
use manipulate.Mongo.Writes.{
  Encrypter, Collection, Ended, ended, panicked, not_ended, ◌and_then◌, encrypted, decrypted,
  answered, sent, update,
}

-- The stored form of the object, which decrypts to the object.
abbrev IsSealed : {Object : Type 0} → Option (Encrypter Object) → Object → Object → Type 0
IsSealed none o sealed = sealed ≡ o
IsSealed (some encrypter) o sealed =
    (encrypter.encrypt o ≡ (none, sealed)) × (encrypter.decrypt sealed ≡ (none, o))

module _ {Object S : Type 0} where
  -- The end comes, with one object on success and one on an error.
  abbrev pub EndsWith : Object → Object → Ended Object S → Type 0
  EndsWith o failed (ended none o' s) = o' ≡ o
  EndsWith o failed (ended (some e) o' s) = o' ≡ failed
  EndsWith o failed panicked = ⊥
  EndsWith o failed (not_ended s) = ⊥

  answered-EndsWith :
      {Out : Type 0} (n : ℕ) (o : Object) (outcome : Outcome Out S)
      → ReturnsWithin n outcome
      → EndsWith o o (answered (λ out o. o) o outcome)
  answered-EndsWith n o (returned out (some e) waits s) h = refl
  answered-EndsWith n o (returned none none waits s) h = refl
  answered-EndsWith n o (returned (some out) none waits s) h = refl
  answered-EndsWith n o (running s) h = h

  and_then-EndsWith :
      (a b failed : Object) (first : Ended Object S) (next : Object → S → Ended Object S)
      → EndsWith a failed first
      → ((s : S) → EndsWith b failed (next a s))
      → EndsWith b failed (first and_then next)
  and_then-EndsWith a b failed (ended none o s) next h later = rw h (later s)
  and_then-EndsWith a b failed (ended (some e) o s) next h later = h
  and_then-EndsWith a b failed panicked next h later = h
  and_then-EndsWith a b failed (not_ended s) next h later = h

  decrypted-EndsWith :
      (text : String) (encrypter : Option (Encrypter Object)) (o sealed failed : Object) (s : S)
      → IsSealed encrypter o sealed
      → EndsWith o failed (decrypted text encrypter sealed s)
  decrypted-EndsWith text none o sealed failed s h = h
  decrypted-EndsWith text (some encrypter) o sealed failed s h = rw h.1 refl

  encrypted-lem :
      (text : String) (encrypter : Option (Encrypter Object)) (o sealed : Object) (s : S)
      → IsSealed encrypter o sealed
      → encrypted text encrypter o s ≡ ended none sealed s
  encrypted-lem text none o sealed s h = rw h refl
  encrypted-lem text (some encrypter) o sealed s h = rw h.0 refl

module _ {Object S : Type 0} (identifier : Object → String)
    (set_identifier : String → Object → Object) (reset_defaults : Object → Object) (driver : Driver)
    (settings : Settings Object) (encrypter : Option (Encrypter Object))
    (default_retry_func : Option (ℕ → Error → Option Error)) (collection : Collection Object S)
    (now fuel : ℕ) where
  sent-EndsWith :
      (c : Request Object) (result : Result Document) (d : Document)
      (operation : Document → ℕ → S → Answer Unit × S) (o : Object) (n : ℕ) (s : S) {end : Error}
      → result ≡ ok d
      → c.ctx.done n ≡ some end
      → n < fuel
      → EndsWith o o (
          sent identifier set_identifier reset_defaults driver settings encrypter default_retry_func
            collection now fuel c result operation o s)
  sent-EndsWith c result d operation o n s filter ends enough = rw filter (
      answered-EndsWith n o _ (run_query-ReturnsWithin driver _ (operation d) n fuel s ends enough))

  -- When the object encrypts to a stored form that decrypts to it, the sharding filter is given and
  -- the context has ended after a try that the fuel covers, `Update` ends: on success with the
  -- object as it was, and on an error with the object in its encrypted form.
  pub update-EndsWith :
      (c : Request Object) (o sealed : Object) (d : Document) (n : ℕ) (s : S) {end : Error}
      → IsSealed encrypter o sealed
      → write_document identifier settings now c sealed ≡ ok d
      → c.ctx.done n ≡ some end
      → n < fuel
      → EndsWith o sealed (
          update identifier set_identifier reset_defaults driver settings encrypter
            default_retry_func collection now fuel c o s)
  unfolding update
  update-EndsWith c o sealed d n s h filter ends enough =
      rw (encrypted-lem "update: unable to encrypt attributes" encrypter o sealed s h) (
        and_then-EndsWith sealed o sealed _ _
          (sent-EndsWith c _ d (λ d. collection.update_one d sealed) sealed n s filter ends enough)
          (λ s. decrypted-EndsWith _ encrypter o sealed sealed s h))
