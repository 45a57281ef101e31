-- ===== src/Http/Operations.antt =====
-- maniphttp/manipulator.go: the operations of the manipulator, on a context that is not nil and
-- without tracing. An object is what the URLs read of it; `client` is what sends a request of a
-- method to a URL, with the body that `encode` made.
pub mod Idempotency
use manipulate.Prelude.{
  ℕ, String, Bool, true, false, Option, none, some, List, if◌then◌else◌, ◌==◌, eqb, map,
}
use manipulate.Prelude.Int.{ℤ, pos}
use manipulate.Context.{Types, Context}
use manipulate.Errors.{
  Error, typed, foreign, cannot_build_query, cannot_marshal, not_implemented, Result, ok, err,
  panic,
}
use manipulate.Http.Urls.{Target, get_personal_url, get_url_for_children_identity}
use manipulate.Http.Exchange.{Client, Response}
use manipulate.Http.Send.{Sent, sent, crashed, sending, send}

-- What the operations read of and do to an object.
pub record Model (Object : Type 0) : Type 0 where
  pub target : Object → Target
  pub is_sparse : Object → Bool
  pub reset_defaults : Object → Object
  pub encode : Object → Option Error

-- How an operation ends, with the context and the object as the caller has them then.
pub data Ended (T : Types) (Object S : Type 0) : Type 0 where
  ended : Option Error → Context T → Option Object → S → Ended T Object S
  panicked : Ended T Object S
  not_ended : S → Ended T Object S

module _ {T : Types} {Body Object S : Type 0} (model : Model Object)
    (parent_target : T.Identifiable → Target) (base uuid : String)
    (client : String → String → Client T Body Object S) (deadline : Option ℕ) (now fuel : ℕ) where
  -- A new idempotency key, if there is none.
  abbrev pub with_key : Context T → Context T
  with_key c = record c {
    idempotency_key = if c.idempotency_key == "" then uuid else c.idempotency_key;
  }

  abbrev pub without_key : Context T → Context T
  without_key c = record c { idempotency_key = "" }

  -- After a response: nothing if it has no content, and else the default values are put back.
  abbrev pub after_response :
      (Context T → Context T) → Response Body → Context T → Option Object → S → Ended T Object S
  after_response finally r c none s = ended none c none s
  after_response finally r c (some o) s =
      if eqb r.status 204
      then ended none c (some o) s
      else ended none (finally c) (some (model.reset_defaults o)) s

  abbrev pub after_sent : (Context T → Context T) → Sent T Body Object S → Ended T Object S
  after_sent finally (sending s) = not_ended s
  after_sent finally crashed = panicked
  after_sent finally (sent r (some e) c o waits s) = ended (some e) c o s
  after_sent finally (sent none none c o waits s) = panicked
  after_sent finally (sent (some r) none c o waits s) = after_response finally r c o s

  abbrev sent_to :
      String → (Context T → Context T) → Context T → Object → S → Result String → Ended T Object S
  sent_to method finally c o s (err e) = ended (some (typed cannot_build_query e)) c (some o) s
  sent_to method finally c o s panic = panicked
  sent_to method finally c o s (ok url) =
      after_sent finally (send (client method url) deadline now fuel c (some o) s)

  -- With the encoded object as the body.
  abbrev pub encoded_to :
      String → Context T → Object → S → Result String → Option Error → Ended T Object S
  encoded_to method c o s (err e) encoding = ended (some (typed cannot_build_query e)) c (some o) s
  encoded_to method c o s panic encoding = panicked
  encoded_to method c o s (ok url) (some e) = ended (some (typed cannot_marshal e)) c (some o) s
  encoded_to method c o s (ok url) none = sent_to method without_key c o s (ok url)

  abbrev children_url : Context T → Target → Result String
  children_url c t =
      get_url_for_children_identity base (parent_of c.parent) t.category t.version c.version
    where
      parent_of : Option T.Identifiable → Option Target
      parent_of none = none
      parent_of (some p) = some (parent_target p)

  abbrev nil_object : Context T → S → Ended T Object S
  nil_object c s = ended (some (typed cannot_build_query (foreign "nil object"))) c none s

  abbrev kept : Context T → Context T
  kept c = c

  unfoldable pub retrieve : Context T → Option Object → S → Ended T Object S
  unfolding get_personal_url send
  retrieve c none s = nil_object c s
  retrieve c (some o) s =
      sent_to "GET" kept c o s (get_personal_url base (model.target o) c.version)

  unfoldable pub retrieve_many : Context T → Option Object → S → Ended T Object S
  unfolding get_url_for_children_identity send
  retrieve_many c none s = ended (some (typed cannot_build_query (foreign "nil dest"))) c none s
  retrieve_many c (some dest) s = sent_to "GET" kept c dest s (children_url c (model.target dest))

  unfoldable pub delete : Context T → Option Object → S → Ended T Object S
  unfolding get_personal_url send
  delete c none s = nil_object c s
  delete c (some o) s =
      sent_to "DELETE" kept c o s (get_personal_url base (model.target o) c.version)

  unfoldable pub create : Context T → Option Object → S → Ended T Object S
  unfolding get_url_for_children_identity send
  create c none s = nil_object c s
  create c (some o) s =
      encoded_to "POST" (with_key c) o s (children_url c (model.target o)) (model.encode o)

  unfoldable pub update : Context T → Option Object → S → Ended T Object S
  unfolding get_personal_url send
  update c none s = nil_object c s
  update c (some o) s =
      encoded_to (if model.is_sparse o then "PATCH" else "PUT") (with_key c) o s
        (get_personal_url base (model.target o) c.version) (model.encode o)

  abbrev pub delete_many : Error
  delete_many = typed not_implemented (foreign "DeleteMany not implemented in maniphttp")

  -- The count that the headers of the answer set in the context, or 0 with an error.
  abbrev pub counted : Sent T Body Object S → Result ℤ × Ended T Object S
  counted (sending s) = (panic, not_ended s)
  counted crashed = (panic, panicked)
  counted (sent r (some e) c o waits s) = (err e, ended (some e) c o s)
  counted (sent r none c o waits s) = (ok c.count_total, ended none c o s)

  abbrev count_at : Context T → S → Result String → Result ℤ × Ended T Object S
  count_at c s (err e) =
      (err (typed cannot_build_query e), ended (some (typed cannot_build_query e)) c none s)
  count_at c s panic = (panic, panicked)
  count_at c s (ok url) = counted (send (client "HEAD" url) deadline now fuel c none s)

  unfoldable pub count : Context T → String → S → Result ℤ × Ended T Object S
  unfolding get_url_for_children_identity send
  count c category s =
      count_at c s
        (children_url c (record { identifier = ""; version = pos 0; category = category }))
