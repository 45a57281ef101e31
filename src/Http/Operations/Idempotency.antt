-- ===== src/Http/Operations/Idempotency.antt =====
-- Which idempotency key the requests of an operation have, and which one it leaves in the context.
use manipulate.Prelude.{
  ℕ, ◌≡◌, refl, ◌⊎◌, inl, inr, String, Bool, true, false, Option, none, some, if◌then◌else◌, ◌==◌,
  eqb, ◌≢◌, ◌∙◌, [], ◌∷◌, Bool-cases, ne_of_false, eq_false, eq_refl,
}
use manipulate.Context.{Types, Context}
use manipulate.Errors.{Error, Result, ok, err, panic}
use manipulate.Http.Urls.{Target}
use manipulate.Http.Exchange.{Client, Response}
use manipulate.Http.Send.{Sent, sent, crashed, sending}
use manipulate.Prelude.Dict.{lookup, lookup-insert}
use manipulate.Http.Headers.{Headers, Sender, set, set_given, prepare_rest, prepare_tracking}
use manipulate.Http.Headers.Credentials.{lookup-set_given, lookup-add_fields}
use manipulate.Http.Send.Keys.{IsKeptWithKey, SentHasKey, send-HasKey}
use manipulate.Http.Operations.{
  Model, Ended, ended, panicked, not_ended, with_key, without_key, after_response, after_sent,
  encoded_to, create, update,
}

-- On an error the key is in the context; on success it is, or it is gone. The property holds for the
-- state.
abbrev pub LeavesKey :
    {T : Types} {Object S : Type 0} → String → (S → Type 0) → Ended T Object S → Type 0
LeavesKey key Good (ended (some e) c o s) = (c.idempotency_key ≡ key) × Good s
LeavesKey key Good (ended none c o s) =
    ((c.idempotency_key ≡ key) ⊎ (c.idempotency_key ≡ "")) × Good s
LeavesKey key Good panicked = Unit
LeavesKey key Good (not_ended s) = Good s

given_key : (key uuid : String) → uuid ≢ "" → (if key == "" then uuid else key) ≢ ""
given_key key uuid new = elim (Bool-cases (key == "")) [
  | inl e ↦ rw e new
  | inr e ↦ rw e (ne_of_false key "" e)
]

lookup-set_given_same :
    (key v : String) (h : Headers) → v ≢ "" → lookup key (set_given key v h) ≡ some (v ∷ [])
unfolding set_given set
lookup-set_given_same key v h given =
    rw (eq_false v "" given, lookup-insert key key (v ∷ []) h, eq_refl key) refl

-- A request that is made for a context with a key carries it.
pub lookup-key :
    {T : Types} (sender : Sender) (password : String) (c : Context T) (h : Headers)
    → c.idempotency_key ≢ ""
    → lookup "Idempotency-Key" (prepare_rest sender password c h) ≡ some (c.idempotency_key ∷ [])
unfolding prepare_rest prepare_tracking
lookup-key sender password c h given =
    lookup-set_given "Idempotency-Key" "X-Forwarded-For" c.client_ip _ refl
    ∙ lookup-add_fields "Idempotency-Key" c.fields _ refl
    ∙ lookup-set_given_same "Idempotency-Key" c.idempotency_key _ given

module _ {T : Types} {Body Object S : Type 0} (model : Model Object)
    (parent_target : T.Identifiable → Target) (base uuid : String)
    (client : String → String → Client T Body Object S) (deadline : Option ℕ) (now fuel : ℕ)
    (key : String) (Good : S → Type 0)
    (kept : (method url : String) → IsKeptWithKey (client method url) key Good) where
  after_response-LeavesKey :
      (r : Response Body) (c : Context T) (o : Option Object) (s : S)
      → (c.idempotency_key ≡ key) × Good s
      → LeavesKey key Good (
          after_response model parent_target base uuid client deadline now fuel
            (without_key model parent_target base uuid client deadline now fuel)
            r
            c
            o
            s)
  after_response-LeavesKey r c none s k = (inl k.0, k.1)
  after_response-LeavesKey r c (some o) s k = by (eqb r.status 204)
    where
      by :
          (b : Bool)
          → LeavesKey key Good (
              if b
              then ended none c (some o) s
              else ended none
                  (without_key model parent_target base uuid client deadline now fuel c)
                  (some (model.reset_defaults o))
                  s)
      by true = (inl k.0, k.1)
      by false = (inr refl, k.1)

  after_sent-LeavesKey :
      (result : Sent T Body Object S) (any : Client T Body Object S)
      (is : IsKeptWithKey any key Good)
      → SentHasKey any key Good is result
      → LeavesKey key Good (
          after_sent model parent_target base uuid client deadline now fuel
            (without_key model parent_target base uuid client deadline now fuel)
            result)
  after_sent-LeavesKey (sending s) any is k = k
  after_sent-LeavesKey crashed any is k = tt
  after_sent-LeavesKey (sent r (some e) c o waits s) any is k = k
  after_sent-LeavesKey (sent none none c o waits s) any is k = tt
  after_sent-LeavesKey (sent (some r) none c o waits s) any is k =
      after_response-LeavesKey r c o s k

  encoded_to-LeavesKey :
      (method : String) (c : Context T) (o : Object) (s : S) (url : Result String)
      (encoding : Option Error)
      → (c.idempotency_key ≡ key) × Good s
      → LeavesKey key Good (
          encoded_to model parent_target base uuid client deadline now fuel method c o s url
            encoding)
  encoded_to-LeavesKey method c o s (err e) encoding k = k
  encoded_to-LeavesKey method c o s panic encoding k = tt
  encoded_to-LeavesKey method c o s (ok url) (some e) k = k
  encoded_to-LeavesKey method c o s (ok url) none k =
      after_sent-LeavesKey _ (client method url) (kept method url) (
        send-HasKey (client method url) key Good (kept method url) deadline now fuel c (some o) s k)

-- With the key of the context, or a new one if it has none: a request that is made for a context with
-- this key carries it in a header, if it is not empty. A property of the server that such requests
-- and renewals of the token keep is kept by `Create` and by `Update`, so that they send no request
-- for a context with another key, whatever the retries. On an error the key is in the context, so
-- that a second call has the same; on success it is still there, or it is removed.
pub create-LeavesKey :
    {T : Types} {Body Object S : Type 0} (model : Model Object)
    (parent_target : T.Identifiable → Target) (base uuid : String)
    (client : String → String → Client T Body Object S) (deadline : Option ℕ) (now fuel : ℕ)
    (Good : S → Type 0) (c : Context T) (o : Object) (s : S) (sender : Sender) (password : String)
    (h : Headers)
    → ((method url : String)
        → IsKeptWithKey
            (client method url)
            (if c.idempotency_key == "" then uuid else c.idempotency_key)
            Good)
    → Good s
    → uuid ≢ ""
    → (lookup "Idempotency-Key" (
          prepare_rest sender password
            (with_key model parent_target base uuid client deadline now fuel c)
            h)
        ≡ some ((if c.idempotency_key == "" then uuid else c.idempotency_key) ∷ []))
      × LeavesKey
          (if c.idempotency_key == "" then uuid else c.idempotency_key)
          Good
          (create model parent_target base uuid client deadline now fuel c (some o) s)
      × LeavesKey
          (if c.idempotency_key == "" then uuid else c.idempotency_key)
          Good
          (update model parent_target base uuid client deadline now fuel c (some o) s)
unfolding create update
create-LeavesKey model parent_target base uuid client deadline now fuel Good c o s sender password h
      kept good new =
    let key = if c.idempotency_key == "" then uuid else c.idempotency_key in
    (
      lookup-key sender password (with_key model parent_target base uuid client deadline now fuel c)
          h (given_key c.idempotency_key uuid new),
      encoded_to-LeavesKey model parent_target base uuid client deadline now fuel key Good kept
          "POST" _ o s _ (model.encode o) (refl, good),
      encoded_to-LeavesKey model parent_target base uuid client deadline now fuel key Good kept _ _
          o s _ (model.encode o) (refl, good),
    )
