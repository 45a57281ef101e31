-- ===== src/Http/Direct.antt =====
-- maniphttp/helpers.go: `DirectSend`, `BatchCreate` and what `ExtractX` read of the manipulator. A
-- manipulator that is not one of maniphttp, which panics, is outside the types of the model. `client`
-- is what sends a request of a method to a URL; `text_of` is the text that an opaque value is.
use manipulate.Prelude.{
  ℕ, ◌≡◌, refl, String, ◌<>◌, Option, none, some, List, [], ◌∷◌, if◌then◌else◌,
}
use manipulate.Prelude.Int.{pos}
use manipulate.Prelude.Dict.{lookup, insert, lookup-insert}
use manipulate.Prelude.Text.{starts_with, replace_all}
use manipulate.Errors.{Error, Result, ok, err, panic}
use manipulate.Context.{Types, Context}
use manipulate.Http.Headers.{Headers, opaque_text}
use manipulate.Http.Urls.{Target, compute_version, get_general_url}
use manipulate.Http.Exchange.{Client}
use manipulate.Http.Send.{Sent, sent, crashed, send}
use manipulate.Http.Making.{Manipulator}

module _ {T : Types} {Transport Tls : Type 0} where
  abbrev extract_credentials : Manipulator T Transport Tls → String × String
  extract_credentials m = (m.username, m.password)

  abbrev extract_endpoint : Manipulator T Transport Tls → String
  extract_endpoint m = m.url

  abbrev extract_namespace : Manipulator T Transport Tls → String
  extract_namespace m = m.namespace

  abbrev extract_encoding : Manipulator T Transport Tls → String
  extract_encoding m = m.encoding

  abbrev set_global_headers : Headers → Manipulator T Transport Tls → Manipulator T Transport Tls
  set_global_headers headers m = record m { global_headers = headers }

-- The path of an endpoint: a slash before it if it has none, the version, and one slash where two
-- were.
unfoldable pub direct_url : String → String → String → String
unfolding starts_with replace_all
direct_url base version endpoint =
    let path = if starts_with endpoint "/" then endpoint else "/" <> endpoint in
    base <> replace_all ("/" <> version <> path) "//" "/"

module _ {T : Types} {Body Object S : Type 0} (base : String)
    (client : String → String → Client T Body Object S) (deadline : Option ℕ) (now fuel : ℕ) where
  unfoldable pub direct_send : Context T → String → String → S → Sent T Body Object S
  unfolding direct_url compute_version send
  direct_send c endpoint method s =
      send (client method (direct_url base (compute_version (pos 0) c.version) endpoint)) deadline
        now fuel c none s

  module _ (target : Object → Target) (encoding : String) (text_of : T.Value → Option String)
      (of_text : String → T.Value) (encode : String → Object → Option Error) where
    abbrev content_type_key : String
    content_type_key = "maniphttp.opaqueKeyOverrideHeaderContentType"

    -- The encoding of the context, or that of the manipulator.
    unfoldable pub batch_encoding : Context T → Result String
    unfolding lookup
    batch_encoding c = opaque_text text_of encoding (lookup content_type_key c.opaque)

    -- The context's map of opaque values is changed in place.
    unfoldable pub batch_context : String → Context T → Context T
    unfolding insert
    batch_context e c = record c {
      opaque = insert content_type_key (of_text (e <> "+batch")) c.opaque;
    }

    -- The loop over the objects: the first error of the encoder.
    unfoldable pub encode_all : String → List Object → Option Error
    encode_all e [] = none
    encode_all e (o ∷ os) = elim (encode e o) [
      | some failure ↦ some failure
      | none ↦ encode_all e os
    ]

    abbrev batch_send : String → String → Context T → Option Error → S → Sent T Body Object S
    batch_send url e c (some failure) s = sent none (some failure) c none [] s
    batch_send url e c none s =
        send (client "POST" url) deadline now fuel (batch_context e c) none s

    abbrev batch_with : String → Context T → List Object → Result String → S → Sent T Body Object S
    batch_with url c objects (ok e) s = batch_send url e c (encode_all e objects) s
    batch_with url c objects (err e) s = crashed
    batch_with url c objects panic s = crashed

    -- No objects make it panic.
    unfoldable pub batch_create : Context T → List Object → S → Sent T Body Object S
    unfolding batch_encoding batch_context encode_all get_general_url send
    batch_create c [] s = crashed
    batch_create c (o ∷ os) s =
        batch_with (get_general_url base (target o) c.version) c (o ∷ os) (batch_encoding c) s

    -- A second batch with the same context is encoded with the suffix of the first one.
    pub batch_encoding-batch_context :
        (e : String) (c : Context T)
        → ((t : String) → text_of (of_text t) ≡ some t)
        → batch_encoding (batch_context e c) ≡ ok (e <> "+batch")
    unfolding batch_encoding batch_context
    batch_encoding-batch_context e c read =
        rw (lookup-insert content_type_key content_type_key (of_text (e <> "+batch")) c.opaque)
          (rw (read (e <> "+batch")) refl)
