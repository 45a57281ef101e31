-- ===== src/Http/Headers.antt =====
-- maniphttp/manipulator.go: `prepareHeaders` and `readHeaders`. A header is a map under canonical
-- keys. `text_of` is the text that an opaque value is, and `atoi` is strconv.Atoi without its error.
pub mod Credentials
use manipulate.Prelude.{
  String, ◌<>◌, Bool, true, false, not, ◌&&◌, Option, none, some, List, [], ◌∷◌, ◌++◌,
  if◌then◌else◌, ◌==◌,
}
use manipulate.Prelude.Int.{ℤ}
use manipulate.Prelude.Dict.{Dict, lookup, insert}
use manipulate.Context.{Types, Context, ReadConsistency, WriteConsistency}
use manipulate.Errors.{Result, ok, panic, ◌>>=◌}

abbrev pub Headers : Type 0
Headers = Dict (List String)

-- The fields of `httpManipulator` that the headers depend on.
pub record Sender : Type 0 where
  pub username : String
  pub namespace : String
  pub token_cookie_key : String
  pub global_headers : Headers
  pub encoding : String

-- Header.Set and Header.Add.
unfoldable pub set : String → String → Headers → Headers
unfolding insert
set key v h = insert key (v ∷ []) h

abbrev pub values_or_empty : Option (List String) → List String
values_or_empty none = []
values_or_empty (some vs) = vs

unfoldable pub add : String → String → Headers → Headers
unfolding insert lookup
add key v h = insert key (values_or_empty (lookup key h) ++ (v ∷ [])) h

-- for k, v := range s.globalHeaders { request.Header[k] = v }
unfoldable pub add_globals : Headers → Headers → Headers
unfolding insert
add_globals [] h = h
add_globals ((key, vs) ∷ globals) h = add_globals globals (insert key vs h)

-- if v != "" { request.Header.Set(key, v) }
unfoldable pub set_given : String → String → Headers → Headers
unfolding set
set_given key v h = if v == "" then h else set key v h

abbrev read_text : ReadConsistency → String
read_text ReadConsistency.default = ""
read_text ReadConsistency.nearest = "nearest"
read_text ReadConsistency.eventual = "eventual"
read_text ReadConsistency.monotonic = "monotonic"
read_text ReadConsistency.strong = "strong"
read_text ReadConsistency.weakest = "weakest"

abbrev write_text : WriteConsistency → String
write_text WriteConsistency.default = ""
write_text WriteConsistency.none = "none"
write_text WriteConsistency.strong = "strong"
write_text WriteConsistency.strongest = "strongest"

unfoldable pub add_fields : List String → Headers → Headers
unfolding add
add_fields [] h = h
add_fields (field ∷ fields) h = add_fields fields (add "X-Fields" field h)

abbrev pub or_else : String → String → String
or_else s other = if s == "" then other else s

unfoldable pub make_authorization_headers : String → String → String
make_authorization_headers username password = username <> " " <> password

-- The header of the credentials, from the key of the cookie.
unfoldable pub set_credentials : String → String → String → Headers → Headers
unfolding add set make_authorization_headers
set_credentials cookie_key username password h =
    if not (password == "") && not (cookie_key == "")
    then add "Cookie" (cookie_key <> "=" <> password) h
    else if not (username == "") && not (password == "")
    then set "Authorization" (make_authorization_headers username password) h
    else h

-- value.(string)
abbrev pub opaque_text :
    {Value : Type 0} → (Value → Option String) → String → Option Value → Result String
opaque_text text_of other none = ok other
opaque_text text_of other (some v) = elim (text_of v) [ none ↦ panic | some s ↦ ok s ]

-- The headers after those of the credentials.
unfoldable pub prepare_tracking : {T : Types} → Context T → Headers → Headers
unfolding set_given add_fields
prepare_tracking c h = set_given "X-Forwarded-For" c.client_ip (
    add_fields c.fields (
      set_given "Idempotency-Key" c.idempotency_key (
        set_given "X-Write-Consistency" (write_text c.write_consistency) (
          set_given "X-Read-Consistency" (read_text c.read_consistency) (
            set_given "X-External-Tracking-Type" c.external_tracking_type
              (set_given "X-External-Tracking-ID" c.external_tracking_id h))))))

-- The headers after those of the encoding; `password` is the current one.
unfoldable pub prepare_rest : {T : Types} → Sender → String → Context T → Headers → Headers
unfolding set_given set_credentials prepare_tracking
prepare_rest s password c h = prepare_tracking c (
    set_credentials s.token_cookie_key (or_else c.username s.username) (or_else c.password password)
      (set_given "X-Namespace" (or_else c.namespace s.namespace) h))

module _ {T : Types} (text_of : T.Value → Option String) where
  unfoldable pub prepare_headers : Sender → String → Context T → Headers → Result Headers
  unfolding add_globals lookup set prepare_rest
  prepare_headers s password c h = do
    content_type ←
        opaque_text text_of s.encoding
          (lookup "maniphttp.opaqueKeyOverrideHeaderContentType" c.opaque)
    accept ←
        opaque_text text_of s.encoding (lookup "maniphttp.opaqueKeyOverrideHeaderAccept" c.opaque)
    ok (
        prepare_rest s password c
          (set "Accept" accept (set "Content-Type" content_type (add_globals s.global_headers h))))

abbrev first_or_empty : List String → String
first_or_empty [] = ""
first_or_empty (v ∷ vs) = v

-- Header.Get
unfoldable pub get : String → Headers → String
unfolding lookup
get key h = first_or_empty (values_or_empty (lookup key h))

-- The count, the next page and the messages, from the headers of an answer.
unfoldable pub read_headers : {T : Types} → (String → ℤ) → Headers → Context T → Context T
unfolding get lookup
read_headers atoi h c = record c {
  count_total = atoi (get "X-Count-Total" h);
  next = get "X-Next" h;
  messages = values_or_empty (lookup "X-Messages" h);
}
