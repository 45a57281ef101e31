-- ===== src/Http/Headers/Credentials.antt =====
-- Which credentials and which namespace a request carries.
use manipulate.Prelude.{
  ◌≡◌, refl, ◌∙◌, ap, String, ◌<>◌, false, not, ◌&&◌, Option, some, List, [], ◌∷◌, ◌++◌,
  if◌then◌else◌, ◌==◌, arith,
}
use manipulate.Prelude.Dict.{lookup, lookup-insert}
use manipulate.Context.{Types, Context}
use manipulate.Http.Headers.{
  Headers, Sender, set, add, values_or_empty, set_given, add_fields, or_else,
  make_authorization_headers, set_credentials, prepare_tracking, prepare_rest,
}

pub lookup-set_given :
    (asked key v : String) (h : Headers)
    → (key == asked) ≡ false
    → lookup asked (set_given key v h) ≡ lookup asked h
unfolding set_given set
lookup-set_given asked key v h ne = ground (arith, lookup-insert key asked (v ∷ []) h)

pub lookup-add_fields :
    (asked : String) (fields : List String) (h : Headers)
    → ("X-Fields" == asked) ≡ false
    → lookup asked (add_fields fields h) ≡ lookup asked h
unfolding add_fields add
lookup-add_fields asked [] h ne = refl
lookup-add_fields asked (field ∷ fields) h ne =
    lookup-add_fields asked fields _ ne
    ∙ ground (
      arith,
      lookup-insert "X-Fields" asked (values_or_empty (lookup "X-Fields" h) ++ (field ∷ [])) h,
    )

-- The values of the two headers, from the key of the cookie, the credentials and the values before.
abbrev authorization : String → String → String → Option (List String) → Option (List String)
authorization cookie_key username password other =
    if not (password == "") && not (cookie_key == "")
    then other
    else if not (username == "") && not (password == "")
    then some (make_authorization_headers username password ∷ [])
    else other

abbrev cookies : String → String → Option (List String) → Option (List String)
cookies cookie_key password other =
    if not (password == "") && not (cookie_key == "")
    then some (values_or_empty other ++ ((cookie_key <> "=" <> password) ∷ []))
    else other

lookup-set_credentials :
    (cookie_key username password : String) (h : Headers)
    → (lookup "Authorization" (set_credentials cookie_key username password h)
        ≡ authorization cookie_key username password (lookup "Authorization" h))
      × (lookup "Cookie" (set_credentials cookie_key username password h)
          ≡ cookies cookie_key password (lookup "Cookie" h))
unfolding set_credentials add set
lookup-set_credentials cookie_key username password h =
    let cookie = cookie_key <> "=" <> password in
    let changed = values_or_empty (lookup "Cookie" h) ++ (cookie ∷ []) in
    let header = make_authorization_headers username password ∷ [] in
    (
      ground (
        arith,
        lookup-insert "Cookie" "Authorization" changed h,
        lookup-insert "Authorization" "Authorization" header h,
      ),
      ground (
        arith,
        lookup-insert "Cookie" "Cookie" changed h,
        lookup-insert "Authorization" "Cookie" header h,
      ),
    )

module _ {T : Types} (s : Sender) (password : String) (c : Context T) where
  -- The credentials of the request, each where it has one, and else those of the manipulator.
  abbrev sent_username : String
  sent_username = if c.username == "" then s.username else c.username

  abbrev sent_password : String
  sent_password = if c.password == "" then password else c.password

  lookup-prepare_tracking :
      ((h : Headers) → lookup "Authorization" (prepare_tracking c h) ≡ lookup "Authorization" h)
      × ((h : Headers) → lookup "Cookie" (prepare_tracking c h) ≡ lookup "Cookie" h)
  unfolding prepare_tracking
  lookup-prepare_tracking = (
    λ h. simp (lookup-set_given, lookup-add_fields),
    λ h. simp (lookup-set_given, lookup-add_fields),
  )

  -- A request carries its own credentials, and the manipulator's where it has none: as a cookie
  -- beside the cookies before if the manipulator has a key for it, and else, if there are a username
  -- and a password, in the Authorization header.
  pub lookup-prepare_rest :
      (h : Headers)
      → (lookup "Authorization" (prepare_rest s password c h)
          ≡ authorization s.token_cookie_key sent_username sent_password (lookup "Authorization" h))
        × (lookup "Cookie" (prepare_rest s password c h)
            ≡ cookies s.token_cookie_key sent_password (lookup "Cookie" h))
  unfolding prepare_rest
  lookup-prepare_rest h =
      let ns = or_else c.namespace s.namespace in
      let key = s.token_cookie_key in
      let (authorization_lem, cookie_lem) =
        lookup-set_credentials key sent_username sent_password (set_given "X-Namespace" ns h) in
      (
        lookup-prepare_tracking.0 _
            ∙ authorization_lem
            ∙ ap (authorization key sent_username sent_password)
                (lookup-set_given "Authorization" "X-Namespace" ns h refl),
        lookup-prepare_tracking.1 _
            ∙ cookie_lem
            ∙ ap (cookies key sent_password) (lookup-set_given "Cookie" "X-Namespace" ns h refl),
      )
