-- ===== src/Http/Making/Tokens.antt =====
-- The token of a manipulator that has a token manager.
use mathlib.Core.Path.{subst}
use manipulate.Prelude.{
  ℕ, ◌≡◌, ◌≢◌, refl, ◌∙◌, String, ◌<>◌, Option, none, some, List, [], ◌∷◌, ◌⊎◌, inl, inr, ◌==◌,
  eq_false, Bool-cases,
}
use manipulate.Prelude.Dict.{lookup}
use manipulate.Prelude.Text.{trim_right}
use manipulate.Errors.{Error}
use manipulate.Context.{Types, Context}
use manipulate.Http.Headers.{Headers, prepare_rest, make_authorization_headers}
use manipulate.Http.Headers.Credentials.{lookup-prepare_rest}
use manipulate.Http.Making.{
  Manipulator, HttpOption, Network, Made, made, failed, panicked, set_up, with_client,
  with_transport, with_tls_config, with_token, then_make, finish, new, sender_of,
}

module _ {T : Types} {Transport Tls : Type 0} (network : Network Transport Tls) (json : String)
    (backoff_curve strong_backoff_curve : List ℕ) where
  -- A manipulator that is made has the issued token, and keeps the key of the cookie.
  abbrev HasIssued : Made T Transport Tls → String → Option (Error ⊎ String) → Type 0
  HasIssued (made m) key (some (inr token)) =
      (m.username ≡ "Bearer") × (m.password ≡ token) × (m.token_cookie_key ≡ key)
  HasIssued (made m) key (some (inl e)) = ⊥
  HasIssued (made m) key none = Unit
  HasIssued (failed e) key issue = Unit
  HasIssued panicked key issue = Unit

  with_token-HasIssued :
      (issue : Option (Error ⊎ String)) (m : Manipulator T Transport Tls)
      → HasIssued
          (with_token network json backoff_curve strong_backoff_curve issue m)
          m.token_cookie_key
          issue
  with_token-HasIssued none m = tt
  with_token-HasIssued (some (inl e)) m = tt
  with_token-HasIssued (some (inr token)) m = (refl, refl, refl)

  with_tls_config-HasIssued :
      (tls : Option Tls) (client : Option (Option Transport)) (m : Manipulator T Transport Tls)
      → HasIssued
          (then_make network json backoff_curve strong_backoff_curve
            (with_tls_config network json backoff_curve strong_backoff_curve tls client m)
            λ n. with_token network json backoff_curve strong_backoff_curve n.issue n)
          m.token_cookie_key
          m.issue
  with_tls_config-HasIssued (some t) client m = with_token-HasIssued m.issue m
  with_tls_config-HasIssued none none m = tt
  with_tls_config-HasIssued none (some none) m = tt
  with_tls_config-HasIssued none (some (some t)) m =
      with_token-HasIssued m.issue (record m { tls_config = network.tls_of t })

  abbrev KeepsToken : Manipulator T Transport Tls → Manipulator T Transport Tls → Type 0
  KeepsToken m n = (n.token_cookie_key ≡ m.token_cookie_key) × (n.issue ≡ m.issue)

  with_transport-KeepsToken :
      (url : String) (transport : Option Transport) (m : Manipulator T Transport Tls)
      → KeepsToken m
          (with_transport network json backoff_curve strong_backoff_curve url transport m)
  with_transport-KeepsToken url none m = (refl, refl)
  with_transport-KeepsToken url (some t) m = (refl, refl)

  with_client-KeepsToken :
      (url : String) (client : Option (Option Transport)) (m : Manipulator T Transport Tls)
      → KeepsToken m (with_client network json backoff_curve strong_backoff_curve url client m)
  with_client-KeepsToken url (some client) m = (refl, refl)
  with_client-KeepsToken url none m = with_transport-KeepsToken url m.transport m

  finish-HasIssued :
      (url : String) (m : Manipulator T Transport Tls)
      → HasIssued
          (finish network json backoff_curve strong_backoff_curve url m)
          m.token_cookie_key
          m.issue
  unfolding finish
  finish-HasIssued url m =
      let w = with_client network json backoff_curve strong_backoff_curve url m.client m in
      let keeps = with_client-KeepsToken url m.client m in
      subst
        (HasIssued (finish network json backoff_curve strong_backoff_curve url m)
          m.token_cookie_key)
        keeps.1
        (subst
          (λ key.
            HasIssued (finish network json backoff_curve strong_backoff_curve url m) key w.issue)
          keeps.0 (with_tls_config-HasIssued w.tls_config w.client w))

  module _ (url : String) (options : List (HttpOption T Transport Tls)) where
    abbrev configuration : Manipulator T Transport Tls
    configuration = set_up network json backoff_curve strong_backoff_curve url options

    new-HasIssued :
        HasIssued
          (new network json backoff_curve strong_backoff_curve url options)
          configuration.token_cookie_key
          configuration.issue
    unfolding new
    new-HasIssued = elim (Bool-cases (url == "")) [
      | inl e ↦ rw e tt
      | inr e ↦ rw e (finish-HasIssued (trim_right b'/' url) configuration)
    ]

    -- If the options set a token manager, wherever it stands among them, that issues a token which
    -- is not empty, and no key of a cookie, then a manipulator that `New` makes sends the issued
    -- token in the Authorization header, for a request without credentials of its own and whatever
    -- credentials or token the options set too.
    pub new-SendsToken :
        (token : String) (c : Context T) (h : Headers) {m : Manipulator T Transport Tls}
        → new network json backoff_curve strong_backoff_curve url options ≡ made m
        → configuration.issue ≡ some (inr token)
        → configuration.token_cookie_key ≡ ""
        → token ≢ ""
        → c.username ≡ ""
        → c.password ≡ ""
        → lookup "Authorization" (prepare_rest (sender_of m) m.password c h)
          ≡ some (("Bearer" <> " " <> token) ∷ [])
    unfolding make_authorization_headers
    new-SendsToken token c h {m} e issued no_key given username password =
        let (bearer, same, key) = subst (HasIssued (made m) configuration.token_cookie_key) issued (
          subst (λ r. HasIssued r configuration.token_cookie_key configuration.issue) e
            new-HasIssued) in
        (lookup-prepare_rest (sender_of m) m.password c h).0
        ∙ rw (key, no_key, username, password, same, bearer, eq_false token "" given)
