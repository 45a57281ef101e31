-- ===== src/Http/Making.antt =====
-- maniphttp/options.go and `New` of maniphttp/manipulator.go: the configuration of the manipulator;
-- maniphttp/utils.go: the URL of the default transport. The client, the transport and the TLS
-- configuration of net/http are types, of which `Network` says how they are made and read; what the
-- token manager issues is a value. The simulated failures are not modelled.
pub mod Tokens
use manipulate.Prelude.{
  ℕ, String, Bool, true, false, ◌||◌, Option, none, some, List, [], ◌∷◌, ◌⊎◌, inl, inr, ◌==◌,
  if◌then◌else◌,
}
use manipulate.Prelude.Text.{starts_with, trim_right}
use manipulate.Errors.{Error}
use manipulate.Context.{Types}
use manipulate.Http.Headers.{Headers, Sender}

-- `issue` is what the token manager, if there is one, answers when `New` asks it for a token.
pub record Manipulator (T : Types) (Transport Tls : Type 0) : Type 0 where
  pub username : String
  pub password : String
  pub url : String
  pub namespace : String
  pub disable_auto_retry : Bool
  pub disable_compression : Bool
  pub default_retry_func : Option T.RetryFunc
  pub token_cookie_key : String
  pub backoff_curve : List ℕ
  pub strong_backoff_curve : List ℕ
  pub client : Option (Option Transport)
  pub tls_config : Option Tls
  pub issue : Option (Error ⊎ String)
  pub global_headers : Headers
  pub transport : Option Transport
  pub encoding : String
  pub tcp_user_timeout : ℕ

abbrev pub HttpOption : Types → Type 0 → Type 0 → Type 0
HttpOption T Transport Tls = Manipulator T Transport Tls → Manipulator T Transport Tls

module _ {T : Types} {Transport Tls : Type 0} where
  unfoldable pub option_credentials : String → String → HttpOption T Transport Tls
  option_credentials username password m = record m { username = username; password = password }

  unfoldable pub option_token : String → HttpOption T Transport Tls
  option_token token m = record m { username = "Bearer"; password = token }

  unfoldable pub option_token_manager : Option (Error ⊎ String) → HttpOption T Transport Tls
  option_token_manager issue m = record m { issue = issue }

  unfoldable pub option_namespace : String → HttpOption T Transport Tls
  option_namespace ns m = record m { namespace = ns }

  unfoldable pub option_additonal_headers : Headers → HttpOption T Transport Tls
  option_additonal_headers headers m = record m { global_headers = headers }

  -- A client, with its transport.
  unfoldable pub option_http_client : Option (Option Transport) → HttpOption T Transport Tls
  option_http_client client m = record m { client = client }

  unfoldable pub option_http_transport : Option Transport → HttpOption T Transport Tls
  option_http_transport transport m = record m { transport = transport }

  unfoldable pub option_tls_config : Option Tls → HttpOption T Transport Tls
  option_tls_config config m = record m { tls_config = config }

  unfoldable pub option_disable_built_in_retry : HttpOption T Transport Tls
  option_disable_built_in_retry m = record m { disable_auto_retry = true }

  unfoldable pub option_encoding : String → HttpOption T Transport Tls
  option_encoding enc m = record m { encoding = enc }

  unfoldable pub option_default_retry_func : Option T.RetryFunc → HttpOption T Transport Tls
  option_default_retry_func f m = record m { default_retry_func = f }

  unfoldable pub option_disable_compression : HttpOption T Transport Tls
  option_disable_compression m = record m { disable_compression = true }

  unfoldable pub option_send_credentials_as_cookie : String → HttpOption T Transport Tls
  option_send_credentials_as_cookie key m = record m { token_cookie_key = key }

  unfoldable pub option_tcp_user_timeout : ℕ → HttpOption T Transport Tls
  option_tcp_user_timeout t m = record m { tcp_user_timeout = t }

  unfoldable pub option_backoff_curve : List ℕ → HttpOption T Transport Tls
  option_backoff_curve curve m = record m { backoff_curve = curve }

  unfoldable pub option_strong_backoff_curve : List ℕ → HttpOption T Transport Tls
  option_strong_backoff_curve curve m = record m { strong_backoff_curve = curve }

  -- for _, opt := range options { opt(m) }
  unfoldable pub configured :
      List (HttpOption T Transport Tls) → Manipulator T Transport Tls → Manipulator T Transport Tls
  configured [] m = m
  configured (opt ∷ options) m = configured options (opt m)

-- The URL that the manipulator uses with its default transport.
unfoldable pub transport_url : String → String
unfolding starts_with
transport_url url =
    if starts_with url "unix://" || starts_with url "unixs://"
    then (if starts_with url "unixs://" then "https://localhost" else "http://localhost")
    else url

-- The default transport for a URL, without or with compression and with a timeout; the TLS
-- configuration of a transport, read and set; the default TLS configuration.
pub record Network (Transport Tls : Type 0) : Type 0 where
  pub default_transport : String → Bool → ℕ → Transport
  pub tls_of : Transport → Option Tls
  pub with_tls : Option Tls → Transport → Transport
  pub default_tls : Tls

pub data Made (T : Types) (Transport Tls : Type 0) : Type 0 where
  made : Manipulator T Transport Tls → Made T Transport Tls
  failed : Error → Made T Transport Tls
  panicked : Made T Transport Tls

abbrev tls_or_default : {Tls : Type 0} → Tls → Option Tls → Option Tls
tls_or_default default none = some default
tls_or_default default (some t) = some t

module _ {T : Types} {Transport Tls : Type 0} (network : Network Transport Tls) (json : String)
    (backoff_curve strong_backoff_curve : List ℕ) where
  -- What the options are applied to; `json` is elemental's encoding, and `url` has no slash at its end.
  abbrev pub initial : String → Manipulator T Transport Tls
  initial url = record {
    username = "";
    password = "";
    url = url;
    namespace = "";
    disable_auto_retry = false;
    disable_compression = false;
    default_retry_func = none;
    token_cookie_key = "";
    backoff_curve = backoff_curve;
    strong_backoff_curve = strong_backoff_curve;
    client = none;
    tls_config = none;
    issue = none;
    global_headers = [];
    transport = none;
    encoding = json;
    tcp_user_timeout = 0;
  }

  abbrev with_transport :
      String → Option Transport → Manipulator T Transport Tls → Manipulator T Transport Tls
  with_transport url (some t) m = record m { client = some (some t) }
  with_transport url none m =
      let tls = tls_or_default network.default_tls m.tls_config in
      let t =
        network.with_tls tls
          (network.default_transport url m.disable_compression m.tcp_user_timeout) in
      record m {
        client = some (some t);
        transport = some t;
        tls_config = tls;
        url = transport_url url;
      }

  -- Without a client: the default one, with the given transport or the default one.
  abbrev pub with_client :
      String → Option (Option Transport) → Manipulator T Transport Tls → Manipulator T Transport Tls
  with_client url (some client) m = m
  with_client url none m = with_transport url m.transport m

  -- Without a TLS configuration: that of the client's transport. `none` is a transport that is not
  -- the one of net/http.
  abbrev pub with_tls_config :
      Option Tls → Option (Option Transport) → Manipulator T Transport Tls → Made T Transport Tls
  with_tls_config (some t) client m = made m
  with_tls_config none (some (some t)) m = made (record m { tls_config = network.tls_of t })
  with_tls_config none _ m = panicked

  abbrev pub with_token :
      Option (Error ⊎ String) → Manipulator T Transport Tls → Made T Transport Tls
  with_token none m = made m
  with_token (some (inl e)) m = failed e
  with_token (some (inr token)) m = made (record m { username = "Bearer"; password = token })

  abbrev then_make :
      Made T Transport Tls
      → (Manipulator T Transport Tls → Made T Transport Tls)
      → Made T Transport Tls
  then_make (made m) next = next m
  then_make (failed e) next = failed e
  then_make panicked next = panicked

  unfoldable pub finish : String → Manipulator T Transport Tls → Made T Transport Tls
  unfolding transport_url
  finish url m =
      let w = with_client url m.client m in
      then_make (with_tls_config w.tls_config w.client w) λ n. with_token n.issue n

  -- The manipulator after the options.
  unfoldable pub set_up : String → List (HttpOption T Transport Tls) → Manipulator T Transport Tls
  unfolding configured trim_right
  set_up url options = configured options (initial (trim_right b'/' url))

  unfoldable pub new : String → List (HttpOption T Transport Tls) → Made T Transport Tls
  unfolding finish set_up trim_right
  new url options =
      if url == "" then panicked else finish (trim_right b'/' url) (set_up url options)

-- What the requests read of the manipulator.
abbrev pub sender_of : {T : Types} {Transport Tls : Type 0} → Manipulator T Transport Tls → Sender
sender_of m = record {
  username = m.username;
  namespace = m.namespace;
  token_cookie_key = m.token_cookie_key;
  global_headers = m.global_headers;
  encoding = m.encoding;
}
