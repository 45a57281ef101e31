-- ===== src/Http/Subscribing.antt =====
-- maniphttp/subscriber.go: the options of `NewSubscriber` and what it gives to internal/push.
use manipulate.Prelude.{String, ◌<>◌, Bool, true, false, Option, none, some, List, [], ◌∷◌}
use manipulate.Prelude.Text.{trim_left, trim_right}
use manipulate.Context.{Types}
use manipulate.Http.Making.{Manipulator}

pub record SubscribeConfig (Tls : Type 0) : Type 0 where
  pub namespace : String
  pub credential_cookie_key : String
  pub endpoint : String
  pub support_error_events : Bool
  pub recursive : Bool
  pub tls_config : Option Tls

abbrev SubscriberOption : Type 0 → Type 0
SubscriberOption Tls = SubscribeConfig Tls → SubscribeConfig Tls

unfoldable pub new_subscribe_config :
    {T : Types} {Transport Tls : Type 0} → Manipulator T Transport Tls → SubscribeConfig Tls
new_subscribe_config m = record {
  namespace = m.namespace;
  credential_cookie_key = "";
  endpoint = "events";
  support_error_events = false;
  recursive = false;
  tls_config = m.tls_config;
}

module _ {Tls : Type 0} where
  unfoldable pub subscriber_option_recursive : Bool → SubscriberOption Tls
  subscriber_option_recursive recursive cfg = record cfg { recursive = recursive }

  unfoldable pub subscriber_option_namespace : String → SubscriberOption Tls
  subscriber_option_namespace namespace cfg = record cfg { namespace = namespace }

  unfoldable pub subscriber_option_endpoint : String → SubscriberOption Tls
  unfolding trim_left trim_right
  subscriber_option_endpoint endpoint cfg = record cfg {
    endpoint = trim_right b'/' (trim_left b'/' endpoint);
  }

  unfoldable pub subscriber_send_credentials_as_cookie : String → SubscriberOption Tls
  subscriber_send_credentials_as_cookie key cfg = record cfg { credential_cookie_key = key }

  unfoldable pub subscriber_option_support_error_events : SubscriberOption Tls
  subscriber_option_support_error_events cfg = record cfg { support_error_events = true }

  unfoldable pub configure : List (SubscriberOption Tls) → SubscribeConfig Tls → SubscribeConfig Tls
  configure [] cfg = cfg
  configure (opt ∷ options) cfg = configure options (opt cfg)

-- The arguments of push.NewSubscriber. `without_protocols` is the copy of a TLS configuration that
-- has no NextProtos.
pub record Arguments (Tls : Type 0) : Type 0 where
  pub url : String
  pub namespace : String
  pub token : String
  pub tls_config : Option Tls
  pub encoding : String
  pub support_error_events : Bool
  pub recursive : Bool
  pub cookie_key : String

abbrev cloned : {Tls : Type 0} → (Tls → Tls) → Option Tls → Option Tls
cloned without_protocols none = none
cloned without_protocols (some t) = some (without_protocols t)

unfoldable pub new_subscriber :
    {T : Types} {Transport Tls : Type 0}
    → (Tls → Tls)
    → Manipulator T Transport Tls
    → List (SubscriberOption Tls)
    → Arguments Tls
unfolding new_subscribe_config configure
new_subscriber without_protocols m options =
    let cfg = configure options (new_subscribe_config m) in
    record {
      url = m.url <> "/" <> cfg.endpoint;
      namespace = cfg.namespace;
      token = m.password;
      tls_config = cloned without_protocols cfg.tls_config;
      encoding = m.encoding;
      support_error_events = cfg.support_error_events;
      recursive = cfg.recursive;
      cookie_key = cfg.credential_cookie_key;
    }
