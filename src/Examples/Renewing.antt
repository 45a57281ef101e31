-- ===== src/Examples/Renewing.antt =====
-- A manipulator behind HTTP with a token manager, and its subscriptions.
use manipulate.Prelude.{
  ◌≡◌, refl, String, Bool, true, false, Option, none, some, List, [], ◌∷◌, inr, map, ne_of_false,
}
use manipulate.Prelude.Dict.{lookup}
use manipulate.Prelude.Text.{trim_right, starts_with}
use manipulate.Push.{new_subscriber, set_current_token, start}
use manipulate.Http.Headers.{prepare_rest}
use manipulate.Http.Making.{
  Manipulator, HttpOption, Network, made, configured, set_up, finish, new, transport_url, sender_of,
  option_token, option_token_manager,
}
use manipulate.Http.Making.Tokens.{new-SendsToken}
use manipulate.Http.Renewal.{Holder, notify, set_password, renew_token, add_subscription}
use manipulate.Http.Renewal.Current.{
  AreCurrent, here, next, subscription, starting, renewal, Reach-AreCurrent,
}
use manipulate.Examples.{types, request}

-- A transport is the text of its URL, with a TLS configuration that is a Boolean.
abbrev network : Network (String × Option Bool) Bool
network = record {
  default_transport = λ url compression timeout. (url, none);
  tls_of = λ t. t.1;
  with_tls = λ tls t. (t.0, tls);
  default_tls = true;
}

-- The token manager stands before another token.
abbrev options : List (HttpOption types (String × Option Bool) Bool)
options = option_token_manager (some (inr "issued")) ∷ option_token "given" ∷ []

abbrev manipulator : Manipulator types (String × Option Bool) Bool
manipulator = record {
  username = "Bearer";
  password = "issued";
  url = "https://shop";
  namespace = "";
  disable_auto_retry = false;
  disable_compression = false;
  default_retry_func = none;
  token_cookie_key = "";
  backoff_curve = [];
  strong_backoff_curve = [];
  client = some (some ("https://shop", some true));
  tls_config = some true;
  issue = some (inr "issued");
  global_headers = [];
  transport = some ("https://shop", some true);
  encoding = "application/json";
  tcp_user_timeout = 0;
}

is_made : new network "application/json" [] [] "https://shop/" options ≡ made manipulator
unfolding new finish set_up configured option_token option_token_manager transport_url trim_right
    starts_with
is_made = refl

new-SendsToken_example :
    lookup "Authorization" (prepare_rest (sender_of manipulator) manipulator.password request [])
    ≡ some ("Bearer issued" ∷ [])
unfolding set_up configured option_token option_token_manager trim_right
new-SendsToken_example =
    new-SendsToken network "application/json" [] [] "https://shop/" options "issued" request []
      is_made refl refl (ne_of_false "issued" "" refl) refl refl

abbrev Texts : Type 0
Texts = Holder String String String

abbrev set_parameter : String → String → String → String
set_parameter key v config = v

abbrev holder : Texts
holder = record { password = "t1"; subscriptions = [] }

abbrev subscribed : Texts
subscribed = record { password = "t1"; subscriptions = start none (new_subscriber "t1") ∷ [] }

Reach-AreCurrent_example :
    AreCurrent set_parameter "" (renew_token set_parameter "" (inr "t2") subscribed).1
unfolding add_subscription
Reach-AreCurrent_example = Reach-AreCurrent set_parameter "" {h = holder} tt (
    next
      (next (next here (subscription holder)) (starting "t1" [] [] (new_subscriber "t1") none refl))
      (renewal (inr "t2") subscribed))

-- A subscription that is started only after a renewal keeps the old token.
stale_token :
    map
      (λ s. (start none s).current_token)
      (set_password set_parameter "" "t2" (add_subscription holder)).subscriptions
    ≡ "t1" ∷ []
unfolding set_password notify add_subscription start set_current_token
stale_token = refl
