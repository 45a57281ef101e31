-- ===== src/Http/Renewal.antt =====
-- maniphttp/manipulator.go: `setPassword`, `renewToken` and the notifiers of a renewal, with the
-- subscriptions of internal/push that are behind them. A subscription is in the map of notifiers
-- from its start to the end of its context, which its field `registered` says; the map's keys are
-- random, and the subscriptions stand in the order of their making.
pub mod Current
use manipulate.Prelude.{
  String, true, false, Option, none, some, List, [], ◌∷◌, ◌++◌, ◌⊎◌, inl, inr, map,
}
use manipulate.Prelude.{if◌then◌else◌}
use manipulate.Errors.{Error}
use manipulate.Push.{Subscription, new_subscriber, set_current_token}

pub record Holder (Event Config Data : Type 0) : Type 0 where
  pub password : String
  pub subscriptions : List (Subscription Event Config Data)

module _ {Event Config Data : Type 0} (set_parameter : String → String → Config → Config)
    (new_push_config : Config) where
  -- Calls the notifier of a subscription, if it is registered.
  unfoldable pub notify : String → Subscription Event Config Data → Subscription Event Config Data
  unfolding set_current_token
  notify token s =
      if s.registered then set_current_token set_parameter new_push_config token s else s

  unfoldable pub set_password : String → Holder Event Config Data → Holder Event Config Data
  unfolding notify
  set_password token h = record {
    password = token;
    subscriptions = map (notify token) h.subscriptions;
  }

  -- What the token manager issues: an error or a token.
  unfoldable pub renew_token :
      Error ⊎ String → Holder Event Config Data → Option Error × Holder Event Config Data
  unfolding set_password
  renew_token (inl e) h = (some e, h)
  renew_token (inr token) h = (none, set_password token h)

-- `NewSubscriber` of maniphttp gives a subscription the current password.
unfoldable pub add_subscription :
    {Event Config Data : Type 0} → Holder Event Config Data → Holder Event Config Data
add_subscription h = record h { subscriptions = h.subscriptions ++ new_subscriber h.password ∷ [] }
