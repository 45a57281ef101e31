-- ===== src/Push.antt =====
-- internal/push: the subscription to a push server. Its parts: this file (the state, what it
-- publishes and the URL), Connection (`connect`), Listening (`listen`).
-- A channel is the list of what is in it. A `*elemental.PushConfig` is an index into `configs`,
-- since the token's renewal changes the object that others point to; its parameters, the encodings,
-- url.QueryEscape and the websocket are parameters of the model.
pub mod Connection
pub mod Listening
use manipulate.Prelude.{
  ℕ, zero, suc, ◌-◌, ◌*◌, ◌^◌, String, ◌<>◌, Bool, true, false, Option, none, some, List, [], ◌∷◌,
  ◌++◌, if◌then◌else◌, ◌==◌, ltb, length,
}
use manipulate.Prelude.Text.{replace_first}
use manipulate.Errors.{Error, foreign}

pub data Status : Type 0 where
  initial_connection initial_connection_failure reconnection reconnection_failure : Status
  disconnection final_disconnection token_renewal : Status

-- The capacities of the channels.
abbrev event_ch_size : ℕ
event_ch_size = 2048

abbrev pub error_ch_size : ℕ
error_ch_size = 64

abbrev status_ch_size : ℕ
status_ch_size = 8

abbrev pub filter_ch_size : ℕ
filter_ch_size = 2

-- The fields of `subscription` that change, and what was written to the connection.
pub record Subscription (Event Config Data : Type 0) : Type 0 where
  pub errors : List Error
  pub events : List Event
  pub status : List Status
  pub filters : List ℕ
  pub configs : List Config
  pub current_filter : Option ℕ
  pub current_token : String
  pub registered : Bool
  pub written : List Data

-- select { case ch <- x: default: }
unfoldable pub try_send {ℓ} : {A : Type ℓ} → ℕ → A → List A → List A
try_send capacity x ch = if ltb (length ch) capacity then ch ++ (x ∷ []) else ch

-- The configuration at an index, changed in place.
unfoldable pub change_at : {Config : Type 0} → ℕ → (Config → Config) → List Config → List Config
change_at i f [] = []
change_at zero f (c ∷ configs) = f c ∷ configs
change_at (suc i) f (c ∷ configs) = c ∷ change_at i f configs

module _ {Event Config Data : Type 0} where
  unfoldable pub publish_error :
      Error → Subscription Event Config Data → Subscription Event Config Data
  unfolding try_send
  publish_error e s = record s { errors = try_send error_ch_size e s.errors }

  unfoldable pub publish_event :
      Event → Subscription Event Config Data → Subscription Event Config Data
  unfolding publish_error
  publish_event evt s =
      if ltb (length s.events) event_ch_size
      then record s { events = s.events ++ (evt ∷ []) }
      else publish_error (foreign "unable to forward event: channel full") s

  unfoldable pub publish_status :
      Status → Subscription Event Config Data → Subscription Event Config Data
  unfolding try_send
  publish_status st s = record s { status = try_send status_ch_size st s.status }

  unfoldable pub update_filter : ℕ → Subscription Event Config Data → Subscription Event Config Data
  unfolding try_send
  update_filter filter s = record s {
    current_filter = some filter;
    filters = try_send filter_ch_size filter s.filters;
  }

  module _ (set_parameter : String → String → Config → Config) (new_push_config : Config) where
    -- The filter that gets the token: the current one, or a new one.
    abbrev pub with_filter :
        Option ℕ → Subscription Event Config Data → ℕ × Subscription Event Config Data
    with_filter (some filter) s = (filter, s)
    with_filter none s =
        (length s.configs, record s { configs = s.configs ++ (new_push_config ∷ []) })

    abbrev pub renewed :
        String → ℕ × Subscription Event Config Data → Subscription Event Config Data
    renewed t (filter, s) = publish_status token_renewal (
        update_filter filter
          (record s { configs = change_at filter (set_parameter "token" t) s.configs }))

    unfoldable pub set_current_token :
        String → Subscription Event Config Data → Subscription Event Config Data
    unfolding change_at update_filter publish_status
    set_current_token t s =
        renewed t (with_filter s.current_filter (record s { current_token = t }))

  -- NewSubscriber, with the token.
  abbrev pub new_subscriber : String → Subscription Event Config Data
  new_subscriber token = record {
    errors = [];
    events = [];
    status = [];
    filters = [];
    configs = [];
    current_filter = none;
    current_token = token;
    registered = false;
    written = [];
  }

  -- Start, before the goroutine of `listen`.
  unfoldable pub start : Option ℕ → Subscription Event Config Data → Subscription Event Config Data
  start none s = record s { registered = true }
  start (some filter) s = record s { current_filter = some filter; registered = true }

abbrev join : List String → String
join [] = ""
join (arg ∷ []) = arg
join (arg ∷ arg' ∷ args) = arg <> "&" <> join (arg' ∷ args)

abbrev arg_if : Bool → String → List String
arg_if true arg = arg ∷ []
arg_if false arg = []

abbrev token_arg : String → List String
token_arg password = if password == "" then [] else ("token=" <> password) ∷ []

unfoldable pub make_url : (String → String) → String → String → String → Bool → Bool → String
unfolding replace_first
make_url escape u namespace password recursive support_error_events =
    replace_first u "https://" "wss://"
    <> "?"
    <> join (
        (("namespace=" <> escape namespace) ∷ [])
        ++ token_arg password
        ++ arg_if recursive "mode=all"
        ++ arg_if support_error_events "enableErrors=true")

-- The wait after a try, in nanoseconds: 4 ^ try - 1 milliseconds, at most 8 seconds.
unfoldable pub next_backoff : ℕ → ℕ
next_backoff try = if ltb (4 ^ try - 1) 8_000 then (4 ^ try - 1) * 1_000_000 else 8_000 * 1_000_000
