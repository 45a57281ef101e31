-- ===== src/Vortex/Making.antt =====
-- manipvortex/options.go: the configuration and its options; manipvortex/manipulator.go: `New`. The
-- manipulators, the file of the commit log and the names of identities are parameters. A duration
-- is a number of nanoseconds. The goroutines that `New` starts are Vortex.Monitor and the
-- background loop of Vortex.Writes.
pub mod Bounded
use manipulate.Prelude.{
  ℕ, String, ◌<>◌, Bool, true, false, not, Option, none, some, List, [], ◌∷◌, ◌==◌, if◌then◌else◌,
}
use manipulate.Prelude.Int.{ℤ, pos}
use manipulate.Prelude.Dict.{Dict}
use manipulate.Errors.{Error, foreign, message}
use manipulate.Context.{Types, ReadConsistency, WriteConsistency}
use manipulate.Vortex.Commit.{Processor, Reconciler, Settings, Writer, Vortex}
use manipulate.Vortex.Reads.{Access, Reader, Prefetcher}
use manipulate.Vortex.Bulk.{Identity}
use manipulate.Vortex.Subscriptions.{initial_commits, keys}
use manipulate.Vortex.Warming.{WarmUp, Cache, Refreshed, refreshed, stuck, warm_up_by}

-- The interface of a prefetcher; its `prefetch` is for a `Retrieve`.
pub record Prefetching (T : Types) (Up : Type 0) : Type 0 where
  pub warm_up : WarmUp T Up
  pub prefetch : Prefetcher T Up
  pub flush : Up → Up

abbrev pub warming_of :
    {T : Types} {Up : Type 0} → Option (Prefetching T Up) → Option (WarmUp T Up × (Up → Up))
warming_of none = none
warming_of (some p) = some (p.warm_up, p.flush)

abbrev prefetch_of :
    {T : Types} {Up : Type 0} → Option (Prefetching T Up) → Option (Prefetcher T Up)
prefetch_of none = none
prefetch_of (some p) = some p.prefetch

-- `upstream` is `none` without an upstream manipulator, and `has_subscriber` says whether there is
-- an upstream subscriber.
pub record Config (T : Types) (Up Down : Type 0) : Type 0 where
  pub upstream : Option (Writer T Up)
  pub has_subscriber : Bool
  pub logfile : String
  pub enable_log : Bool
  pub queue_capacity : ℕ
  pub read_consistency : ReadConsistency
  pub write_consistency : WriteConsistency
  pub default_queue_duration : ℕ
  pub default_page_size : ℤ
  pub prefetcher : Option (Prefetching T Up)
  pub upstream_reconciler : Option (Reconciler T)
  pub downstream_reconciler : Option (Reconciler T)
  pub disable_upstream_commit : Bool

abbrev pub VortexOption : Types → Type 0 → Type 0 → Type 0
VortexOption T Up Down = Config T Up Down → Config T Up Down

abbrev read_or : ReadConsistency → ReadConsistency → ReadConsistency
read_or ReadConsistency.default old = old
read_or given old = given

abbrev write_or : WriteConsistency → WriteConsistency → WriteConsistency
write_or WriteConsistency.default old = old
write_or given old = given

module _ {T : Types} {Up Down : Type 0} where
  unfoldable pub new_config : Config T Up Down
  new_config = record {
    upstream = none;
    has_subscriber = false;
    logfile = "";
    enable_log = false;
    queue_capacity = 1000;
    read_consistency = ReadConsistency.eventual;
    write_consistency = WriteConsistency.strong;
    default_queue_duration = 1_000_000_000;
    default_page_size = pos 10_000;
    prefetcher = none;
    upstream_reconciler = none;
    downstream_reconciler = none;
    disable_upstream_commit = false;
  }

  -- A default consistency leaves the configuration as it is.
  unfoldable pub option_default_consistency :
      ReadConsistency → WriteConsistency → VortexOption T Up Down
  option_default_consistency read write cfg = record cfg {
    read_consistency = read_or read cfg.read_consistency;
    write_consistency = write_or write cfg.write_consistency;
  }

  unfoldable pub option_upstream_manipulator : Option (Writer T Up) → VortexOption T Up Down
  option_upstream_manipulator w cfg = record cfg { upstream = w }

  unfoldable pub option_upstream_subscriber : Bool → VortexOption T Up Down
  option_upstream_subscriber b cfg = record cfg { has_subscriber = b }

  unfoldable pub option_transaction_log : String → VortexOption T Up Down
  option_transaction_log filename cfg = record cfg {
    logfile = filename;
    enable_log = not (filename == "");
  }

  unfoldable pub option_transaction_queue_length : ℕ → VortexOption T Up Down
  option_transaction_queue_length n cfg = record cfg { queue_capacity = n }

  unfoldable pub option_transaction_queue_duration : ℕ → VortexOption T Up Down
  option_transaction_queue_duration d cfg = record cfg { default_queue_duration = d }

  unfoldable pub option_default_page_size : ℤ → VortexOption T Up Down
  option_default_page_size n cfg = record cfg { default_page_size = n }

  unfoldable pub option_prefetcher : Option (Prefetching T Up) → VortexOption T Up Down
  option_prefetcher p cfg = record cfg { prefetcher = p }

  unfoldable pub option_downstream_reconciler : Option (Reconciler T) → VortexOption T Up Down
  option_downstream_reconciler r cfg = record cfg { downstream_reconciler = r }

  unfoldable pub option_upstream_reconciler : Option (Reconciler T) → VortexOption T Up Down
  option_upstream_reconciler r cfg = record cfg { upstream_reconciler = r }

  unfoldable pub option_disable_commit_upstream : Bool → VortexOption T Up Down
  option_disable_commit_upstream b cfg = record cfg { disable_upstream_commit = b }

  -- for _, option := range options { option(cfg) }
  unfoldable pub configured : List (VortexOption T Up Down) → Config T Up Down → Config T Up Down
  configured [] cfg = cfg
  configured (option ∷ options) cfg = configured options (option cfg)

-- What `New` is given, but for the options. The reads belong to the manipulators; `open_log` is the
-- error of newLogWriter for a file, if any.
pub record Parts (T : Types) (Up Down : Type 0) : Type 0 where
  pub downstream : Writer T Down
  pub read_up : Reader T Up
  pub read_down : Reader T Down
  pub flush_down : Option (Down → Option Error × Down)
  pub processors : Dict (Processor T)
  pub identities : List Identity
  pub identity_name : T.Identifiable → String
  pub object_identity_text : T.Identifiable → String
  pub identity_text : Identity → String
  pub background : T.GoContext
  pub open_log : String → Option Error

-- How `New` ends: with a panic, an error, or the manipulator with the identities whose events are
-- committed and those of the filter for the upstream subscriber, if there is one. The warm up may
-- go on forever.
pub data Made (T : Types) (Up Down : Type 0) : Type 0 where
  made : Cache T Up Down → Vortex T Up Down → List String → List String → Made T Up Down
  failed : Error → Made T Up Down
  panicked : Made T Up Down
  warming : Made T Up Down

module _ {T : Types} {Up Down : Type 0} (parts : Parts T Up Down) where
  unfoldable pub settings_of : Config T Up Down → Settings T Up Down
  settings_of cfg = record {
    upstream = cfg.upstream;
    downstream = parts.downstream;
    identity_name = parts.identity_name;
    background = parts.background;
    processors = parts.processors;
    default_read_consistency = cfg.read_consistency;
    default_write_consistency = cfg.write_consistency;
    default_queue_duration = cfg.default_queue_duration;
    queue_capacity = cfg.queue_capacity;
    upstream_reconciler = cfg.upstream_reconciler;
    downstream_reconciler = cfg.downstream_reconciler;
    disable_upstream_commit = cfg.disable_upstream_commit;
    enable_log = cfg.enable_log;
  }

  unfoldable pub cache_of : Config T Up Down → Cache T Up Down
  unfolding settings_of
  cache_of cfg = record {
    access = record {
      settings = settings_of cfg;
      read_up = parts.read_up;
      read_down = parts.read_down;
      prefetcher = prefetch_of cfg.prefetcher;
      identity_text = parts.object_identity_text;
    };
    identities = parts.identities;
    identity_text = parts.identity_text;
    prefetcher = warming_of cfg.prefetcher;
    flush_down = parts.flush_down;
  }

  -- The filter for the upstream subscriber, and what is committed, if there is one.
  abbrev pub after_warm_up : Config T Up Down → Refreshed T Up Down → Made T Up Down
  after_warm_up cfg stuck = warming
  after_warm_up cfg (refreshed (some e) v) = failed (foreign ("unable to warm up: " <> message e))
  after_warm_up cfg (refreshed none v) =
      if cfg.has_subscriber
      then made (cache_of cfg) v (initial_commits parts.processors) (keys parts.processors)
      else made (cache_of cfg) v [] []

  abbrev pub after_log : Config T Up Down → Vortex T Up Down → Option Error → Made T Up Down
  after_log cfg v (some e) = failed (foreign ("unable open commit log file: " <> message e))
  after_log cfg v none = after_warm_up cfg (warm_up_by (cache_of cfg) (warming_of cfg.prefetcher) v)

  abbrev make_with : Config T Up Down → Up → Down → Made T Up Down
  make_with cfg up down =
      after_log cfg (record { up = up; down = down; queue = []; log = [] })
        (if cfg.enable_log then parts.open_log cfg.logfile else none)

  -- No processors make `New` panic, as a nil manipulator or model does.
  abbrev pub unless_none : Dict (Processor T) → Made T Up Down → Made T Up Down
  unless_none [] m = panicked
  unless_none (p ∷ processors) m = m

  unfoldable pub new : List (VortexOption T Up Down) → Up → Down → Made T Up Down
  unfolding configured new_config cache_of
  new options up down =
      unless_none parts.processors (make_with (configured options new_config) up down)
