-- ===== src/Context.antt =====
-- context.go: the settings of a request (`mcontext`), `NewContext` and `Derive`.
-- The types that the context only carries are parameters: filters and objects (elemental),
-- finalizers and retry functions, Go's context, and opaque values. An interface or pointer that
-- may be nil is an `Option`; a map or a slice that is nil is the empty one.
mod Consistency
pub mod Options
pub mod Derivation
pub mod Choices
pub use Consistency.{ReadConsistency, WriteConsistency}
use manipulate.Prelude.{ℕ, String, Bool, false, Option, none, List, [], ◌∷◌}
use manipulate.Prelude.Int.{ℤ, pos}
use manipulate.Prelude.Dict.{Dict}

pub record Types : Type 1 where
  pub Filter : Type 0
  pub Identifiable : Type 0
  pub FinalizerFunc : Type 0
  pub RetryFunc : Type 0
  pub GoContext : Type 0
  pub Value : Type 0

pub record Context (T : Types) : Type 0 where
  pub client_ip : String
  pub count_total : ℤ
  pub create_finalizer : Option T.FinalizerFunc
  pub ctx : T.GoContext
  pub external_tracking_id : String
  pub external_tracking_type : String
  pub fields : List String
  pub filter : Option T.Filter
  pub idempotency_key : String
  pub messages : List String
  pub namespace : String
  pub order : List String
  pub override_protection : Bool
  pub page : ℤ
  pub page_size : ℤ
  pub after : String
  pub limit : ℤ
  pub next : String
  pub parameters : Dict (List String)
  pub parent : Option T.Identifiable
  pub password : String
  pub read_consistency : ReadConsistency
  pub recursive : Bool
  pub retry_func : Option T.RetryFunc
  pub retry_ratio : ℤ
  pub transaction_id : String
  pub username : String
  pub version : ℤ
  pub write_consistency : WriteConsistency
  pub opaque : Dict T.Value

-- An option changes a context in place.
abbrev pub ContextOption : Types → Type 0
ContextOption T = Context T → Context T

-- for _, opt := range options { opt(mctx) }
unfoldable pub apply_options : {T : Types} → List (ContextOption T) → Context T → Context T
apply_options [] c = c
apply_options (opt ∷ options) c = apply_options options (opt c)

-- The context that `NewContext` starts from.
abbrev pub initial : {T : Types} → T.GoContext → Context T
initial ctx = record {
  client_ip = "";
  count_total = pos 0;
  create_finalizer = none;
  ctx = ctx;
  external_tracking_id = "";
  external_tracking_type = "";
  fields = [];
  filter = none;
  idempotency_key = "";
  messages = [];
  namespace = "";
  order = [];
  override_protection = false;
  page = pos 0;
  page_size = pos 0;
  after = "";
  limit = pos 0;
  next = "";
  parameters = [];
  parent = none;
  password = "";
  read_consistency = ReadConsistency.default;
  recursive = false;
  retry_func = none;
  retry_ratio = pos 4;
  transaction_id = "";
  username = "";
  version = pos 0;
  write_consistency = WriteConsistency.default;
  opaque = [];
}

unfoldable pub new_context : {T : Types} → T.GoContext → List (ContextOption T) → Context T
unfolding apply_options
new_context ctx options = apply_options options (initial ctx)

-- The copy that `Derive` makes: the fields that its literal names, and zero values for the rest.
unfoldable pub copy : {T : Types} → Context T → Context T
copy c = record {
  client_ip = c.client_ip;
  count_total = pos 0;
  create_finalizer = c.create_finalizer;
  ctx = c.ctx;
  external_tracking_id = c.external_tracking_id;
  external_tracking_type = c.external_tracking_type;
  fields = c.fields;
  filter = c.filter;
  idempotency_key = "";
  messages = [];
  namespace = c.namespace;
  order = c.order;
  override_protection = c.override_protection;
  page = c.page;
  page_size = c.page_size;
  after = c.after;
  limit = c.limit;
  next = "";
  parameters = c.parameters;
  parent = c.parent;
  password = c.password;
  read_consistency = c.read_consistency;
  recursive = c.recursive;
  retry_func = c.retry_func;
  retry_ratio = c.retry_ratio;
  transaction_id = c.transaction_id;
  username = c.username;
  version = c.version;
  write_consistency = c.write_consistency;
  opaque = c.opaque;
}

unfoldable pub derive : {T : Types} → Context T → List (ContextOption T) → Context T
unfolding copy apply_options
derive c options = apply_options options (copy c)
