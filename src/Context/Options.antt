-- ===== src/Context/Options.antt =====
-- options.go: the functions `ContextOptionX`, each an option of `NewContext` and `Derive`.
use manipulate.Prelude.{String, Bool, Option, List}
use manipulate.Prelude.Int.{ℤ}
use manipulate.Prelude.Dict.{Dict}
use manipulate.Context.{Types, ContextOption, ReadConsistency, WriteConsistency}

module _ {T : Types} where
  unfoldable pub option_filter : Option T.Filter → ContextOption T
  option_filter f c = record c { filter = f }

  unfoldable pub option_namespace : String → ContextOption T
  option_namespace n c = record c { namespace = n }

  unfoldable pub option_recursive : Bool → ContextOption T
  option_recursive r c = record c { recursive = r }

  unfoldable pub option_version : ℤ → ContextOption T
  option_version v c = record c { version = v }

  unfoldable pub option_override : Bool → ContextOption T
  option_override o c = record c { override_protection = o }

  unfoldable pub option_page : ℤ → ℤ → ContextOption T
  option_page n size c = record c { page = n; page_size = size }

  unfoldable pub option_after : String → ℤ → ContextOption T
  option_after from limit c = record c { after = from; limit = limit }

  unfoldable pub option_tracking : String → String → ContextOption T
  option_tracking identifier typ c = record c {
    external_tracking_id = identifier;
    external_tracking_type = typ;
  }

  unfoldable pub option_order : List String → ContextOption T
  option_order orders c = record c { order = orders }

  unfoldable pub option_parameters : Dict (List String) → ContextOption T
  option_parameters p c = record c { parameters = p }

  unfoldable pub option_finalizer : Option T.FinalizerFunc → ContextOption T
  option_finalizer f c = record c { create_finalizer = f }

  unfoldable pub option_transaction_id : String → ContextOption T
  option_transaction_id tid c = record c { transaction_id = tid }

  unfoldable pub option_parent : Option T.Identifiable → ContextOption T
  option_parent i c = record c { parent = i }

  unfoldable pub option_fields : List String → ContextOption T
  option_fields fields c = record c { fields = fields }

  unfoldable pub option_write_consistency : WriteConsistency → ContextOption T
  option_write_consistency consistency c = record c { write_consistency = consistency }

  unfoldable pub option_read_consistency : ReadConsistency → ContextOption T
  option_read_consistency consistency c = record c { read_consistency = consistency }

  unfoldable pub option_credentials : String → String → ContextOption T
  option_credentials username password c = record c { username = username; password = password }

  unfoldable pub option_token : String → ContextOption T
  option_token token c = record c { username = "Bearer"; password = token }

  unfoldable pub option_client_ip : String → ContextOption T
  option_client_ip client_ip c = record c { client_ip = client_ip }

  unfoldable pub option_retry_func : Option T.RetryFunc → ContextOption T
  option_retry_func f c = record c { retry_func = f }

  unfoldable pub option_retry_ratio : ℤ → ContextOption T
  option_retry_ratio r c = record c { retry_ratio = r }

  unfoldable pub option_idempotency_key : String → ContextOption T
  option_idempotency_key key c = record c { idempotency_key = key }

  unfoldable pub option_opaque : Dict T.Value → ContextOption T
  option_opaque o c = record c { opaque = o }
