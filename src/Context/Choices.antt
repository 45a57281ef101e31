-- ===== src/Context/Choices.antt =====
-- The options of the package as data, and derivations with them.
use manipulate.Prelude.{
  ◌≡◌, refl, ◌∙◌, ap, sym, String, Bool, true, false, Option, List, [], ◌∷◌, ◌++◌, map, All,
}
use manipulate.Prelude.Int.{ℤ}
use manipulate.Prelude.Dict.{Dict}
use manipulate.Context.{
  Types, Context, ContextOption, ReadConsistency, WriteConsistency, copy, derive,
}
use manipulate.Context.Options.{
  option_filter, option_namespace, option_recursive, option_version, option_override, option_page,
  option_after, option_tracking, option_order, option_parameters, option_finalizer,
  option_transaction_id, option_parent, option_fields, option_write_consistency,
  option_read_consistency, option_credentials, option_token, option_client_ip, option_retry_func,
  option_retry_ratio, option_idempotency_key, option_opaque,
}
use manipulate.Context.Derivation.{Settles, derive-derive}

-- An option with its arguments.
pub data Choice (T : Types) : Type 0 where
  filter : Option T.Filter → Choice T
  namespace : String → Choice T
  recursive : Bool → Choice T
  version : ℤ → Choice T
  override : Bool → Choice T
  page : ℤ → ℤ → Choice T
  after : String → ℤ → Choice T
  tracking : String → String → Choice T
  order : List String → Choice T
  parameters : Dict (List String) → Choice T
  finalizer : Option T.FinalizerFunc → Choice T
  transaction_id : String → Choice T
  parent : Option T.Identifiable → Choice T
  fields : List String → Choice T
  write_consistency : WriteConsistency → Choice T
  read_consistency : ReadConsistency → Choice T
  credentials : String → String → Choice T
  token : String → Choice T
  client_ip : String → Choice T
  retry_func : Option T.RetryFunc → Choice T
  retry_ratio : ℤ → Choice T
  idempotency_key : String → Choice T
  opaque : Dict T.Value → Choice T

module _ {T : Types} where
  unfoldable pub option_of : Choice T → ContextOption T
  option_of (filter a) = option_filter a
  option_of (namespace a) = option_namespace a
  option_of (recursive a) = option_recursive a
  option_of (version a) = option_version a
  option_of (override a) = option_override a
  option_of (page a b) = option_page a b
  option_of (after a b) = option_after a b
  option_of (tracking a b) = option_tracking a b
  option_of (order a) = option_order a
  option_of (parameters a) = option_parameters a
  option_of (finalizer a) = option_finalizer a
  option_of (transaction_id a) = option_transaction_id a
  option_of (parent a) = option_parent a
  option_of (fields a) = option_fields a
  option_of (write_consistency a) = option_write_consistency a
  option_of (read_consistency a) = option_read_consistency a
  option_of (credentials a b) = option_credentials a b
  option_of (token a) = option_token a
  option_of (client_ip a) = option_client_ip a
  option_of (retry_func a) = option_retry_func a
  option_of (retry_ratio a) = option_retry_ratio a
  option_of (idempotency_key a) = option_idempotency_key a
  option_of (opaque a) = option_opaque a

  -- All options but the idempotency key.
  abbrev is_settling : Choice T → Bool
  is_settling (idempotency_key key) = false
  is_settling _ = true

  option_of-Settles : (x : Choice T) → is_settling x ≡ true → Settles (option_of x)
  unfolding option_of copy option_filter option_namespace option_recursive option_version
      option_override option_page option_after option_tracking option_order option_parameters
      option_finalizer option_transaction_id option_parent option_fields option_write_consistency
      option_read_consistency option_credentials option_token option_client_ip option_retry_func
      option_retry_ratio option_idempotency_key option_opaque
  option_of-Settles (filter a) h c = refl
  option_of-Settles (namespace a) h c = refl
  option_of-Settles (recursive a) h c = refl
  option_of-Settles (version a) h c = refl
  option_of-Settles (override a) h c = refl
  option_of-Settles (page a b) h c = refl
  option_of-Settles (after a b) h c = refl
  option_of-Settles (tracking a b) h c = refl
  option_of-Settles (order a) h c = refl
  option_of-Settles (parameters a) h c = refl
  option_of-Settles (finalizer a) h c = refl
  option_of-Settles (transaction_id a) h c = refl
  option_of-Settles (parent a) h c = refl
  option_of-Settles (fields a) h c = refl
  option_of-Settles (write_consistency a) h c = refl
  option_of-Settles (read_consistency a) h c = refl
  option_of-Settles (credentials a b) h c = refl
  option_of-Settles (token a) h c = refl
  option_of-Settles (client_ip a) h c = refl
  option_of-Settles (retry_func a) h c = refl
  option_of-Settles (retry_ratio a) h c = refl
  option_of-Settles (idempotency_key a) h c = cc h
  option_of-Settles (opaque a) h c = refl

  options-Settle :
      (xs : List (Choice T)) → All (λ x. is_settling x ≡ true) xs → All Settles (map option_of xs)
  options-Settle [] h = h
  options-Settle (x ∷ xs) h = (option_of-Settles x h.0, options-Settle xs h.1)

  map-append :
      (xs ys : List (Choice T)) → map option_of (xs ++ ys) ≡ map option_of xs ++ map option_of ys
  map-append [] ys = refl
  map-append (x ∷ xs) ys = ap (λ zs. option_of x ∷ zs) (map-append xs ys)

  -- Deriving twice with options of the package is deriving once with the options of both, in order,
  -- if no idempotency key is among the first ones.
  pub derive-chosen :
      (xs ys : List (Choice T)) (c : Context T)
      → All (λ x. is_settling x ≡ true) xs
      → derive (derive c (map option_of xs)) (map option_of ys)
        ≡ derive c (map option_of (xs ++ ys))
  derive-chosen xs ys c h =
      derive-derive (map option_of xs) (map option_of ys) c (options-Settle xs h)
      ∙ ap (derive c) (sym (map-append xs ys))
