-- ===== src/Http/Urls.antt =====
-- maniphttp/manipulator.go: the URLs of the requests. The version of a context or a model is an
-- `int`, and an object is what the URLs read of it.
use manipulate.Prelude.{zero, suc, String, ◌<>◌, Option, none, some, if◌then◌else◌, ◌==◌}
use manipulate.Prelude.Int.{ℤ, pos, negsuc}
use manipulate.Prelude.Decimal.{decimal}
use manipulate.Errors.{Result, ok, err, foreign, ◌>>=◌}

pub record Target : Type 0 where
  pub identifier : String
  pub version : ℤ
  pub category : String

abbrev version_or : ℤ → String → String
version_or (pos zero) other = other
version_or (pos (suc n)) other = "v/" <> decimal (suc n) <> "/"
version_or (negsuc n) other = other

unfoldable pub compute_version : ℤ → ℤ → String
unfolding decimal
compute_version model_version mctx_version = version_or mctx_version (version_or model_version "")

-- `base` is the field `url` of the manipulator.
module _ (base : String) where
  unfoldable pub get_general_url : Target → ℤ → String
  unfolding compute_version
  get_general_url o mctx_version =
      base <> "/" <> compute_version o.version mctx_version <> o.category

  unfoldable pub get_personal_url : Target → ℤ → Result String
  unfolding get_general_url
  get_personal_url o mctx_version =
      if o.identifier == ""
      then err (foreign "cannot GetPersonalURL of an object with no ID set")
      else ok (get_general_url o mctx_version <> "/" <> o.identifier)

  unfoldable pub get_url_for_children_identity : Option Target → String → ℤ → ℤ → Result String
  unfolding compute_version get_personal_url
  get_url_for_children_identity none category model_version mctx_version =
      ok (base <> "/" <> compute_version model_version mctx_version <> category)
  get_url_for_children_identity (some parent) category model_version mctx_version = do
    url ← get_personal_url parent mctx_version
    ok (url <> "/" <> category)
