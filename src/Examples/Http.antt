-- ===== src/Examples/Http.antt =====
-- Requests, their retries and their keys.
use manipulate.Prelude.{
  ℕ, suc, ◌≡◌, refl, String, false, Option, none, some, [], ◌∷◌, inl, inr, arith, leb, List, All,
  ap, sym, ◌∙◌, ne_of_false,
}
use manipulate.Prelude.Int.{pos}
use manipulate.Prelude.Dict.{lookup}
use manipulate.Errors.{Error, foreign, Result, ok, err, panic, ◌>>=◌}
use manipulate.Context.{Context}
use manipulate.Http.Headers.{
  Headers, Sender, prepare_headers, prepare_rest, make_authorization_headers,
}
use manipulate.Http.Headers.Credentials.{lookup-prepare_rest}
use manipulate.Http.Parameters.{add_query_parameters}
use manipulate.Http.Exchange.{Client, Request, Response, responded}
use manipulate.Http.Send.{send}
use manipulate.Http.Send.Attempts.{EndsWithin, send-EndsWithin}
use manipulate.Http.Send.Renewals.{SentWithin, send-SentWithin}
use manipulate.Http.Operations.{Model, with_key, create, update}
use manipulate.Http.Operations.Idempotency.{LeavesKey, lookup-key, create-LeavesKey}
use manipulate.Http.Send.Keys.{IsKeptWithKey}
use mathlib.Core.Path.{subst}
use manipulate.Examples.{Item, types, request}

abbrev sender : Sender
sender = record {
  username = "Bearer";
  namespace = "/shop";
  token_cookie_key = "";
  global_headers = [];
  encoding = "application/json";
}

lookup-prepare_rest_example :
    (lookup "Authorization" (prepare_rest sender "token" request []) ≡ some ("Bearer token" ∷ []))
    × (lookup "Cookie" (prepare_rest sender "token" request []) ≡ none)
unfolding make_authorization_headers lookup
lookup-prepare_rest_example = lookup-prepare_rest sender "token" request []

-- A server that refuses the token; the state is the number of renewals.
abbrev refusal : Response String
refusal = record { status = 401; headers = []; is_empty = false; body = "no" }

abbrev parameters : Result Headers
parameters = prepare_headers (λ n. none) sender "token" request []

abbrev new_request : ℕ → Context types → ℕ → Result Request
new_request timeout c s = do
  headers ← parameters
  ok (record {
    method = "POST";
    url = "https://shop/fruits";
    query = add_query_parameters (λ f. "q") c [];
    headers = headers;
    timeout = timeout;
  })

abbrev renew : ℕ → Option Error × ℕ
renew s = (none, suc s)

abbrev client : Client types String Item ℕ
client = record {
  disable_auto_retry = false;
  default_retry_func = none;
  backoff_curve = 0 ∷ 1_000_000_000 ∷ [];
  strong_backoff_curve = 2_000_000_000 ∷ [];
  new_request = new_request;
  perform = λ r s. (responded refusal, s);
  current_password = λ s. "token";
  renew = some renew;
  decode_errors = λ r. inr (foreign "unauthorized");
  decode = λ r o. (none, o);
  format = λ s. s;
  atoi = λ s. pos 0;
  run_retry = λ f try e. none;
  is_done = λ try. leb 3 try;
  now = λ try. try;
}

send-EndsWithin_example : EndsWithin 3 (send client none 5 4 request none 0)
send-EndsWithin_example = send-EndsWithin client none 5 3 4 request none 0 (inl refl) (omega arith)

renew_counts : (f : ℕ → Option Error × ℕ) → some renew ≡ some f → (s : ℕ) → (f s).1 ≡ suc s
renew_counts f same s = rw⁻¹ (some_injective same) refl
  where
    some_injective : {g : ℕ → Option Error × ℕ} → some renew ≡ some g → renew ≡ g
    some_injective h = cc h

send-SentWithin_example :
    SentWithin client (λ s. s) renew_counts (λ r s. refl) 2 (send client none 5 4 request none 0)
send-SentWithin_example =
    send-SentWithin client (λ s. s) renew_counts (λ r s. refl) none 5 4 request none 0

abbrev model : Model Item
model = record {
  target = λ o. record { identifier = o.id; version = pos 1; category = "fruits" };
  is_sparse = λ o. false;
  reset_defaults = λ o. o;
  encode = λ o. none;
}

-- A server that refuses the token and notes the keys of the requests.
abbrev Noted : Type 0
Noted = List (Option (List String))

abbrev noting : Client types String Item Noted
noting = record {
  disable_auto_retry = false;
  default_retry_func = none;
  backoff_curve = 0 ∷ 1_000_000_000 ∷ [];
  strong_backoff_curve = 2_000_000_000 ∷ [];
  new_request = λ timeout c s. ok (record {
    method = "POST";
    url = "https://shop/fruits";
    query = [];
    headers = prepare_rest sender "token" c [];
    timeout = timeout;
  });
  perform = λ r s. (responded refusal, lookup "Idempotency-Key" r.headers ∷ s);
  current_password = λ s. "token";
  renew = some (λ s. (none, s));
  decode_errors = λ r. inr (foreign "unauthorized");
  decode = λ r o. (none, o);
  format = λ s. s;
  atoi = λ s. pos 0;
  run_retry = λ f try e. none;
  is_done = λ try. leb 3 try;
  now = λ try. try;
}

abbrev AreKey1 : Noted → Type 0
AreKey1 noted = All (λ v. v ≡ some ("key1" ∷ [])) noted

abbrev Carries : Result Request → Type 0
Carries (ok r) = lookup "Idempotency-Key" r.headers ≡ some ("key1" ∷ [])
Carries (err e) = Unit
Carries panic = Unit

renewal-AreKey1 :
    (renew : Noted → Option Error × Noted)
    → noting.renew ≡ some renew
    → (s : Noted) → AreKey1 s
    → AreKey1 (renew s).1
renewal-AreKey1 renew same s h = subst (KeepsNoted s) same (λ h. h) h
  where
    KeepsNoted : Noted → Option (Noted → Option Error × Noted) → Type 0
    KeepsNoted s none = Unit
    KeepsNoted s (some f) = AreKey1 s → AreKey1 (f s).1

noting-IsKeptWithKey : IsKeptWithKey noting "key1" AreKey1
noting-IsKeptWithKey = record {
  performed = λ timeout c s r same made h. (
    subst Carries made (
        lookup-key sender "token" c [] (λ e. ne_of_false "key1" "" refl (sym same ∙ e))
        ∙ ap (λ key. some (key ∷ [])) same),
    h,
  );
  renewed = renewal-AreKey1;
}

create-LeavesKey_example :
    (lookup "Idempotency-Key" (
        prepare_rest sender "token"
          (with_key model model.target "https://shop" "key1"
            (λ method url. noting)
            none
            5
            4
            request)
          [])
      ≡ some ("key1" ∷ []))
    × LeavesKey "key1" AreKey1 (
        create model model.target "https://shop" "key1"
          (λ method url. noting)
          none
          5
          4
          request
          (some (record { id = "a"; rank = 1 }))
          [])
    × LeavesKey "key1" AreKey1 (
        update model model.target "https://shop" "key1"
          (λ method url. noting)
          none
          5
          4
          request
          (some (record { id = "a"; rank = 1 }))
          [])
create-LeavesKey_example =
    create-LeavesKey model model.target "https://shop" "key1" (λ method url. noting) none 5 4
      AreKey1 request (record { id = "a"; rank = 1 }) [] sender "token" []
      (λ method url. noting-IsKeptWithKey) tt (ne_of_false "key1" "" refl)
