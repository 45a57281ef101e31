-- ===== src/Examples/Push.antt =====
-- A subscription to a server that is down, and one to a server that comes up.
use manipulate.Prelude.{refl, String, true, false, [], arith, ltb, if◌then◌else◌}
use manipulate.Errors.{foreign}
use manipulate.Push.{Subscription, new_subscriber}
use manipulate.Push.Connection.{connected, unanswered, Surroundings, connect}
use manipulate.Push.Connection.Made.{IsMade, connect-IsMade}

-- Events, configurations and what is sent are texts.
abbrev Texts : Type 0
Texts = Subscription String String String

abbrev fresh : Texts
fresh = new_subscriber "token"

abbrev down : Surroundings
down = record {
  dial = λ try. unanswered (foreign "connection refused");
  is_done = λ try. true;
  taken = λ try. 0;
}

abbrev coming_up : Surroundings
coming_up = record {
  dial = λ try. if ltb try 3 then unanswered (foreign "connection refused") else connected;
  is_done = λ try. false;
  taken = λ try. 0;
}

connect-IsMade_example : IsMade coming_up true (connect coming_up true 4 0 [] fresh)
connect-IsMade_example =
    connect-IsMade coming_up true 3 refl 4 0 [] fresh (omega arith) (omega arith) (omega arith)

abbrev set_parameter : String → String → String → String
set_parameter key v config = v
