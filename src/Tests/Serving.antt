-- ===== src/Tests/Serving.antt =====
-- The middleware and the service at concrete inputs.
use taxi_lab.Base.{
  some, pure, pos, find, ne_of_eq_false, if◌then◌else◌, ◌≡◌, refl, List, [], ◌∷◌, String, ◌==◌, ok,
}
use taxi_lab.Storage.{is_token_valid}
use taxi_lab.Performance.Cache.{empty_cache}
use taxi_lab.Performance.Limiter.{empty_limiter}
use taxi_lab.Http.{HttpRequest, Exchange, Server, Handler, new_response}
use taxi_lab.Middlewares.Auth.{handle_request}
use taxi_lab.Middlewares.Auth.Laws.{Admits, IsRejected, handle_request_lem}
use taxi_lab.Http.{Userver, Moment, status_ok}
use taxi_lab.Middlewares.Auth.{is_public_request, lacks_bearer}
use taxi_lab.Middlewares.Auth.Laws.{public_path, bearer, users}
use taxi_lab.Handlers.Coherence.{empty_cache-Coherent}
use taxi_lab.Handlers.Coherence.Answers.{answer}
use taxi_lab.Handlers.Coherence.Users.{users_answer}
use taxi_lab.Handlers.Coherence.Rides.{rides_answer}
use taxi_lab.Handlers.UsersGet.{users_get}
use taxi_lab.Handlers.RidesGet.{rides_get}
use taxi_lab.Handlers.ReadOnly.{read_only}
use taxi_lab.Service.{Call, post_users, get_users, get_rides, respond, run}
use taxi_lab.Service.Sound.{IsSound, run-IsSound, respond-users_answer, respond-rides_answer}
use taxi_lab.Base.{
  to_string, to_string_onto, print_onto, digit_char, store_varchar, is_blank, int_eq, false, arith,
}
use taxi_lab.Database.Rows.{varchar, int_column, string_column}
use taxi_lab.Database.Users.{
  user_columns, new_user, user_clashes, add_user, insert_user, select_user_by_login,
}
use taxi_lab.Storage.{create_user, get_user_by_login, login, issue_token, make_token}
use taxi_lab.Storage.Parse.{parse_first, parse_user}
use taxi_lab.Storage.Tokens.Issue.{HasOldTokens}
use taxi_lab.Service.Tokens.{run-login_fresh}
use taxi_lab.Tests.Company.{with_ann, with_ann-WellFormed, started}

abbrev pub server : Server
server = record { storage = started; cache = empty_cache; limiter = empty_limiter }

abbrev exchange : Exchange
exchange = record { server = server; response = new_response }

abbrev pub rides_request : HttpRequest
rides_request = record {
  path = "/rides";
  arg = λ name. if name == "status" then "active" else "";
  path_arg = λ name. "";
  header = λ name. if name == "Authorization" then "Bearer token-1-1" else "";
  body = "";
}

abbrev next : Handler String
next = pure "[]"

handle_request_lem_example :
    (Admits rides_request started → handle_request next rides_request exchange ≡ next exchange)
    × (¬ Admits rides_request started
        → IsRejected next rides_request exchange (handle_request next rides_request exchange))
handle_request_lem_example = handle_request_lem next rides_request exchange

-- A JSON library for the examples: every text parses, and a text member is its own name.
abbrev pub lib : Userver
lib = record {
  Value = Unit {0};
  from_string = λ s. ok tt;
  int_member = λ v name. ok (pos 1);
  string_member = λ v name. ok name;
  print = λ d. "printed";
  lower = λ s. s;
}

abbrev pub moment : Moment
moment = record { now = 5; system = 70; read = 100; write = 200 }

pub start-IsSound : IsSound lib server
start-IsSound = record {
  well_formed = with_ann-WellFormed;
  coherent = empty_cache-Coherent lib with_ann;
}

abbrev pub users_request : HttpRequest
users_request = record {
  path = "/users";
  arg = λ name. if name == "login" then "ann" else "";
  path_arg = λ name. "";
  header = λ name. "";
  body = "{}";
}

abbrev earlier : List Call
earlier =
    record { route = post_users; moment = moment; request = users_request }
    ∷ record { route = get_users; moment = moment; request = users_request }
    ∷ []

run-IsSound_example : IsSound lib (run lib earlier server)
run-IsSound_example = run-IsSound lib earlier server start-IsSound

respond-users_answer_example :
    answer (
      respond lib
        (record { route = get_users; moment = moment; request = users_request })
        (run lib earlier server))
    ≡ users_answer lib users_request (run lib earlier server).storage.db status_ok
unfolding is_public_request
respond-users_answer_example =
    respond-users_answer lib earlier server moment users_request start-IsSound (public_path users)

-- A server that has given a token to Ann.
abbrev pub serving : Server
serving = record server {
  storage = record started { next_token_id = pos 2; tokens = ("token-1-1", pos 1) ∷ [] };
}

pub serving-IsSound : IsSound lib serving
serving-IsSound = record {
  well_formed = with_ann-WellFormed;
  coherent = empty_cache-Coherent lib with_ann;
}

-- One request without a token, which the middleware refuses.
abbrev refused : List Call
refused =
    record {
      route = get_rides;
      moment = moment;
      request = record rides_request { header = λ name. "" };
    }
    ∷ []

respond-rides_answer_example :
    answer (
      respond lib
        (record { route = get_rides; moment = moment; request = rides_request })
        (run lib refused serving))
    ≡ rides_answer lib moment rides_request
        (run lib refused serving).storage.db
        (run lib refused serving).limiter
        status_ok
unfolding run respond handle_request is_public_request lacks_bearer is_token_valid find
respond-rides_answer_example =
    respond-rides_answer lib refused serving moment rides_request serving-IsSound
      (bearer "token-1-1" refl (ne_of_eq_false "token-1-1" "" refl) refl)

read_only_example :
    ((users_get lib moment rides_request exchange).1.server.storage ≡ exchange.server.storage)
    × ((rides_get lib moment rides_request exchange).1.server.storage ≡ exchange.server.storage)
read_only_example = read_only lib moment rides_request exchange

-- Ann logs in after the refused request, and gets a second token.
unfoldable serving-HasOldTokens : HasOldTokens serving.storage
unfolding make_token to_string to_string_onto print_onto digit_char
serving-HasOldTokens = record { next = 2; counter = refl; old = ((1, refl, omega arith), tt) }

gives_token : (login "ann" "pw1" (run lib refused serving).storage).0 ≡ ok (some "token-1-2")
unfolding run respond handle_request is_public_request lacks_bearer login get_user_by_login
    select_user_by_login issue_token make_token to_string to_string_onto print_onto digit_char
    create_user insert_user new_user varchar store_varchar is_blank user_clashes add_user
    user_columns int_eq find parse_first parse_user int_column string_column
gives_token = refl

run-login_fresh_example : is_token_valid "token-1-2" (run lib refused serving).storage ≡ false
unfolding serving-HasOldTokens
run-login_fresh_example =
    run-login_fresh lib refused serving "ann" "pw1" "token-1-2" serving-HasOldTokens (omega arith)
      gives_token
