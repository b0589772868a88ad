-- ===== src/Tests/Concurrent.antt =====
-- Several requests at once, at concrete inputs.
use taxi_lab.Base.{
  order_by, ◌≡◌, ◌⊎◌, refl, List, [], ◌∷◌, Mem, String, Result, ok, arith, find, assign, int_eq,
  to_string, to_string_onto, print_onto, digit_char, store_varchar, is_blank,
}
use taxi_lab.Database.Rows.{Database, varchar, int_column, string_column}
use taxi_lab.Database.Invariant.{WellFormed}
use taxi_lab.Database.Users.{
  user_columns, new_user, user_clashes, add_user, insert_user, select_user_by_login,
}
use taxi_lab.Database.Rides.{select_active_rides}
use taxi_lab.Storage.{create_user, get_user_by_login, get_active_rides, is_token_valid}
use taxi_lab.Storage.Parse.{parse_first, parse_all, parse_user}
use taxi_lab.Performance.Cache.{get, get_found, set, invalidate_prefix}
use taxi_lab.Performance.Limiter.{RateLimiter, check, take, roll_over}
use taxi_lab.Middlewares.Auth.{is_public_request, lacks_bearer, bearer_token}
use taxi_lab.Http.{HttpResponse, status_ok, unauthorized}
use taxi_lab.Handlers.Coherence.Users.{users_answer}
use taxi_lab.Handlers.Coherence.Rides.{rides_answer}
use taxi_lab.Service.{Call, get_users, get_rides, post_users}
use taxi_lab.Concurrent.Task.{
  then_task, ◌>>=◌, pure, lift, with_storage, with_db, with_cache, with_limiter, set_response,
}
use taxi_lab.Concurrent.Requests.{serve_steps, respond_steps}
use taxi_lab.Concurrent.Writers.{user_created, users_create_steps}
use taxi_lab.Concurrent.Readers.{
  cached_or, user_found, login_steps, users_get_steps, handle_request_steps, active_steps,
  rate_limit_headers, limited_steps, rides_get_query_steps, rides_get_steps,
}
use taxi_lab.Concurrent.World.{
  idle, Event, arrives, turn, take_turn, happens, run_events, request_at, databases,
}
use taxi_lab.Concurrent.Accesses.{Within}
use taxi_lab.Concurrent.Accesses.Respond.{respond-Within}
use taxi_lab.Concurrent.History.Run.{
  run_events-WellFormed, run_events-users_answer, run_events-rides_answer,
}
use taxi_lab.Base.{true, false, pos, to_string, to_string_onto, print_onto, digit_char}
use taxi_lab.Storage.{issue_token, make_token}
use taxi_lab.Storage.Tokens.Issue.{HasOldTokens}
use taxi_lab.Concurrent.Tokens.{run_events-is_token_valid, run_events-issue_token_fresh}
use taxi_lab.Concurrent.Logins.{run_events-login_answer}
use taxi_lab.Tests.Serving.{
  lib, moment, users_request, rides_request, server, start-IsSound, serving, serving-IsSound,
}

abbrev user_query : Call
user_query = record { route = get_users; moment = moment; request = users_request }

abbrev rides_query : Call
rides_query = record { route = get_rides; moment = moment; request = rides_request }

-- A query in five turns, between which a user is created.
abbrev mixed : List Event
mixed =
    arrives user_query
    ∷ turn 0
    ∷ arrives (record user_query { route = post_users })
    ∷ turn 1
    ∷ turn 0
    ∷ turn 1
    ∷ turn 0
    ∷ turn 0
    ∷ turn 0
    ∷ []

-- What the query answers, although the other request has come in between.
abbrev told : Result String × HttpResponse
told = (
  ok "printed",
  record {
    status = status_ok;
    content_type = "application/json";
    headers = ("X-Cache", "MISS") ∷ [];
    body = "";
  },
)

respond-Within_example : Within 5 (respond_steps lib rides_query)
respond-Within_example = respond-Within lib rides_query

abbrev five_turns : List Event
five_turns = turn 0 ∷ turn 0 ∷ turn 0 ∷ turn 0 ∷ turn 0 ∷ []

run_events-WellFormed_example : WellFormed (run_events lib mixed (idle server)).server.storage.db
run_events-WellFormed_example = run_events-WellFormed lib mixed server start-IsSound

run_events-users_answer_example :
    (told.1.status ≡ unauthorized)
    ⊎ ((db : Database) × Mem db (databases lib mixed (idle server) (server.storage.db ∷ []))
        × ((told.0, told.1.status) ≡ users_answer lib users_request db status_ok))
unfolding run_events happens take_turn request_at respond_steps serve_steps handle_request_steps
    users_get_steps login_steps user_found cached_or then_task ◌>>=◌ pure lift with_storage with_db
    with_cache set_response get get_found set invalidate_prefix find assign is_public_request
    users_create_steps user_created create_user insert_user new_user user_clashes add_user varchar
    store_varchar is_blank get_user_by_login select_user_by_login user_columns parse_first
    parse_user int_column string_column int_eq
run_events-users_answer_example =
    run_events-users_answer lib mixed server 0 moment users_request told start-IsSound refl

abbrev told_rides : Result String × HttpResponse
told_rides = (
  ok "printed",
  record {
    status = status_ok;
    content_type = "application/json";
    headers =
        ("X-RateLimit-Limit", "100")
        ∷ ("X-RateLimit-Remaining", "99")
        ∷ ("X-RateLimit-Reset", "120")
        ∷ ("X-Cache", "MISS")
        ∷ [];
    body = "";
  },
)

run_events-rides_answer_example :
    (told_rides.1.status ≡ unauthorized)
    ⊎ ((limiter : RateLimiter) × ((db : Database) × Mem db (
            databases lib
              (arrives rides_query ∷ five_turns)
              (idle serving)
              (serving.storage.db ∷ []))
          × ((told_rides.0, told_rides.1.status)
              ≡ rides_answer lib moment rides_request db limiter status_ok)))
unfolding run_events happens take_turn request_at respond_steps serve_steps handle_request_steps
    rides_get_steps rides_get_query_steps rate_limit_headers limited_steps active_steps cached_or
    then_task ◌>>=◌ pure lift with_storage with_db with_cache with_limiter set_response get
    get_found set find assign is_public_request lacks_bearer bearer_token is_token_valid check take
    roll_over get_active_rides select_active_rides parse_all to_string to_string_onto print_onto
    digit_char order_by create_user insert_user new_user varchar store_varchar parse_first
    parse_user user_columns
run_events-rides_answer_example =
    run_events-rides_answer lib (arrives rides_query ∷ five_turns) serving 0 moment rides_request
      told_rides serving-IsSound refl

-- The token of Ann, while a query is going on and a user is created.
run_events-is_token_valid_example :
    is_token_valid "token-1-1"
      (run_events lib mixed
        (run_events lib (arrives rides_query ∷ five_turns) (idle serving))).server.storage
    ≡ true
unfolding run_events happens take_turn respond_steps serve_steps handle_request_steps
    rides_get_steps rides_get_query_steps rate_limit_headers limited_steps active_steps cached_or
    then_task ◌>>=◌ pure lift with_storage with_db with_cache with_limiter set_response get
    get_found set find assign is_public_request lacks_bearer bearer_token is_token_valid check take
    roll_over get_active_rides select_active_rides parse_all to_string to_string_onto print_onto
    digit_char order_by create_user insert_user new_user varchar store_varchar parse_first
    parse_user user_columns
run_events-is_token_valid_example =
    run_events-is_token_valid lib (arrives rides_query ∷ five_turns) mixed serving "token-1-1" refl

abbrev old_tokens : HasOldTokens server.storage
old_tokens = record { next = 1; counter = refl; old = tt }

-- The first token that is given behind a query.
run_events-issue_token_fresh_example :
    is_token_valid "token-2-1"
      (run_events lib (arrives rides_query ∷ []) (idle server)).server.storage
    ≡ false
unfolding run_events happens issue_token make_token to_string to_string_onto print_onto digit_char
run_events-issue_token_fresh_example =
    run_events-issue_token_fresh lib (arrives rides_query ∷ []) server old_tokens (omega arith)
      (pos 2) "token-2-1" refl

run_events-login_answer_example :
    (told.0, told.1.status)
    ≡ users_answer lib users_request
        (run_events lib mixed (idle server)).server.storage.db
        status_ok
unfolding run_events happens take_turn request_at respond_steps serve_steps handle_request_steps
    users_get_steps login_steps user_found cached_or then_task ◌>>=◌ pure lift with_storage with_db
    with_cache set_response get get_found set invalidate_prefix find assign is_public_request
    users_create_steps user_created create_user insert_user new_user user_clashes add_user varchar
    store_varchar is_blank get_user_by_login select_user_by_login user_columns parse_first
    parse_user int_column string_column int_eq
run_events-login_answer_example =
    run_events-login_answer lib mixed server 0 moment users_request told start-IsSound refl refl
      refl
