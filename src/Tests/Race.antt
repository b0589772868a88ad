-- ===== src/Tests/Race.antt =====
-- An old body in the cache: a query reads the users, another request adds one and invalidates, and
-- the query stores what it had read (src/handlers/users_get.cpp:71-83).
use taxi_lab.Base.{
  order_by, ◌≡◌, refl, List, [], ◌∷◌, some, String, ok, find, assign, keep_keys, int_eq,
  store_varchar, is_blank, if◌then◌else◌, ◌==◌, like,
}
use taxi_lab.Database.Rows.{varchar, int_column, string_column}
use taxi_lab.Database.Users.{
  user_columns, new_user, user_clashes, add_user, insert_user, find_users_by_mask,
}
use taxi_lab.Storage.{create_user, find_users_by_name_mask}
use taxi_lab.Storage.Parse.{parse_first, parse_all, parse_user}
use taxi_lab.Performance.Cache.{get, get_found, set, invalidate_prefix}
use taxi_lab.Middlewares.Auth.{is_public_request}
use taxi_lab.Http.{Userver, Document, object, array, status_ok}
use taxi_lab.Service.{Call, get_users, post_users}
use taxi_lab.Handlers.Coherence.Users.{users_answer}
use taxi_lab.Concurrent.Task.{
  finished, then_task, ◌>>=◌, pure, lift, with_storage, with_db, with_cache, set_response,
}
use taxi_lab.Concurrent.Requests.{serve_steps, respond_steps}
use taxi_lab.Concurrent.Writers.{user_created, users_create_steps}
use taxi_lab.Concurrent.Readers.{cached_or, mask_steps, users_get_steps, handle_request_steps}
use taxi_lab.Concurrent.World.{
  World, idle, Event, arrives, turn, take_turn, happens, run_events, request_at,
}
use taxi_lab.Tests.Serving.{lib, moment, users_request, server}

-- How many objects a document has.
abbrev print_size : Document → String
print_size (object members) = "an object"
print_size (array []) = "none"
print_size (array (item ∷ [])) = "one"
print_size (array (item ∷ next ∷ items)) = "several"

abbrev sizes : Userver
sizes = record lib { print = print_size }

abbrev mask_query : Call
mask_query = record {
  route = get_users;
  moment = moment;
  request = record users_request { arg = λ name. if name == "name_mask" then "n" else "" };
}

abbrev raced : List Event
raced =
    arrives mask_query
    ∷ turn 0
    ∷ turn 0
    ∷ arrives (record mask_query { route = post_users })
    ∷ turn 1
    ∷ turn 1
    ∷ turn 0
    ∷ arrives mask_query
    ∷ turn 2
    ∷ []

abbrev after_race : World
after_race = run_events sizes raced (idle server)

-- The last request is told of one user, from the cache.
told_old :
    request_at 2 after_race.requests
    ≡ some (record {
      call = mask_query;
      task = finished (
        ok "one",
        record {
          status = status_ok;
          content_type = "application/json";
          headers = ("X-Cache", "HIT") ∷ [];
          body = "";
        },
      );
    })
unfolding run_events happens take_turn request_at respond_steps serve_steps handle_request_steps
    users_get_steps mask_steps cached_or then_task ◌>>=◌ pure lift with_storage with_db with_cache
    set_response get get_found set invalidate_prefix find assign is_public_request
    users_create_steps user_created create_user insert_user new_user user_clashes add_user varchar
    store_varchar is_blank find_users_by_name_mask find_users_by_mask user_columns parse_first
    parse_all parse_user int_column string_column int_eq order_by like keep_keys
told_old = refl

-- The database has several that fit.
several_fit :
    users_answer sizes mask_query.request after_race.server.storage.db status_ok
    ≡ (ok "several", status_ok)
unfolding run_events happens take_turn request_at respond_steps serve_steps handle_request_steps
    users_get_steps mask_steps cached_or then_task ◌>>=◌ pure lift with_storage with_db with_cache
    set_response get get_found set invalidate_prefix find assign is_public_request
    users_create_steps user_created create_user insert_user new_user user_clashes add_user varchar
    store_varchar is_blank find_users_by_name_mask find_users_by_mask user_columns parse_first
    parse_all parse_user int_column string_column int_eq order_by like keep_keys
several_fit = refl
