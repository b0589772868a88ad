-- ===== src/Tests/Starting.antt =====
-- The start of the service at concrete inputs.
use taxi_lab.Base.{
  ◌≡◌, refl, String, true, false, List, [], ◌∷◌, ◌++◌, map, Mem, mem-cons_self, mem-cons_of_mem,
  find,
}
use taxi_lab.Components.Config.{static_config}
use taxi_lab.Components.Own.{
  Schema, Bases, Component, Own, component, postgres_name, mongo_name, taxi_storage,
  auth_middleware, handler_users_create, handler_users_get, handler_auth_login,
  handler_drivers_create, handler_rides_create, handler_rides_get, handler_rides_accept,
  handler_rides_complete, handler_mongo_users_create, handler_mongo_users_get,
}
use taxi_lab.Components.Start.{is_in, construct}
use taxi_lab.Components.Completes.{construct-completes}

-- Schemas of base classes, the first with the keys of every handler.
abbrev bases : Bases
bases = record {
  handler = record {
    description = "handler";
    additional_properties = false;
    properties = "path" ∷ "method" ∷ "task_processor" ∷ [];
  };
  loggable = record { description = "component"; additional_properties = false; properties = [] };
  middleware = record {
    description = "middleware";
    additional_properties = false;
    properties = [];
  };
  merge_schemas = λ base own. record {
    description = own.description;
    additional_properties = base.additional_properties;
    properties = base.properties;
  };
  handler_finds = "server" ∷ [];
  loggable_finds = [];
  middleware_finds = [];
}

-- A component of userver, which has what it needs.
abbrev ready : String → Component
ready name = record {
  name = name;
  finds = λ b. [];
  schema = λ b. record { description = name; additional_properties = true; properties = [] };
}

-- The handlers first, and the storage last.
abbrev reversed : List Own
reversed =
    handler_mongo_users_get ∷ handler_mongo_users_create ∷ handler_rides_complete
    ∷ handler_rides_accept ∷ handler_rides_get ∷ handler_rides_create ∷ handler_drivers_create
    ∷ handler_auth_login ∷ handler_users_get ∷ handler_users_create ∷ auth_middleware ∷ taxi_storage
    ∷ []

reversed-tried : (o : Own) → Mem (component o) (map component reversed)
reversed-tried handler_mongo_users_get = mem-cons_self
reversed-tried handler_mongo_users_create = mem-cons_of_mem _ (mem-cons_self)
reversed-tried handler_rides_complete = mem-cons_of_mem _ (mem-cons_of_mem _ (mem-cons_self))
reversed-tried handler_rides_accept =
    mem-cons_of_mem _ (mem-cons_of_mem _ (mem-cons_of_mem _ (mem-cons_self)))
reversed-tried handler_rides_get =
    mem-cons_of_mem _ (mem-cons_of_mem _ (mem-cons_of_mem _ (mem-cons_of_mem _ (mem-cons_self))))
reversed-tried handler_rides_create =
    mem-cons_of_mem _ (
      mem-cons_of_mem _ (mem-cons_of_mem _ (mem-cons_of_mem _ (mem-cons_of_mem _ (mem-cons_self)))))
reversed-tried handler_drivers_create = mem-cons_of_mem _ (
    mem-cons_of_mem _ (
      mem-cons_of_mem _
        (mem-cons_of_mem _ (mem-cons_of_mem _ (mem-cons_of_mem _ (mem-cons_self))))))
reversed-tried handler_auth_login = mem-cons_of_mem _ (
    mem-cons_of_mem _ (
      mem-cons_of_mem _ (
        mem-cons_of_mem _
          (mem-cons_of_mem _ (mem-cons_of_mem _ (mem-cons_of_mem _ (mem-cons_self)))))))
reversed-tried handler_users_get = mem-cons_of_mem _ (
    mem-cons_of_mem _ (
      mem-cons_of_mem _ (
        mem-cons_of_mem _ (
          mem-cons_of_mem _
            (mem-cons_of_mem _ (mem-cons_of_mem _ (mem-cons_of_mem _ (mem-cons_self))))))))
reversed-tried handler_users_create = mem-cons_of_mem _ (
    mem-cons_of_mem _ (
      mem-cons_of_mem _ (
        mem-cons_of_mem _ (
          mem-cons_of_mem _ (
            mem-cons_of_mem _
              (mem-cons_of_mem _ (mem-cons_of_mem _ (mem-cons_of_mem _ (mem-cons_self)))))))))
reversed-tried auth_middleware = mem-cons_of_mem _ (
    mem-cons_of_mem _ (
      mem-cons_of_mem _ (
        mem-cons_of_mem _ (
          mem-cons_of_mem _ (
            mem-cons_of_mem _ (
              mem-cons_of_mem _
                (mem-cons_of_mem _ (mem-cons_of_mem _ (mem-cons_of_mem _ (mem-cons_self))))))))))
reversed-tried taxi_storage = mem-cons_of_mem _ (
    mem-cons_of_mem _ (
      mem-cons_of_mem _ (
        mem-cons_of_mem _ (
          mem-cons_of_mem _ (
            mem-cons_of_mem _ (
              mem-cons_of_mem _ (
                mem-cons_of_mem _
                  (mem-cons_of_mem _ (mem-cons_of_mem _ (mem-cons_of_mem _ (mem-cons_self)))))))))))

-- The server and the databases.
abbrev others : List Component
others = ready "server" ∷ ready postgres_name ∷ ready mongo_name ∷ []

merge_keeps :
    (base own : Schema) (key : String)
    → is_in key base.properties ≡ true
    → is_in key (bases.merge_schemas base own).properties ≡ true
merge_keeps base own key h = h

abbrev round : List Component
round = map component reversed

-- After two rounds no handler is built.
handler_waits :
    is_in "handler-rides-accept" (construct bases (others ++ (round ++ round)) []) ≡ false
unfolding construct static_config find component
handler_waits = refl

construct-completes_example :
    is_in "handler-rides-accept" (construct bases (others ++ (round ++ (round ++ round))) []) ≡ true
unfolding construct static_config find component
construct-completes_example =
    construct-completes bases merge_keeps refl others round round round [] refl refl refl refl refl
      reversed-tried reversed-tried reversed-tried handler_rides_accept
