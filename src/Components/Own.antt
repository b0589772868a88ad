-- ===== src/Components/Own.antt =====
-- The components that src/main.cpp adds to userver's: the names, what each constructor finds and the
-- schema of its section in configs/static_config.yaml (the handlers, the storage, the middleware).
use taxi_lab.Base.{Bool, false, List, [], ◌∷◌, ◌++◌, String}

pub record Schema : Type 0 where
  pub description : String
  pub additional_properties : Bool
  pub properties : List String

-- userver's base classes: their schemas, MergeSchemas, and what their constructors find besides the
-- middlewares that the configuration appends.
pub record Bases : Type 0 where
  pub handler : Schema
  pub loggable : Schema
  pub middleware : Schema
  pub merge_schemas : Schema → Schema → Schema
  pub handler_finds : List String
  pub loggable_finds : List String
  pub middleware_finds : List String

-- A component's name, the names that its constructor finds, those of its base class included, and its
-- schema.
pub record Component : Type 0 where
  pub name : String
  pub finds : Bases → List String
  pub schema : Bases → Schema

-- A schema without properties of its own.
abbrev plain : String → Schema
plain description = record {
  description = description;
  additional_properties = false;
  properties = [];
}

abbrev pub postgres_name : String
postgres_name = "postgres-db"

abbrev pub mongo_name : String
mongo_name = "mongo-db"

abbrev pub taxi_storage_name : String
taxi_storage_name = "taxi-storage"

abbrev taxi_storage_finds : Bases → List String
taxi_storage_finds bases = bases.loggable_finds ++ postgres_name ∷ []

abbrev pub taxi_storage_schema : Bases → Schema
taxi_storage_schema bases =
    bases.merge_schemas bases.loggable (plain "PostgreSQL-backed taxi storage component")

abbrev pub auth_middleware_name : String
auth_middleware_name = "auth-middleware"

abbrev auth_middleware_finds : Bases → List String
auth_middleware_finds bases = bases.middleware_finds ++ taxi_storage_name ∷ []

-- `append` of default-server-middleware-pipeline-builder: the middlewares of every handler.
abbrev appended_middlewares : List String
appended_middlewares = auth_middleware_name ∷ []

-- HttpHandlerBase(config, context) finds the factories of the handler's middlewares.
abbrev pub handler_base_finds : Bases → List String
handler_base_finds bases = bases.handler_finds ++ appended_middlewares

abbrev users_create_name : String
users_create_name = "handler-users-create"

abbrev users_create_finds : Bases → List String
users_create_finds bases = handler_base_finds bases ++ taxi_storage_name ∷ []

abbrev users_create_schema : Bases → Schema
users_create_schema bases = bases.merge_schemas bases.handler (plain "create user handler")

abbrev users_get_name : String
users_get_name = "handler-users-get"

abbrev users_get_finds : Bases → List String
users_get_finds bases = handler_base_finds bases ++ taxi_storage_name ∷ []

abbrev users_get_schema : Bases → Schema
users_get_schema bases = bases.merge_schemas bases.handler (plain "get users handler")

abbrev auth_login_name : String
auth_login_name = "handler-auth-login"

abbrev auth_login_finds : Bases → List String
auth_login_finds bases = handler_base_finds bases ++ taxi_storage_name ∷ []

abbrev auth_login_schema : Bases → Schema
auth_login_schema bases = bases.merge_schemas bases.handler (plain "auth login handler")

abbrev drivers_create_name : String
drivers_create_name = "handler-drivers-create"

abbrev drivers_create_finds : Bases → List String
drivers_create_finds bases = handler_base_finds bases ++ taxi_storage_name ∷ []

abbrev drivers_create_schema : Bases → Schema
drivers_create_schema bases = bases.merge_schemas bases.handler (plain "create driver handler")

abbrev rides_create_name : String
rides_create_name = "handler-rides-create"

abbrev rides_create_finds : Bases → List String
rides_create_finds bases = handler_base_finds bases ++ taxi_storage_name ∷ []

abbrev rides_create_schema : Bases → Schema
rides_create_schema bases = bases.merge_schemas bases.handler (plain "create ride handler")

abbrev rides_get_name : String
rides_get_name = "handler-rides-get"

abbrev rides_get_finds : Bases → List String
rides_get_finds bases = handler_base_finds bases ++ taxi_storage_name ∷ []

abbrev rides_get_schema : Bases → Schema
rides_get_schema bases = bases.merge_schemas bases.handler (plain "get rides handler")

abbrev rides_accept_name : String
rides_accept_name = "handler-rides-accept"

abbrev rides_accept_finds : Bases → List String
rides_accept_finds bases = handler_base_finds bases ++ taxi_storage_name ∷ []

abbrev rides_accept_schema : Bases → Schema
rides_accept_schema bases = bases.merge_schemas bases.handler (plain "accept ride handler")

abbrev rides_complete_name : String
rides_complete_name = "handler-rides-complete"

abbrev rides_complete_finds : Bases → List String
rides_complete_finds bases = handler_base_finds bases ++ taxi_storage_name ∷ []

abbrev rides_complete_schema : Bases → Schema
rides_complete_schema bases = bases.merge_schemas bases.handler (plain "complete ride handler")

abbrev mongo_users_create_name : String
mongo_users_create_name = "handler-mongo-users-create"

abbrev mongo_users_create_finds : Bases → List String
mongo_users_create_finds bases = handler_base_finds bases ++ mongo_name ∷ []

abbrev mongo_users_create_schema : Bases → Schema
mongo_users_create_schema bases = bases.handler

abbrev mongo_users_get_name : String
mongo_users_get_name = "handler-mongo-users-get"

abbrev mongo_users_get_finds : Bases → List String
mongo_users_get_finds bases = handler_base_finds bases ++ mongo_name ∷ []

abbrev mongo_users_get_schema : Bases → Schema
mongo_users_get_schema bases = bases.handler

pub data Own : Type 0 where
  taxi_storage auth_middleware : Own
  handler_users_create handler_users_get handler_auth_login handler_drivers_create
        handler_rides_create :
      Own
  handler_rides_get handler_rides_accept handler_rides_complete handler_mongo_users_create
        handler_mongo_users_get :
      Own

-- `.Append<…>()`
unfoldable pub component : Own → Component
component taxi_storage = record {
  name = taxi_storage_name;
  finds = taxi_storage_finds;
  schema = taxi_storage_schema;
}
component auth_middleware = record {
  name = auth_middleware_name;
  finds = auth_middleware_finds;
  schema = λ bases. bases.middleware;
}
component handler_users_create = record {
  name = users_create_name;
  finds = users_create_finds;
  schema = users_create_schema;
}
component handler_users_get = record {
  name = users_get_name;
  finds = users_get_finds;
  schema = users_get_schema;
}
component handler_auth_login = record {
  name = auth_login_name;
  finds = auth_login_finds;
  schema = auth_login_schema;
}
component handler_drivers_create = record {
  name = drivers_create_name;
  finds = drivers_create_finds;
  schema = drivers_create_schema;
}
component handler_rides_create = record {
  name = rides_create_name;
  finds = rides_create_finds;
  schema = rides_create_schema;
}
component handler_rides_get = record {
  name = rides_get_name;
  finds = rides_get_finds;
  schema = rides_get_schema;
}
component handler_rides_accept = record {
  name = rides_accept_name;
  finds = rides_accept_finds;
  schema = rides_accept_schema;
}
component handler_rides_complete = record {
  name = rides_complete_name;
  finds = rides_complete_finds;
  schema = rides_complete_schema;
}
component handler_mongo_users_create = record {
  name = mongo_users_create_name;
  finds = mongo_users_create_finds;
  schema = mongo_users_create_schema;
}
component handler_mongo_users_get = record {
  name = mongo_users_get_name;
  finds = mongo_users_get_finds;
  schema = mongo_users_get_schema;
}
