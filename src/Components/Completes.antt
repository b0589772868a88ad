-- ===== src/Components/Completes.antt =====
-- Three rounds of attempts build the components of src/main.cpp.
use taxi_lab.Base.{◌≡◌, refl, true, List, [], ◌∷◌, ◌++◌, String, find, Mem, arith}
use taxi_lab.Components.Config.{static_config}
use taxi_lab.Components.Own.{
  Schema, Bases, Component, Own, component, postgres_name, mongo_name, taxi_storage_name,
  auth_middleware_name, handler_base_finds, taxi_storage_schema, taxi_storage, auth_middleware,
  handler_users_create, handler_users_get, handler_auth_login, handler_drivers_create,
  handler_rides_create, handler_rides_get, handler_rides_accept, handler_rides_complete,
  handler_mongo_users_create, handler_mongo_users_get,
}
use taxi_lab.Components.Start.{is_in, are_in, accepts, validates, construct}
use taxi_lab.Components.Rounds.{
  is_in-construct, are_in-construct, construct-append, are_in-append, construct-builds,
}

-- What the base classes find, and the databases, are built.
record IsReady (bases : Bases) (built : List String) : Type 0 where
  handler : are_in bases.handler_finds built ≡ true
  loggable : are_in bases.loggable_finds built ≡ true
  middleware : are_in bases.middleware_finds built ≡ true
  postgres : is_in postgres_name built ≡ true
  mongo : is_in mongo_name built ≡ true

module _ (bases : Bases) where
  IsReady-construct :
      (cs : List Component) (built : List String)
      → IsReady bases built
      → IsReady bases (construct bases cs built)
  IsReady-construct cs built ready = record {
    handler = are_in-construct bases bases.handler_finds cs built ready.handler;
    loggable = are_in-construct bases bases.loggable_finds cs built ready.loggable;
    middleware = are_in-construct bases bases.middleware_finds cs built ready.middleware;
    postgres = is_in-construct bases postgres_name cs built ready.postgres;
    mongo = is_in-construct bases mongo_name cs built ready.mongo;
  }

  storage_finds :
      (built : List String)
      → IsReady bases built
      → are_in ((component taxi_storage).finds bases) built ≡ true
  unfolding component
  storage_finds built ready =
      are_in-append bases bases.loggable_finds _ built ready.loggable (rw ready.postgres refl)

  middleware_finds_ready :
      (built : List String)
      → IsReady bases built
      → is_in taxi_storage_name built ≡ true
      → are_in ((component auth_middleware).finds bases) built ≡ true
  unfolding component
  middleware_finds_ready built ready storage =
      are_in-append bases bases.middleware_finds _ built ready.middleware (rw storage refl)

-- The keys of a handler's section.
abbrev pub handler_keys : List String
handler_keys = "path" ∷ "method" ∷ "task_processor" ∷ []

module _ (bases : Bases)
    (merge_keeps : (base own : Schema) (key : String)
      → is_in key base.properties ≡ true
      → is_in key (bases.merge_schemas base own).properties ≡ true) where
  merge_keeps_all :
      (base own : Schema) (keys : List String)
      → are_in keys base.properties ≡ true
      → are_in keys (bases.merge_schemas base own).properties ≡ true
  merge_keeps_all base own [] h = refl
  merge_keeps_all base own (key ∷ keys) h =
      let one : is_in key base.properties ≡ true = ground (arith, h) in
      let rest : are_in keys base.properties ≡ true = ground (arith, h) in
      rw (merge_keeps base own key one, merge_keeps_all base own keys rest) refl

  accepts_if :
      (schema : Schema) (keys : List String)
      → are_in keys schema.properties ≡ true
      → accepts schema keys ≡ true
  accepts_if schema keys h = ground (arith, h)

  module _ (has_keys : are_in handler_keys bases.handler.properties ≡ true) where
    merged_accepts :
        (own : Schema) → accepts (bases.merge_schemas bases.handler own) handler_keys ≡ true
    merged_accepts own =
        accepts_if (bases.merge_schemas bases.handler own) handler_keys
          (merge_keeps_all bases.handler own handler_keys has_keys)

    component-validates :
        (o : Own)
        → validates ((component o).schema bases) (find (component o).name static_config) ≡ true
    unfolding component static_config find
    component-validates taxi_storage = accepts_if (taxi_storage_schema bases) [] refl
    component-validates auth_middleware = accepts_if bases.middleware [] refl
    component-validates handler_users_create = merged_accepts _
    component-validates handler_users_get = merged_accepts _
    component-validates handler_auth_login = merged_accepts _
    component-validates handler_drivers_create = merged_accepts _
    component-validates handler_rides_create = merged_accepts _
    component-validates handler_rides_get = merged_accepts _
    component-validates handler_rides_accept = merged_accepts _
    component-validates handler_rides_complete = merged_accepts _
    component-validates handler_mongo_users_create = accepts_if bases.handler handler_keys has_keys
    component-validates handler_mongo_users_get = accepts_if bases.handler handler_keys has_keys

    -- A component of which all that its constructor finds is built is there after a round.
    builds :
        (round : List Component) (built : List String) (o : Own)
        → Mem (component o) round
        → are_in ((component o).finds bases) built ≡ true
        → is_in (component o).name (construct bases round built) ≡ true
    builds round built o tried ready =
        construct-builds bases (component o) round built tried (component-validates o) ready

    finds_ready :
        (built : List String)
        → IsReady bases built
        → is_in taxi_storage_name built ≡ true
        → is_in auth_middleware_name built ≡ true
        → (o : Own) → are_in ((component o).finds bases) built ≡ true
    unfolding component
    finds_ready built ready storage middleware = of
      where
        base : are_in (handler_base_finds bases) built ≡ true
        base = are_in-append bases bases.handler_finds _ built ready.handler (rw middleware refl)

        on_storage : are_in (handler_base_finds bases ++ taxi_storage_name ∷ []) built ≡ true
        on_storage = are_in-append bases (handler_base_finds bases) _ built base (rw storage refl)

        on_mongo : are_in (handler_base_finds bases ++ mongo_name ∷ []) built ≡ true
        on_mongo = are_in-append bases (handler_base_finds bases) _ built base (rw ready.mongo refl)

        of : (o : Own) → are_in ((component o).finds bases) built ≡ true
        of taxi_storage = storage_finds bases built ready
        of auth_middleware = middleware_finds_ready bases built ready storage
        of handler_users_create = on_storage
        of handler_users_get = on_storage
        of handler_auth_login = on_storage
        of handler_drivers_create = on_storage
        of handler_rides_create = on_storage
        of handler_rides_get = on_storage
        of handler_rides_accept = on_storage
        of handler_rides_complete = on_storage
        of handler_mongo_users_create = on_mongo
        of handler_mongo_users_get = on_mongo

    -- If the schema of handlers has the keys path, method and task_processor, a merged schema has
    -- what its base has, and what the base classes find and the components of both databases are
    -- built after some attempts, then three further rounds, each with an attempt at every component
    -- of the program in whatever order, build them all: the storage, then the middleware, which
    -- every handler finds, then the handlers, so no component waits for ever.
    pub construct-completes :
        (before second third fourth : List Component) (built : List String)
        → are_in bases.handler_finds (construct bases before built) ≡ true
        → are_in bases.loggable_finds (construct bases before built) ≡ true
        → are_in bases.middleware_finds (construct bases before built) ≡ true
        → is_in postgres_name (construct bases before built) ≡ true
        → is_in mongo_name (construct bases before built) ≡ true
        → ((o : Own) → Mem (component o) second)
        → ((o : Own) → Mem (component o) third)
        → ((o : Own) → Mem (component o) fourth)
        → (o : Own)
        → is_in (component o).name (construct bases (before ++ (second ++ (third ++ fourth))) built)
          ≡ true
    unfolding component
    construct-completes before second third fourth built handlers loggables middlewares postgres
          mongo in_second in_third in_fourth o =
        let one = construct bases before built in
        let two = construct bases second one in
        let three = construct bases third two in
        let ready : IsReady bases one = record {
          handler = handlers;
          loggable = loggables;
          middleware = middlewares;
          postgres = postgres;
          mongo = mongo;
        } in
        let ready_two = IsReady-construct bases second one ready in
        let storage =
          builds second one taxi_storage (in_second taxi_storage) (storage_finds bases one ready) in
        let middleware =
          builds third two auth_middleware (in_third auth_middleware)
            (middleware_finds_ready bases two ready_two storage) in
        rw
          (
            construct-append bases before (second ++ (third ++ fourth)) built,
            construct-append bases second (third ++ fourth) one,
            construct-append bases third fourth two,
          )
          (builds fourth three o (in_fourth o) (
            finds_ready three (IsReady-construct bases third two ready_two)
              (is_in-construct bases taxi_storage_name third two storage) middleware o))
