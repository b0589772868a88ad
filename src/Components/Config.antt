-- ===== src/Components/Config.antt =====
-- The sections of configs/static_config.yaml.
use taxi_lab.Base.{List, [], ◌∷◌, String}

-- The sections of `components`, each with its keys.
unfoldable pub static_config : List (String × List String)
static_config =
    ("default-server-middleware-pipeline-builder", "append" ∷ [])
    ∷ ("server", "listener" ∷ [])
    ∷ ("logging", "fs-task-processor" ∷ "loggers" ∷ [])
    ∷ ("dynamic-config", "defaults" ∷ [])
    ∷ ("testsuite-support", [])
    ∷ ("congestion-control", [])
    ∷ ("http-client", [])
    ∷ ("http-client-core", "load-enabled" ∷ "fs-task-processor" ∷ [])
    ∷ ("dns-client", "fs-task-processor" ∷ [])
    ∷ ("tests-control", "load-enabled" ∷ "path" ∷ "method" ∷ "task_processor" ∷ [])
    ∷ (
      "handler-ping",
      "path" ∷ "method" ∷ "task_processor" ∷ "throttling_enabled" ∷ "url_trailing_slash" ∷ [],
    )
    ∷ (
      "postgres-db",
      "dbconnection" ∷ "blocking_task_processor" ∷ "dns_resolver" ∷ "sync-start" ∷ [],
    )
    ∷ ("mongo-db", "dbconnection" ∷ "dns_resolver" ∷ [])
    ∷ ("taxi-storage", [])
    ∷ ("handler-users-create", "path" ∷ "method" ∷ "task_processor" ∷ [])
    ∷ ("handler-users-get", "path" ∷ "method" ∷ "task_processor" ∷ [])
    ∷ ("handler-auth-login", "path" ∷ "method" ∷ "task_processor" ∷ [])
    ∷ ("handler-drivers-create", "path" ∷ "method" ∷ "task_processor" ∷ [])
    ∷ ("handler-rides-create", "path" ∷ "method" ∷ "task_processor" ∷ [])
    ∷ ("handler-rides-get", "path" ∷ "method" ∷ "task_processor" ∷ [])
    ∷ ("handler-rides-accept", "path" ∷ "method" ∷ "task_processor" ∷ [])
    ∷ ("handler-rides-complete", "path" ∷ "method" ∷ "task_processor" ∷ [])
    ∷ ("handler-mongo-users-create", "path" ∷ "method" ∷ "task_processor" ∷ [])
    ∷ ("handler-mongo-users-get", "path" ∷ "method" ∷ "task_processor" ∷ [])
    ∷ ("auth-middleware", [])
    ∷ []
