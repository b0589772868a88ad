-- ===== src/Http.antt =====
-- Requests, responses and JSON as the handlers use them, and the state that they share. userver
-- itself is a parameter: `Userver` has what the handlers call of it.
use taxi_lab.Base.{ℤ, ℕ, List, [], ◌∷◌, String, Result, ok, Action, pure, ◌>>◌, assign}
use taxi_lab.Database.Rows.{Database}
use taxi_lab.Storage.{TaxiStorage, on_db}
use taxi_lab.Performance.Cache.{ResponseCache}
use taxi_lab.Performance.Limiter.{RateLimiter}

pub data HttpStatus : Type 0 where
  status_ok created bad_request unauthorized not_found conflict too_many_requests : HttpStatus
  internal_server_error : HttpStatus

-- GetRequestPath, GetArg, GetPathArg, GetHeader, RequestBody: a missing argument or header is empty.
pub record HttpRequest : Type 0 where
  pub path : String
  pub arg : String → String
  pub path_arg : String → String
  pub header : String → String
  pub body : String

pub record HttpResponse : Type 0 where
  pub status : HttpStatus
  pub content_type : String
  pub headers : List (String × String)
  pub body : String

-- A response before the handler sets anything.
abbrev pub new_response : HttpResponse
new_response = record { status = status_ok; content_type = ""; headers = []; body = "" }

-- What a ValueBuilder builds here: an object of numbers and texts, or an array of such objects.
pub data Scalar : Type 0 where
  number : ℤ → Scalar
  text : String → Scalar

abbrev pub Object : Type 0
Object = List (String × Scalar)

pub data Document : Type 0 where
  object : Object → Document
  array : List Object → Document

-- What the handlers use of userver's JSON (a parse and its members, which may throw; a print), and
-- SQL's `lower` in the database server's locale.
pub record Userver : Type 1 where
  pub Value : Type 0
  pub from_string : String → Result Value
  pub int_member : Value → String → Result ℤ
  pub string_member : Value → String → Result String
  pub print : Document → String
  pub lower : String → String

-- The times that one request may read: NOW() of its transaction, the system clock in seconds, and the
-- steady clock at its read of the cache and at its write.
pub record Moment : Type 0 where
  pub now : ℕ
  pub system : ℕ
  pub read : ℕ
  pub write : ℕ

-- What the handlers share, and the response that one of them fills.
pub record Server : Type 0 where
  pub storage : TaxiStorage
  pub cache : ResponseCache
  pub limiter : RateLimiter

pub record Exchange : Type 0 where
  pub server : Server
  pub open server use *
  pub response : HttpResponse

abbrev pub Handler : Type 0 → Type 0
Handler A = Action Exchange A

abbrev pub set_status : HttpStatus → Handler (Unit {0})
set_status status x = (ok tt, record x { response = record x.response { status = status } })

abbrev pub set_content_type : String → Handler (Unit {0})
set_content_type t x = (ok tt, record x { response = record x.response { content_type = t } })

abbrev pub set_header : String → String → Handler (Unit {0})
set_header name value x = (
  ok tt,
  record x { response = record x.response { headers = assign name value x.response.headers } },
)

-- `storage_.method(…)`
abbrev pub with_storage : {A : Type 0} → Action TaxiStorage A → Handler A
with_storage m x =
    let (r, s) = m x.server.storage in (r, record x { server = record x.server { storage = s } })

abbrev pub with_db : {A : Type 0} → Action Database A → Handler A
with_db m = with_storage (on_db m)

-- `performance::GetCache().method(…)`
abbrev pub with_cache : {A : Type 0} → (ResponseCache → A × ResponseCache) → Handler A
with_cache m x =
    let (a, c) = m x.server.cache in (ok a, record x { server = record x.server { cache = c } })

-- `performance::GetRateLimiter().method(…)`
abbrev pub with_limiter : {A : Type 0} → (RateLimiter → A × RateLimiter) → Handler A
with_limiter m x =
    let (a, l) = m x.server.limiter in (ok a, record x { server = record x.server { limiter = l } })

module _ (lib : Userver) where
  -- `error["error"] = message; return ToString(error)`
  abbrev pub error_body : String → String
  error_body message = lib.print (object (("error", text message) ∷ []))

  -- The status and the body of a refusal.
  abbrev pub refuse : HttpStatus → String → Handler String
  refuse status message = do set_status status; pure (error_body message)
