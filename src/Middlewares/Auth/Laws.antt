-- ===== src/Middlewares/Auth/Laws.antt =====
-- Whom the middleware lets through.
use Prim.Native.String.len
use Prim.Native.String.{String, len}
use taxi_lab.Base.{
  ◌<◌, ◌≡◌, ◌≢◌, refl, sym, ap, ◌∙◌, subst, true, false, ◌+s◌, starts_with, ok, arith, Bool-cases,
  ◌==◌, eq_iff, if◌then◌else◌, inl, inr, Result,
}
use text.Mathlib.TextPositions.{len_utf8-pos, len-append, slice-append_right, starts_with-append}
use text.Mathlib.TextLemmas.{append-nil}
use text.Mathlib.TextEquality.{starts_with_iff}
use taxi_lab.Storage.{TaxiStorage, is_token_valid}
use taxi_lab.Http.{HttpRequest, Exchange, Handler, unauthorized}
use taxi_lab.Middlewares.Auth.{
  is_public_request, lacks_bearer, bearer_token, bearer_prefix, handle_request,
}

-- The paths that need no token.
pub data IsPublicPath : String → Type 0 where
  ping : IsPublicPath "/ping"
  users : IsPublicPath "/users"
  auth_login : IsPublicPath "/auth/login"
  mongo_users : IsPublicPath "/mongo/users"
  below_tests : (rest : String) → IsPublicPath ("/tests/" +s rest)

-- A public path, or a header with the bearer scheme and a valid token.
pub data Admits (request : HttpRequest) (storage : TaxiStorage) : Type 0 where
  public_path : IsPublicPath request.path → Admits request storage
  bearer :
      (token : String)
      → request.header "Authorization" ≡ bearer_prefix +s token
      → token ≢ ""
      → is_token_valid token storage ≡ true
      → Admits request storage

is_path :
    (path : String) {known : String}
    → (path == known) ≡ true
    → IsPublicPath known
    → IsPublicPath path
is_path path h known_is_public = subst IsPublicPath (sym ((eq_iff path _).0 h)) known_is_public

public_only : (request : HttpRequest) → is_public_request request ≡ true → IsPublicPath request.path
unfolding is_public_request
public_only request h = elim (Bool-cases (request.path == "/ping")) [
  | inl e ↦ is_path _ e ping
  | inr e ↦ elim (Bool-cases (request.path == "/users")) [
    | inl k ↦ is_path _ k users
    | inr k ↦ elim (Bool-cases (request.path == "/auth/login")) [
      | inl l ↦ is_path _ l auth_login
      | inr l ↦ elim (Bool-cases (request.path == "/mongo/users")) [
        | inl m ↦ is_path _ m mongo_users
        | inr m ↦
            let (rest, under) = (starts_with_iff request.path "/tests/").0 (ground arith) in
            subst IsPublicPath under (below_tests rest)
      ]
    ]
  ]
]

is_public :
    (path : String)
    → IsPublicPath path
    → (if path == "/ping"
        then true
        else if path == "/users"
        then true
        else if path == "/auth/login"
        then true
        else if path == "/mongo/users"
        then true
        else if starts_with path "/tests/"
        then true
        else false)
      ≡ true
is_public path ping = refl
is_public path users = refl
is_public path auth_login = refl
is_public path mongo_users = refl
is_public path (below_tests rest) = rw (starts_with-append "/tests/" rest) (ground arith)

public_passes :
    (request : HttpRequest) → IsPublicPath request.path → is_public_request request ≡ true
unfolding is_public_request
public_passes request h = is_public request.path h

bearer_token_lem : (token : String) → bearer_token (bearer_prefix +s token) ≡ token
unfolding bearer_token
bearer_token_lem token =
    rw (len-append bearer_prefix token) (slice-append_right bearer_prefix token)

len-pos : (token : String) → token ≢ "" → 0 < len token
len-pos String.[] h = absurd (h refl)
len-pos (String.◌∷◌ c s) h = let (k, e) = len_utf8-pos c in rw (len.cons c s, e) (omega arith)

has_bearer : (token : String) → token ≢ "" → lacks_bearer (bearer_prefix +s token) ≡ false
unfolding lacks_bearer
has_bearer token h =
    rw (starts_with-append bearer_prefix token, len-append bearer_prefix token)
      (ground (arith, len-pos token h))

no_bearer_alone : lacks_bearer bearer_prefix ≢ false
unfolding lacks_bearer
no_bearer_alone h = cc

lacks_no_bearer :
    (header : String)
    → lacks_bearer header ≡ false
    → (token : String) × (header ≡ bearer_prefix +s token) × (token ≢ "")
unfolding lacks_bearer
lacks_no_bearer header h =
    let starts : starts_with header bearer_prefix ≡ true = ground arith in
    let (token, e) = (starts_with_iff header bearer_prefix).0 starts in
    (
      token,
      sym e,
      λ k.
          let bare : header ≡ bearer_prefix =
            sym e ∙ ap (λ t. bearer_prefix +s t) k ∙ append-nil bearer_prefix in
          no_bearer_alone (subst (λ t. lacks_bearer t ≡ false) bare h),
    )

module _ (next : Handler String) (request : HttpRequest) (x : Exchange) where
  passes : Admits request x.server.storage → handle_request next request x ≡ next x
  unfolding handle_request
  passes (public_path h) = rw (public_passes request h)
  passes (bearer token e ne valid) = elim (Bool-cases (is_public_request request)) [
    | inl p ↦ rw p
    | inr p ↦ rw (p, e, has_bearer token ne, bearer_token_lem token, valid)
  ]

  -- What a refusal leaves: status 401, and the server as it was.
  abbrev pub IsRejected : Result String × Exchange → Type 0
  IsRejected o =
      ((message : String) × (o.0 ≡ ok message))
      × (o.1.response.status ≡ unauthorized)
      × (o.1.server ≡ x.server)

  rejects : ¬ Admits request x.server.storage → IsRejected (handle_request next request x)
  unfolding handle_request
  rejects denied = elim (Bool-cases (is_public_request request)) [
    | inl p ↦ absurd (denied (public_path (public_only request p)))
    | inr p ↦ elim (Bool-cases (lacks_bearer (request.header "Authorization"))) [
      | inl l ↦ rw (p, l) ((_, refl), refl, refl)
      | inr l ↦
          elim (Bool-cases
            (is_token_valid (bearer_token (request.header "Authorization")) x.server.storage)) [
              | inl v ↦
                  let (token, e, ne) = lacks_no_bearer _ l in
                  let valid : is_token_valid token x.server.storage ≡ true =
                    subst (λ t. is_token_valid t x.server.storage ≡ true)
                      (ap bearer_token e ∙ bearer_token_lem token) v in
                  absurd (denied (bearer token e ne valid))
              | inr v ↦ rw (p, l, v) ((_, refl), refl, refl)
            ]
    ]
  ]

  -- The middleware behaves as the next handler for the paths /ping, /users, /auth/login,
  -- /mongo/users and those under /tests/, and for a header of "Bearer " and a valid token that is
  -- not empty; in every other case it answers 401 and leaves the server as it was.
  pub handle_request_lem :
      (Admits request x.server.storage → handle_request next request x ≡ next x)
      × (¬ Admits request x.server.storage → IsRejected (handle_request next request x))
  handle_request_lem = (passes, rejects)
