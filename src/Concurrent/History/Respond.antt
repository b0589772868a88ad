-- ===== src/Concurrent/History/Respond.antt =====
-- What a request leaves to other requests, and how it ends.
use taxi_lab.Base.{◌≡◌, List, String, Mem, ◌⊎◌, inl, inr}
use taxi_lab.Database.Rows.{Database}
use taxi_lab.Http.{Userver, HttpRequest, Moment, unauthorized, status_ok, new_response}
use taxi_lab.Service.{
  Route, post_users, get_users, post_auth_login, post_drivers, post_rides, get_rides,
  patch_rides_accept, patch_rides_complete, Call,
}
use taxi_lab.Handlers.Coherence.Users.{users_answer}
use taxi_lab.Concurrent.Task.{Steps}
use taxi_lab.Concurrent.Readers.{handle_request_steps}
use taxi_lab.Concurrent.Requests.{serve_steps, respond_steps}
use taxi_lab.Concurrent.History.{Extends, Meets, Meets-weaker}
use taxi_lab.Concurrent.History.Reads.{Outcome, Reads, handle_request-Meets}
use taxi_lab.Concurrent.History.Users.{users_get-Meets}
use taxi_lab.Concurrent.History.Rides.Get.{RidesReads, rides_get-Meets}
use taxi_lab.Concurrent.History.Writers.{Anything, LeavesLive, Everywhere-Meets, LeavesLive-writes}
use taxi_lab.Concurrent.Everywhere.{Does}
use taxi_lab.Concurrent.Everywhere.Writers.{
  users_create-Does, drivers_create-Does, rides_create-Does, rides_accept-Does, rides_complete-Does,
  auth_login-Does,
}

module _ (lib : Userver) where
  -- A request that reads answers from one of the databases, or the middleware refused it.
  unfoldable pub Answered : Route → Moment → HttpRequest → List Database → Outcome → Type 0
  Answered get_users moment request past o =
      (o.1.status ≡ unauthorized) ⊎ Reads (λ db. users_answer lib request db status_ok) past o
  Answered get_rides moment request past o =
      (o.1.status ≡ unauthorized) ⊎ RidesReads lib moment request status_ok past o
  Answered post_users moment request past o = Unit
  Answered post_auth_login moment request past o = Unit
  Answered post_drivers moment request past o = Unit
  Answered post_rides moment request past o = Unit
  Answered patch_rides_accept moment request past o = Unit
  Answered patch_rides_complete moment request past o = Unit

  pub Answered-more :
      (route : Route) (moment : Moment) (request : HttpRequest) (past later : List Database)
      (o : Outcome)
      → Extends past later
      → Answered route moment request past o
      → Answered route moment request later o
  unfolding Answered
  Answered-more get_users moment request past later o more (inl h) = inl h
  Answered-more get_users moment request past later o more (inr (db, was, is)) =
      inr (db, more db was, is)
  Answered-more get_rides moment request past later o more (inl h) = inl h
  Answered-more get_rides moment request past later o more (inr (limiter, (db, was, is))) =
      inr (limiter, (db, more db was, is))
  Answered-more post_users moment request past later o more h = tt
  Answered-more post_auth_login moment request past later o more h = tt
  Answered-more post_drivers moment request past later o more h = tt
  Answered-more post_rides moment request past later o more h = tt
  Answered-more patch_rides_accept moment request past later o more h = tt
  Answered-more patch_rides_complete moment request past later o more h = tt

  written :
      (Post : List Database → Outcome → Type 0) (m : Steps String) (request : HttpRequest)
      (past : List Database)
      → ((later : List Database) (o : Outcome) → Post later o)
      → Does (LeavesLive lib) m
      → Meets lib Post past (handle_request_steps m request new_response)
  written Post m request past any does =
      handle_request-Meets lib Post m request past new_response (λ later o _. any later o)
        (λ later more.
          Meets-weaker lib Anything Post (λ p o _. any p o) later _
            (Everywhere-Meets lib later _ (does.everywhere new_response)))

  pub respond-Meets :
      (call : Call) (past : List Database) (db : Database)
      → Mem db past
      → Meets lib (Answered call.route call.moment call.request) past (respond_steps lib call)
  unfolding respond_steps serve_steps Answered
  respond-Meets call past db was = of call.route
    where
      of :
          (route : Route)
          → Meets lib (Answered route call.moment call.request) past (
              handle_request_steps
                (serve_steps lib route call.moment call.request)
                call.request
                new_response)
      of get_users =
          handle_request-Meets lib _ _ call.request past new_response (λ later o. inl)
            (λ later more.
              Meets-weaker lib _ _ (λ p o. inr) later _
                (users_get-Meets lib call.moment call.request later new_response db (more db was)))
      of get_rides =
          handle_request-Meets lib _ _ call.request past new_response (λ later o. inl)
            (λ later more.
              Meets-weaker lib _ _ (λ p o. inr) later _
                (rides_get-Meets lib call.moment call.request later new_response db (more db was)))
      of post_users =
          written _ _ call.request past (λ later o. tt)
            (users_create-Does _ (LeavesLive-writes lib) lib call.moment call.request)
      of post_auth_login =
          written _ _ call.request past (λ later o. tt)
            (auth_login-Does _ (LeavesLive-writes lib) lib call.request)
      of post_drivers =
          written _ _ call.request past (λ later o. tt)
            (drivers_create-Does _ (LeavesLive-writes lib) lib call.request)
      of post_rides =
          written _ _ call.request past (λ later o. tt)
            (rides_create-Does _ (LeavesLive-writes lib) lib call.moment call.request)
      of patch_rides_accept =
          written _ _ call.request past (λ later o. tt)
            (rides_accept-Does _ (LeavesLive-writes lib) lib call.request)
      of patch_rides_complete =
          written _ _ call.request past (λ later o. tt)
            (rides_complete-Does _ (LeavesLive-writes lib) lib call.moment call.request)
