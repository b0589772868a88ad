-- ===== src/Handlers/Rules.antt =====
-- What holds after a step of a handler, from what holds after each of its outcomes.
use taxi_lab.Base.{
  Bool, true, false, Option, none, some, String, Result, ok, throws, if◌then◌else◌, proceed, ◌≡◌,
  refl,
}
use taxi_lab.Database.Rows.{Database}
use taxi_lab.Http.{Exchange, Handler}
use taxi_lab.Handlers.UsersGet.{or_cached}

-- The exchange with another database.
abbrev pub with_database : Exchange → Database → Exchange
with_database x db = record x {
  server = record x.server { storage = record x.server.storage { db = db } };
}

-- The exchange after `SetContentType("application/json")`.
abbrev pub as_json : Exchange → Exchange
as_json x = record x { response = record x.response { content_type = "application/json" } }

module _ (P : Exchange → Type 0) where
  pub proceed_keeps :
      {A : Type 0} (r : Result A) (x : Exchange) (f : A → Handler String)
      → P x
      → ((a : A) → P (f a x).1)
      → P (proceed (r, x) f).1
  proceed_keeps (ok a) x f h k = k a
  proceed_keeps (throws e) x f h k = h

  pub if_keeps :
      (b : Bool) (m n : Handler String) (x : Exchange)
      → P (m x).1
      → P (n x).1
      → P ((if b then m else n) x).1
  if_keeps true m n x h k = h
  if_keeps false m n x h k = k

  pub or_cached_keeps :
      (o : Option String) (compute : Handler String) (x : Exchange)
      → ((y : Exchange) → y.server ≡ x.server → P y)
      → P (compute x).1
      → P (or_cached compute o x).1
  or_cached_keeps none compute x h k = k
  or_cached_keeps (some body) compute x h k = h _ refl
