-- ===== src/Concurrent/Tokens.antt =====
-- The tokens of TaxiStorage (src/storage/taxi_storage.cpp) while requests arrive and take turns in any order.
use taxi_lab.Base.{
  ◌≡◌, refl, arith, ℕ, suc, ◌+◌, ◌≤◌, ℤ, Bool, true, false, List, [], length, some, String, ok,
  ◌||◌, ◌==◌,
}
use taxi_lab.Database.Rows.{Database}
use taxi_lab.Storage.{TaxiStorage, issue_token, is_token_valid, make_token}
use taxi_lab.Storage.Tokens.Issue.{
  HasOldTokens, HasTokensBelow, issue_token-HasOldTokens, issue_token_fresh,
  issue_token-is_token_valid, issued,
}
use taxi_lab.Http.{Userver, Server}
use taxi_lab.Concurrent.World.{idle, Event, run_events}
use taxi_lab.Concurrent.Everywhere.{HoldsOfWrites, HoldsOfReads}
use taxi_lab.Concurrent.Everywhere.Run.{Counts, run_events-keeps}

module _ (P : ℕ → TaxiStorage → Type 0)
    (later : (n : ℕ) (t : TaxiStorage) (db : Database) → P n t → P (suc n) (record t { db = db }))
    (issues : (user : ℤ) (n : ℕ) (t : TaxiStorage) → P n t → P (suc n) (issue_token user t).1)
    (lib : Userver) where
  writes : HoldsOfWrites (Counts P)
  writes = record {
    creates_user = λ now a b c n s h. later n s.storage _ h;
    creates_driver = λ user a b c n s h. later n s.storage _ h;
    creates_ride = λ now user a b n s h. later n s.storage _ h;
    accepts = λ ride driver n s h. later n s.storage _ h;
    completes = λ now ride n s h. later n s.storage _ h;
    finds_user = λ login n s h. later n s.storage _ h;
    issues = λ user n s h. issues user n s.storage h;
    invalidates = λ p n s h. later n s.storage s.storage.db h;
  }

  reads : HoldsOfReads (Counts P)
  reads = record {
    finds_user = λ login n s h. later n s.storage _ h;
    finds_users = λ lower mask n s h. later n s.storage _ h;
    finds_rides = λ user n s h. later n s.storage _ h;
    finds_active = λ n s h. later n s.storage _ h;
    gets = λ k now n s h. later n s.storage s.storage.db h;
    sets = λ k v ttl now n s h. later n s.storage s.storage.db h;
    checks = λ k limit window now n s h. later n s.storage s.storage.db h;
    looks = λ n s h. later n s.storage s.storage.db h;
  }

  tokens_keep :
      (before after : List Event) (start : Server) (n : ℕ)
      → P n (run_events lib before (idle start)).server.storage
      → P
          (n + length after)
          (run_events lib after (run_events lib before (idle start))).server.storage
  tokens_keep = run_events-keeps P (λ n t. later n t t.db) writes reads lib

or_true : (b : Bool) → (b || true) ≡ true
or_true true = refl
or_true false = refl

still_valid :
    (token : String) (user : ℤ) (t : TaxiStorage)
    → is_token_valid token t ≡ true
    → is_token_valid token (issue_token user t).1 ≡ true
still_valid token user t h =
    let (_, valid) =
      issue_token-is_token_valid user t (make_token user t.next_token_id) (issued user t) in
    rw (valid token, h) (or_true (make_token user t.next_token_id == token))

-- From a server that works on nothing, once any events have made a token valid or left it valid, it
-- stays valid in whatever order further requests arrive and take turns, one access at a time.
pub run_events-is_token_valid :
    (lib : Userver) (before after : List Event) (start : Server) (token : String)
    → is_token_valid token (run_events lib before (idle start)).server.storage ≡ true
    → is_token_valid token
        (run_events lib after (run_events lib before (idle start))).server.storage
      ≡ true
unfolding is_token_valid
run_events-is_token_valid lib before after start token h =
    tokens_keep (λ n t. is_token_valid token t ≡ true) (λ n t db k. k)
      (λ user n t k. still_valid token user t k) lib before after start 0 h

-- While the counter stays within an int.
abbrev Below : ℕ → TaxiStorage → Type 0
Below n t = n ≤ 2147483647 → HasTokensBelow n t

later-Below :
    (n : ℕ) (t : TaxiStorage) (db : Database) → Below n t → Below (suc n) (record t { db = db })
later-Below n t db h le =
    let (old, below) = h (omega arith) in
    (record { next = old.next; counter = old.counter; old = old.old }, omega arith)

issue_token-Below :
    (user : ℤ) (n : ℕ) (t : TaxiStorage) → Below n t → Below (suc n) (issue_token user t).1
issue_token-Below user n t h le =
    let (old, below) = h (omega arith) in
    let (next, same) = issue_token-HasOldTokens user t old (omega arith) in (next, omega arith)

-- If at the start every token was made with an earlier counter, and the counter and the number of
-- arrivals and turns together stay within an int, then after them, in whatever order, the token
-- that Login makes under its lock is not valid already.
pub run_events-issue_token_fresh :
    (lib : Userver) (events : List Event) (start : Server) (h : HasOldTokens start.storage)
    → h.next + length events ≤ 2147483647
    → (user : ℤ) (token : String)
    → (issue_token user (run_events lib events (idle start)).server.storage).0 ≡ ok (some token)
    → is_token_valid token (run_events lib events (idle start)).server.storage ≡ false
unfolding run_events
run_events-issue_token_fresh lib events start h le user token given =
    let (old, below) =
      tokens_keep Below later-Below issue_token-Below lib [] events start h.next
        (λ _. (h, omega arith)) le in
    issue_token_fresh user _ token old given
