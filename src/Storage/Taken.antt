-- ===== src/Storage/Taken.antt =====
-- A ride that is no longer searching, under the methods of TaxiStorage (src/storage/taxi_storage.cpp).
use taxi_lab.Base.{
  ℤ, ℕ, int_eq, int_eq_iff, ◌<ℤ◌, ◌≤ℤ◌, ◌≡◌, ◌≢◌, refl, sym, ap, ◌∙◌, subst, ◌⊎◌, inl, inr, true,
  false, Option, none, some, List, [], ◌∷◌, String, ◌==◌, eq_ne, select, map, int_eq_of_lt,
  if◌then◌else◌, Result, ok, arith, Bool-cases,
}
use mathlib.Core.Option
use taxi_lab.Models.{Ride}
use taxi_lab.Database.Rows.{Database, RideRow, Row}
use taxi_lab.Database.Tables.{
  Falls, find_row, find_row_above, find_row-update_where, row_list, update_where,
}
use taxi_lab.Database.Rides.{
  ride_columns, select_ride_by_id, insert_ride, is_searching, is_accepted, accepted_by,
  completed_at_time,
}
use taxi_lab.Database.Inserts.{InsertsRide, insert_ride-InsertsRide}
use taxi_lab.Database.Invariant.{WellFormed, HasFallingIds, ride_id}
use taxi_lab.Storage.{
  get_ride_by_id, create_ride, accept_ride, complete_ride, is_foreign_key_violation,
}
use taxi_lab.Storage.Parse.{ride_of, parse_first, parse_ride, parse_ride-columns}
use taxi_lab.Storage.Fleet.Accept.{Accepts, accept_ride-Accepts, searching}
use taxi_lab.Storage.Fleet.Complete.{Completes, complete_ride-Completes}
use taxi_lab.Storage.WellFormed.{state_of_try}

-- The ride as it was once, or completed since.
abbrev pub IsLater : Ride → Ride → Type 0
IsLater ride later =
    (later ≡ record ride { status = later.status })
    × ((later.status ≡ ride.status) ⊎ (later.status ≡ "completed"))

-- The row of the ride in a table.
abbrev pub HasRide : Ride → Database → Type 0
HasRide ride db =
    (row : RideRow) × (find_row ride_id ride.id db.rides ≡ some row) × IsLater ride (ride_of row)

select_above :
    (j b : ℤ) (rows : List RideRow)
    → Falls ride_id b rows
    → b ≤ℤ j
    → select (λ r. int_eq r.id j) rows ≡ []
select_above j b [] f le = refl
select_above j b (r ∷ rows) (_, q, f) le =
    let lt : ride_id r <ℤ j = omega arith in
    rw (int_eq_of_lt r.id j lt) (select_above j (ride_id r) rows f (omega arith))

found_rows :
    (j b : ℤ) (rows : List RideRow)
    → Falls ride_id b rows
    → select (λ r. int_eq r.id j) rows ≡ row_list (λ r. true) (find_row ride_id j rows)
unfolding find_row
found_rows j b [] f = refl
found_rows j b (r ∷ rows) (_, q, f) = elim (Bool-cases (int_eq r.id j)) [
  | inl e ↦
      let same : r.id ≡ j = (int_eq_iff r.id j).0 e in
      rw (e, select_above j r.id rows f (rw same (omega arith)))
  | inr e ↦ rw e (found_rows j r.id rows f)
]

pub get_ride_by_id_lem :
    (j : ℤ) (db : Database)
    → HasFallingIds db
    → (get_ride_by_id j db).0 ≡ ok (Option.map ride_of (find_row ride_id j db.rides))
unfolding get_ride_by_id select_ride_by_id parse_first
get_ride_by_id_lem j db ids =
    rw (found_rows j _ db.rides ids.rides) (of (find_row ride_id j db.rides))
  where
    of :
        (o : Option RideRow)
        → parse_first parse_ride (map ride_columns (row_list (λ r. true) o))
          ≡ ok (Option.map ride_of o)
    of none = refl
    of (some r) = rw (parse_ride-columns r)

module _ (ride : Ride) (taken : ride.status ≢ "searching") where
  not_searching : (later : Ride) → IsLater ride later → (later.status == "searching") ≡ false
  not_searching later (same, inl s) =
      subst (λ t. (t == "searching") ≡ false) (sym s) (eq_ne ride.status "searching" taken)
  not_searching later (same, inr s) = subst (λ t. (t == "searching") ≡ false) (sym s) refl

  no_row : {o : Option RideRow} {row : RideRow} → o ≡ some row → o ≢ none
  no_row h k = cc

  differ :
      {o : Option RideRow} {row other : RideRow}
      → o ≡ some row
      → o ≡ some other
      → searching row ≡ false
      → searching other ≢ true
  differ h k a b = cc

  untouched : (r : ℤ) (row : RideRow) → IsLater ride (ride_of row) → is_searching r row ≡ false
  unfolding is_searching
  untouched r row later =
      let done : (row.status == "searching") ≡ false = not_searching (ride_of row) later in
      ground arith

  abbrev ended : Ride → Ride
  ended r = record r { status = "completed" }

  pub accept_ride-HasRide :
      (r d : ℤ) (db : Database)
      → HasFallingIds db
      → HasRide ride db
      → HasRide ride (accept_ride r d db).1
  accept_ride-HasRide r d db ids (row, found, later) =
      of (accept_ride r d db) (accept_ride-Accepts r d db ids)
    where
      of : (o : Result (Option Ride) × Database) → Accepts r d db o → HasRide ride o.1
      of o (Accepts.refused h) = (row, found, later)
      of o (Accepts.accepted x at s on) =
          let kept : is_searching r row ≡ false = untouched r row later in
          (
            row,
            find_row-update_where ride_id (is_searching r) (accepted_by d) ride.id db.rides
                  (λ q. refl)
                ∙ rw (found, kept),
            later,
          )

  pub complete_ride-HasRide :
      (now : ℕ) (r : ℤ) (db : Database)
      → WellFormed db
      → HasRide ride db
      → HasRide ride (complete_ride now r db).1
  complete_ride-HasRide now r db w (row, found, later) =
      of (complete_ride now r db) (complete_ride-Completes now r db w.ids w.driven)
    where
      changed :
          find_row ride_id ride.id (update_where (is_accepted r) (completed_at_time now) db.rides)
          ≡ Option.map
              (λ x. if is_accepted r x then completed_at_time now x else x)
              (find_row ride_id ride.id db.rides)
      changed =
          find_row-update_where ride_id (is_accepted r) (completed_at_time now) ride.id db.rides
            (λ q. refl)

      of : (o : Result (Option Ride) × Database) → Completes now r db o → HasRide ride o.1
      of o (Completes.refused h) = (row, found, later)
      of o (Completes.completed x d at s on) = elim (Bool-cases (is_accepted r row)) [
        | inl e ↦ (completed_at_time now row, changed ∙ rw (found, e), (ap ended later.0, inr refl))
        | inr e ↦ (row, changed ∙ rw (found, e), later)
      ]

  pub create_ride-HasRide :
      (now : ℕ) (passenger : ℤ) (pickup destination : String) (db : Database)
      → WellFormed db
      → HasRide ride db
      → HasRide ride (create_ride now passenger pickup destination db).1
  unfolding create_ride find_row
  create_ride-HasRide now passenger pickup destination db w (row, found, later) =
      rw
        (state_of_try is_foreign_key_violation none
          (insert_ride now passenger pickup destination db) (parse_first parse_ride))
        (of _ (insert_ride-InsertsRide now passenger pickup destination db))
    where
      of : (o : Result (List Row) × Database) → InsertsRide passenger db o → HasRide ride o.1
      of o InsertsRide.exhausted = (row, found, later)
      of o (InsertsRide.refused e) = (row, found, later)
      of o (InsertsRide.inserted r id p n s x) = elim (Bool-cases (int_eq r.id ride.id)) [
        | inl e ↦
            let free = find_row_above ride_id r.id _ db.rides w.ids.rides (rw id (omega arith)) in
            absurd (
              no_row found (
                subst (λ j. find_row ride_id j db.rides ≡ none) ((int_eq_iff r.id ride.id).0 e)
                  free))
        | inr e ↦ (row, rw e found, later)
      ]

  -- Nobody accepts it again.
  pub accept_ride-none :
      (d : ℤ) (db : Database)
      → HasFallingIds db
      → HasRide ride db
      → (accept_ride ride.id d db).0 ≡ ok none
  accept_ride-none d db ids (row, found, later) =
      of (accept_ride ride.id d db) (accept_ride-Accepts ride.id d db ids)
    where
      of : (o : Result (Option Ride) × Database) → Accepts ride.id d db o → o.0 ≡ ok none
      of o (Accepts.refused h) = refl
      of o (Accepts.accepted x at s on) =
          absurd (differ found at (not_searching (ride_of row) later) s)
