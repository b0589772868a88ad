-- ===== src/Storage/WellFormed/Rides.antt =====
-- AcceptRide and CompleteRide, and the invariant of the database.
use taxi_lab.Base.{
  ℤ, ℕ, ◌+◌, int_eq, int_eq_iff, ◌≡◌, refl, ap, ◌∙◌, Bool, true, false, ◌&&◌, Option, none, some,
  List, [], ◌∷◌, ◌==◌, eq_iff, Result, arith, Bool-cases, inl, inr, if◌then◌else◌,
}
use mathlib.Core.Option
use taxi_lab.Models.{Ride}
use taxi_lab.Database.Rows.{Database, DriverRow, RideRow}
use taxi_lab.Database.Tables.{
  All, Falls-update_where, count_where, count_where-update_where, find_row, find_row-update_where,
  find_row-id, row_test, update_where,
}
use taxi_lab.Database.Drivers.{with_status}
use taxi_lab.Database.Rides.{
  is_searching, is_online, accepted_by, is_accepted, driver_is, completed_at_time,
}
use taxi_lab.Database.Invariant.{
  WellFormed, IsDriven, drives, driver_eq, is_busy, driver_id, ride_id,
}
use taxi_lab.Storage.{accept_ride, complete_ride}
use taxi_lab.Storage.Fleet.Accept.{
  Accepts, accepted, accepted_db, accept_ride-Accepts, searching, online,
}
use taxi_lab.Storage.Fleet.Complete.{
  Completes, completed, completed_db, complete_ride-Completes, under_way,
}

-- An UPDATE that leaves rows driven.
All-update_where :
    {A : Type 0} (P : A → Type 0) (chosen : A → Bool) (change : A → A) (rows : List A)
    → ((r : A) → P r → P (change r))
    → All P rows
    → All P (update_where chosen change rows)
unfolding update_where
All-update_where P chosen change [] keep a = tt
All-update_where P chosen change (r ∷ rows) keep (p, a) = elim (Bool-cases (chosen r)) [
  | inl e ↦ rw e (keep r p, All-update_where P chosen change rows keep a)
  | inr e ↦ rw e (p, All-update_where P chosen change rows keep a)
]

-- Who is busy after a driver takes a ride, and after a driver ends one.
module _ (d j : ℤ) (rows : List DriverRow) where
  busy_after_accept :
      row_test online (find_row driver_id d rows) ≡ true
      → row_test is_busy
          (find_row driver_id j (update_where (is_online d) (with_status "busy") rows))
        ≡ (if int_eq j d then true else row_test is_busy (find_row driver_id j rows))
  unfolding is_online
  busy_after_accept on =
      ap (row_test is_busy)
        (find_row-update_where driver_id (is_online d) (with_status "busy") j rows (λ x. refl))
      ∙ by_row (find_row driver_id j rows) refl
    where
      by_row :
          (o : Option DriverRow)
          → find_row driver_id j rows ≡ o
          → row_test is_busy (Option.map (λ x. if is_online d x then with_status "busy" x else x) o)
            ≡ (if int_eq j d then true else row_test is_busy o)
      by_row none h = ground (arith, int_eq_iff j d)
      by_row (some x) h = elim (Bool-cases (int_eq j d)) [
        | inl k ↦
            let hit : is_online d x ≡ true =
              ground (arith, int_eq_iff j d, find_row-id driver_id j rows h, int_eq_iff x.id d) in
            rw (k, hit)
        | inr k ↦
            let miss : is_online d x ≡ false = ground (arith, find_row-id driver_id j rows h) in
            rw (k, miss)
      ]

  busy_after_complete :
      row_test is_busy
        (find_row driver_id j (update_where (driver_is (some d)) (with_status "online") rows))
      ≡ (if int_eq j d then false else row_test is_busy (find_row driver_id j rows))
  busy_after_complete =
      ap (row_test is_busy) (
        find_row-update_where driver_id (driver_is (some d)) (with_status "online") j rows
          (λ x. refl))
      ∙ by_row (find_row driver_id j rows) refl
    where
      by_row :
          (o : Option DriverRow)
          → find_row driver_id j rows ≡ o
          → row_test is_busy
              (Option.map (λ x. if driver_is (some d) x then with_status "online" x else x) o)
            ≡ (if int_eq j d then false else row_test is_busy o)
      by_row none h = ground arith
      by_row (some x) h = elim (Bool-cases (int_eq j d)) [
        | inl k ↦ rw (k, ap (λ i. int_eq i d) (find_row-id driver_id j rows h) ∙ k)
        | inr k ↦ rw (k, ap (λ i. int_eq i d) (find_row-id driver_id j rows h) ∙ k)
      ]

-- An online driver is not busy.
online_not_busy : (o : Option DriverRow) → row_test online o ≡ true → row_test is_busy o ≡ false
online_not_busy none h = refl
online_not_busy (some x) h = ap (λ t. t == "busy") ((eq_iff x.status "online").0 h)

-- The rides that a driver is on, after one is taken and after one is ended.
module _ (db : Database) (w : WellFormed db) (r d : ℤ) (row : RideRow)
    (found : find_row ride_id r db.rides ≡ some row) where
  drives_after_accept :
      (e : ℤ)
      → searching row ≡ true
      → count_where (drives e) (accepted_db r d db).rides
        ≡ count_where (drives e) db.rides + (if int_eq d e then 1 else 0)
  unfolding is_searching
  drives_after_accept e s =
      let idle : drives e row ≡ false =
        ap (λ t. t == "accepted" && driver_eq e row.driver_id)
          ((eq_iff row.status "searching").0 s) in
      let counted =
        count_where-update_where ride_id (drives e) searching (accepted_by d) r _ db.rides row
          w.ids.rides found s in
      omega (arith, rw idle at counted)

  drives_after_complete :
      (now : ℕ) (e : ℤ)
      → under_way row ≡ true
      → row.driver_id ≡ some d
      → count_where (drives e) (completed_db now r d db).rides + (if int_eq d e then 1 else 0)
        ≡ count_where (drives e) db.rides
  unfolding is_accepted
  drives_after_complete now e s k =
      let on : drives e row ≡ int_eq d e = rw s (ap (driver_eq e) k) in
      let counted =
        count_where-update_where ride_id (drives e) under_way (completed_at_time now) r _ db.rides
          row w.ids.rides found s in
      omega (arith, rw on at counted)

completed-ne-accepted : ("completed" == "accepted") ≡ true → ⊥
completed-ne-accepted h = cc

Accepts-WellFormed :
    (r d : ℤ) (db : Database) (o : Result (Option Ride) × Database)
    → Accepts r d db o
    → WellFormed db
    → WellFormed o.1
Accepts-WellFormed r d db o (Accepts.refused h) w = w
Accepts-WellFormed r d db o (accepted row found s on) w = record {
  ids = record {
    users = w.ids.users;
    drivers =
        Falls-update_where driver_id (is_online d) (with_status "busy") _ db.drivers (λ x. refl)
          w.ids.drivers;
    rides =
        Falls-update_where ride_id (is_searching r) (accepted_by d) _ db.rides (λ x. refl)
          w.ids.rides;
    starts = w.ids.starts;
  };
  driven = All-update_where IsDriven _ _ db.rides (λ x p k e. cc) w.driven;
  balance = λ e. ground (
    arith,
    drives_after_accept db w r d row found e s,
    busy_after_accept d e db.drivers on,
    online_not_busy (find_row driver_id d db.drivers) on,
    w.balance e,
    int_eq_iff d e,
    int_eq_iff e d,
  );
  logins = w.logins;
}

Completes-WellFormed :
    (now : ℕ) (r : ℤ) (db : Database) (o : Result (Option Ride) × Database)
    → Completes now r db o
    → WellFormed db
    → WellFormed o.1
Completes-WellFormed now r db o (Completes.refused h) w = w
Completes-WellFormed now r db o (completed row d found s k) w = record {
  ids = record {
    users = w.ids.users;
    drivers =
        Falls-update_where driver_id (driver_is (some d)) (with_status "online") _ db.drivers
          (λ x. refl) w.ids.drivers;
    rides =
        Falls-update_where ride_id (is_accepted r) (completed_at_time now) _ db.rides (λ x. refl)
          w.ids.rides;
    starts = w.ids.starts;
  };
  driven =
      All-update_where IsDriven _ _ db.rides (λ x p e. absurd (completed-ne-accepted e)) w.driven;
  balance = λ e. ground (
    arith,
    drives_after_complete db w r d row found now e s k,
    busy_after_complete d e db.drivers,
    w.balance e,
    int_eq_iff d e,
    int_eq_iff e d,
  );
  logins = w.logins;
}

-- AcceptRide keeps a well-formed database well-formed; in particular a driver is on one accepted
-- ride while busy, and on none otherwise.
pub accept_ride-WellFormed :
    (r d : ℤ) (db : Database) → WellFormed db → WellFormed (accept_ride r d db).1
accept_ride-WellFormed r d db w = Accepts-WellFormed r d db _ (accept_ride-Accepts r d db w.ids) w

-- CompleteRide keeps a well-formed database well-formed; in particular a driver is on one accepted
-- ride while busy, and on none otherwise.
pub complete_ride-WellFormed :
    (now : ℕ) (r : ℤ) (db : Database) → WellFormed db → WellFormed (complete_ride now r db).1
complete_ride-WellFormed now r db w =
    Completes-WellFormed now r db _ (complete_ride-Completes now r db w.ids w.driven) w
