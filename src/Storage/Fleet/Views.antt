-- ===== src/Storage/Fleet/Views.antt =====
-- The tests of the abstract fleet, on the rows that they are about.
use taxi_lab.Base.{◌≡◌, refl, Option, none, some, String, ◌==◌}
use mathlib.Core.Option
use taxi_lab.Database.Rows.{DriverRow, RideRow}
use taxi_lab.Database.Tables.{row_test}
use taxi_lab.Storage.Fleet.{ride_has_status, driver_has_status, assignment_of}

pub ride_test :
    (s : String) (o : Option RideRow)
    → ride_has_status s (Option.map assignment_of o) ≡ row_test (λ r. r.status == s) o
ride_test s none = refl
ride_test s (some r) = refl

pub driver_test :
    (s : String) (o : Option DriverRow)
    → driver_has_status s (Option.map (λ r. r.status) o) ≡ row_test (λ r. r.status == s) o
driver_test s none = refl
driver_test s (some r) = refl
