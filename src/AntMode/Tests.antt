-- ===== src/AntMode/Tests.antt =====
-- shared/antmode/antmode.go: reading one payload.
use station_a.AntMode.{State, snapshot, storm, is_valid, normal_lock, check_park_az, parse}
use station_a.AntMode.Reading.{Readable, parse-Readable}
use station_a.Base.{true, false, some, pos, refl}

abbrev parked : State
parked = record {
  mode = storm;
  lock =
      some
        (record { seq = 3; ground = true; retract = true; park_az = some (pos 270); nudge = true });
  power_hold = false;
}

parse-Readable_example : Readable parked
unfolding parse is_valid normal_lock check_park_az
parse-Readable_example = parse-Readable (snapshot parked) parked refl
