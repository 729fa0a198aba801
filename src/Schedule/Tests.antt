-- ===== src/Schedule/Tests.antt =====
-- The law of the normalizer at concrete ranges.
use jaytwo_library.Prelude.{arith, List, [], ◌∷◌, ◌≡◌, true}
use jaytwo_library.Schedule.{WeeklyRange, normalize}
use jaytwo_library.Schedule.Parts.{Ranges}
use jaytwo_library.Schedule.Week.{covers, one_covers, one_covers-normalize}

-- Friday 22:00 to Monday 06:00, and Saturday 08:00 to 12:30.
abbrev ranges : List WeeklyRange
ranges =
    record {
      start_day = 4;
      start_time = record { hour = 22; minute = 0 };
      end_day = 0;
      end_time = record { hour = 6; minute = 0 };
    }
    ∷ record {
      start_day = 5;
      start_time = record { hour = 8; minute = 0 };
      end_day = 5;
      end_time = record { hour = 12; minute = 30 };
    }
    ∷ []

ranges-Ranges : Ranges ranges
ranges-Ranges = (
  record {
    first = omega arith;
    last = omega arith;
    from = record { hours = omega arith; minutes = omega arith };
    until = record { hours = omega arith; minutes = omega arith };
  },
  (
    record {
      first = omega arith;
      last = omega arith;
      from = record { hours = omega arith; minutes = omega arith };
      until = record { hours = omega arith; minutes = omega arith };
    },
    tt,
  ),
)

-- The last minute of the range over the weekend.
one_covers-normalize_example :
    Ranges (normalize ranges) × (one_covers (normalize ranges) 0 360 ≡ true)
unfolding one_covers covers
one_covers-normalize_example =
    one_covers-normalize ranges 0 360 ranges-Ranges (omega arith) (omega arith)
