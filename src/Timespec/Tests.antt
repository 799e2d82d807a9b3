-- ===== src/Timespec/Tests.antt =====
-- Times of src/timespec.c. A `double` is an amount of whole seconds with an amount of billionths.
use libpussy.Base.{ℕ, ◌+◌, ◌≡◌, refl, arith}
use libpussy.Timespec.{timespec, Doubles, timespec_add, timespec_sub}
use libpussy.Timespec.Laws.{Amounts, Difference, timespec_sub-Difference, timespec_sub-timespec_add}

abbrev exact : Doubles (ℕ × ℕ)
exact = record {
  modf = λ d. ((d.0, 0), (0, d.1));
  times_billion = λ d. (d.1, 0);
  add_double = λ n d. n + d.0;
}

borrow_test : timespec_sub (timespec 5 100) (timespec 2 300) ≡ timespec 2 999999800
unfolding timespec_sub
borrow_test = refl

timespec_sub-Difference_example :
    Difference (timespec 5 100) (timespec 2 300) (timespec_sub (timespec 5 100) (timespec 2 300))
timespec_sub-Difference_example =
    timespec_sub-Difference (timespec 5 100) (timespec 2 300)
      (record { sec = omega arith; nsec = omega arith })
      (record { sec = omega arith; nsec = omega arith }) (omega arith)

exact-Amounts : Amounts exact (2, 999999950) (timespec 2 999999950)
exact-Amounts = record {
  time = record { sec = omega arith; nsec = omega arith };
  seconds = λ w h. refl;
  fraction = λ w h. refl;
}

timespec_sub-timespec_add_example :
    timespec_sub (timespec_add exact (timespec 5 100) (2, 999999950)) (timespec 2 999999950)
    ≡ timespec 5 100
timespec_sub-timespec_add_example =
    timespec_sub-timespec_add exact (2, 999999950) (timespec 5 100) (timespec 2 999999950)
      (record { sec = omega arith; nsec = omega arith }) exact-Amounts (omega arith)
