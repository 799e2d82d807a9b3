-- ===== src/Timespec/Laws.antt =====
-- What `timespec_add` and `timespec_sub` of src/timespec.c compute.
use libpussy.Base.{
  ℕ, ◌+◌, ◌-◌, ◌*◌, ◌^◌, ◌≤◌, ◌<◌, ◌≡◌, ap₂, arith, inl, inr, Bool-cases, ltb→lt, ltb→le, lt→ltb,
  le→ltb, ltb,
}
use libpussy.Timespec.{
  Timespec, timespec, Doubles, add64, sub64, less_signed, billion, timespec_add, timespec_sub,
}

-- A time from the epoch on that has less than a second of nanoseconds.
pub record IsTime (t : Timespec) : Type 0 where
  pub sec : t.tv_sec < 2 ^ 62
  pub nsec : t.tv_nsec < billion

abbrev pub nanoseconds : Timespec → ℕ
nanoseconds t = t.tv_sec * billion + t.tv_nsec

-- The number `d` of seconds is the time `t`, as far as `double` can tell: integers below 2^53 are exact.
pub record Amounts {Double : Type 0} (dbl : Doubles Double) (d : Double) (t : Timespec)
    : Type 0 where
  pub time : IsTime t
  pub seconds : (w : ℕ) → w + t.tv_sec < 2 ^ 53 → dbl.add_double w (dbl.modf d).0 ≡ w + t.tv_sec
  pub fraction :
      (w : ℕ) → w < billion → dbl.add_double w (dbl.times_billion (dbl.modf d).1) ≡ w + t.tv_nsec

pub record Difference (a b d : Timespec) : Type 0 where
  pub time : IsTime d
  pub sum : nanoseconds d + nanoseconds b ≡ nanoseconds a

less_signed_small : (a b : ℕ) → a < 2 ^ 63 → b < 2 ^ 63 → less_signed a b ≡ ltb a b
less_signed_small a b ha hb = ground arith

sub64_small : (a b : ℕ) → b ≤ a → a < 2 ^ 64 → sub64 a b ≡ a - b
sub64_small a b h small = omega arith

add64_small : (a b : ℕ) → a + b < 2 ^ 64 → add64 a b ≡ a + b
add64_small a b h = omega arith

-- For two times from the epoch on, each with less than a second of nanoseconds, and the second not later,
-- timespec_sub gives a time with less than a second of nanoseconds, and it and the second time are as many
-- nanoseconds as the first.
pub timespec_sub-Difference :
    (a b : Timespec)
    → IsTime a
    → IsTime b
    → nanoseconds b ≤ nanoseconds a
    → Difference a b (timespec_sub a b)
unfolding timespec_sub
timespec_sub-Difference a b ta tb later =
    rw (less_signed_small a.tv_nsec b.tv_nsec (omega arith) (omega arith))
      (elim (Bool-cases (ltb a.tv_nsec b.tv_nsec)) [
        | inl borrow ↦
            let less = ltb→lt a.tv_nsec b.tv_nsec borrow in
            rw
              (
                borrow,
                sub64_small a.tv_sec b.tv_sec (omega arith) (omega arith),
                sub64_small (a.tv_sec - b.tv_sec) 1 (omega arith) (omega arith),
                add64_small a.tv_nsec billion (omega arith),
                sub64_small (a.tv_nsec + billion) b.tv_nsec (omega arith) (omega arith),
              )
              (record {
                time = record { sec = omega arith; nsec = omega arith };
                sum = omega arith;
              })
        | inr whole ↦
            let least = ltb→le a.tv_nsec b.tv_nsec whole in
            rw
              (
                whole,
                sub64_small a.tv_sec b.tv_sec (omega arith) (omega arith),
                sub64_small a.tv_nsec b.tv_nsec (omega arith) (omega arith),
              )
              (record {
                time = record { sec = omega arith; nsec = omega arith };
                sum = omega arith;
              })
      ])

-- Subtracting what was added, with a carry or without.
module _ (a b : Timespec) (ta : IsTime a) (tb : IsTime b)
    (small : a.tv_sec + b.tv_sec < 2 ^ 53) where
  carry :
      billion ≤ a.tv_nsec + b.tv_nsec
      → timespec_sub
          (timespec (add64 (a.tv_sec + b.tv_sec) 1) (sub64 (a.tv_nsec + b.tv_nsec) billion))
          b
        ≡ a
  unfolding timespec_sub
  carry over =
      rw
        (
          sub64_small (a.tv_nsec + b.tv_nsec) billion over (omega arith),
          less_signed_small (a.tv_nsec + b.tv_nsec - billion) b.tv_nsec (omega arith) (omega arith),
          lt→ltb (a.tv_nsec + b.tv_nsec - billion) b.tv_nsec (omega arith),
        )
        (ap₂ timespec (omega arith) (omega arith))

  no_carry : timespec_sub (timespec (a.tv_sec + b.tv_sec) (a.tv_nsec + b.tv_nsec)) b ≡ a
  unfolding timespec_sub
  no_carry =
      rw
        (
          less_signed_small (a.tv_nsec + b.tv_nsec) b.tv_nsec (omega arith) (omega arith),
          le→ltb (a.tv_nsec + b.tv_nsec) b.tv_nsec (omega arith),
        )
        (ap₂ timespec (omega arith) (omega arith))

-- Subtracting from a time what was added to it gives the time back, with a carry of a second or without,
-- for times from the epoch on whose seconds stay below 2^53, where double is exact.
pub timespec_sub-timespec_add :
    {Double : Type 0} (dbl : Doubles Double) (d : Double) (a b : Timespec)
    → IsTime a
    → Amounts dbl d b
    → a.tv_sec + b.tv_sec < 2 ^ 53
    → timespec_sub (timespec_add dbl a d) b ≡ a
unfolding timespec_add
timespec_sub-timespec_add dbl d a b ta amounts small =
    rw
      (
        amounts.seconds a.tv_sec small,
        amounts.fraction a.tv_nsec ta.nsec,
        less_signed_small (a.tv_nsec + b.tv_nsec) billion
            (omega (arith, amounts.time.nsec, ta.nsec)) (omega arith),
      )
      (elim (Bool-cases (ltb (a.tv_nsec + b.tv_nsec) billion)) [
        | inl fits ↦ rw fits (no_carry a b ta amounts.time small)
        | inr over ↦ rw over (carry a b ta amounts.time small (ltb→le _ _ over))
      ])
