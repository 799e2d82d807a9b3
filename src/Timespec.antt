-- ===== src/Timespec.antt =====
-- src/timespec.c: points in time and their differences. Both fields of a time are signed numbers of 64 bits in
-- two's complement. What `double` does in `timespec_add` is a parameter.
pub mod Laws
mod Tests
use libpussy.Base.{ℕ, ◌+◌, ◌-◌, ◌%◌, ◌^◌, Bool, not, ltb, if◌then◌else◌}

pub record Timespec : Type 0 where
  pub tv_sec : ℕ
  pub tv_nsec : ℕ

abbrev pub timespec : ℕ → ℕ → Timespec
timespec sec nsec = record { tv_sec = sec; tv_nsec = nsec }

-- `modf`, which gives the integral part first; the product with 1'000'000'000; and `n += d` on a signed integer, which
-- converts it to `double`, adds and cuts off.
pub record Doubles (Double : Type 0) : Type 0 where
  pub modf : Double → Double × Double
  pub times_billion : Double → Double
  pub add_double : ℕ → Double → ℕ

abbrev pub add64 : ℕ → ℕ → ℕ
add64 a b = (a + b) % 2 ^ 64

abbrev pub sub64 : ℕ → ℕ → ℕ
sub64 a b = (a + 2 ^ 64 - b) % 2 ^ 64

-- `a < b` on signed numbers.
abbrev pub less_signed : ℕ → ℕ → Bool
less_signed a b = ltb (add64 a (2 ^ 63)) (add64 b (2 ^ 63))

abbrev pub billion : ℕ
billion = 1000000000

unfoldable pub timespec_add : {Double : Type 0} → Doubles Double → Timespec → Double → Timespec
timespec_add dbl ts increment =
    let (integral, frac) = dbl.modf increment in
    let sec = dbl.add_double ts.tv_sec integral in
    let nsec = dbl.add_double ts.tv_nsec (dbl.times_billion frac) in
    if not (less_signed nsec billion)
    then timespec (add64 sec 1) (sub64 nsec billion)
    else timespec sec nsec

unfoldable pub timespec_sub : Timespec → Timespec → Timespec
timespec_sub a b =
    let sec = sub64 a.tv_sec b.tv_sec in
    if less_signed a.tv_nsec b.tv_nsec
    then timespec (sub64 sec 1) (sub64 (add64 a.tv_nsec billion) b.tv_nsec)
    else timespec sec (sub64 a.tv_nsec b.tv_nsec)
