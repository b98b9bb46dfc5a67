-- ===== src/Tests/Clock.antt =====
-- Times around a full second, and the bytes of words.
use os161_testbed.Common.{◌+◌, ◌*◌, ◌%◌, ◌^◌, ◌≡◌, refl, arith}
use os161_testbed.Clock.{
  Timespec, IsTime, nanoseconds, timespec_add, timespec_sub, timespec_add-IsTime,
  timespec_sub-timespec_add,
}
use os161_testbed.Endian.{bswap32}

abbrev late : Timespec
late = record { sec = 7; nsec = 900000000 }

abbrev step : Timespec
step = record { sec = 1; nsec = 300000000 }

late-IsTime : IsTime late
late-IsTime = record { sec_word = omega arith; nsec_small = omega arith }

step-IsTime : IsTime step
step-IsTime = record { sec_word = omega arith; nsec_small = omega arith }

sum_run : timespec_add late step ≡ record { sec = 9; nsec = 200000000 }
unfolding timespec_add
sum_run = refl

swap_run : bswap32 0x12345678 ≡ 0x78563412
unfolding bswap32
swap_run = refl

timespec_add-IsTime_example :
    IsTime (timespec_add late step)
    × (nanoseconds (timespec_add late step)
        ≡ (nanoseconds late + nanoseconds step) % (2 ^ 64 * 1000000000))
timespec_add-IsTime_example = timespec_add-IsTime late-IsTime step-IsTime

timespec_sub-timespec_add_example : timespec_sub (timespec_add late step) step ≡ late
timespec_sub-timespec_add_example = timespec_sub-timespec_add late-IsTime step-IsTime
