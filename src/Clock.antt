-- ===== src/Clock.antt =====
-- os161/kern/lib/time.c: sums and differences of times. Seconds are a 64-bit word and nanoseconds a 32-bit
-- word, both as the bit pattern that C's two's complement gives them.
use os161_testbed.Common.{
  ℕ, ◌+◌, ◌-◌, ◌*◌, ◌%◌, ◌^◌, ◌<◌, ◌≤◌, dec_le, ◌≡◌, refl, Bool, not, leb, if◌then◌else◌, true,
  false, arith,
}

-- struct timespec
pub record Timespec : Type 0 where
  pub sec : ℕ
  pub nsec : ℕ

-- a <= b for 32-bit patterns as C's signed numbers: 2^31 and above are the negative ones
abbrev pub signed_leb : (a b : ℕ) → Bool
signed_leb a b = leb ((a + 2 ^ 31) % 2 ^ 32) ((b + 2 ^ 31) % 2 ^ 32)

-- timespec_add
unfoldable pub timespec_add : (ts1 ts2 : Timespec) → Timespec
timespec_add ts1 ts2 =
    let nsec = (ts1.nsec + ts2.nsec) % 2 ^ 32 in
    let sec = (ts1.sec + ts2.sec) % 2 ^ 64 in
    if signed_leb 1000000000 nsec
    then record { sec = (sec + 1) % 2 ^ 64; nsec = nsec - 1000000000 }
    else record { sec = sec; nsec = nsec }

-- timespec_sub
unfoldable pub timespec_sub : (ts1 ts2 : Timespec) → Timespec
timespec_sub ts1 ts2 =
    let borrow = not (signed_leb ts2.nsec ts1.nsec) in
    let nsec = if borrow then (ts1.nsec + 1000000000) % 2 ^ 32 else ts1.nsec in
    let sec = if borrow then (ts1.sec + 2 ^ 64 - 1) % 2 ^ 64 else ts1.sec in
    record { sec = (sec + 2 ^ 64 - ts2.sec) % 2 ^ 64; nsec = (nsec + 2 ^ 32 - ts2.nsec) % 2 ^ 32 }

-- A normalised time: less than a second of nanoseconds.
pub record IsTime (ts : Timespec) : Type 0 where
  pub sec_word : ts.sec < 2 ^ 64
  pub nsec_small : ts.nsec < 1000000000

-- nanoseconds since the epoch, on the circle of 2^64 seconds
abbrev pub nanoseconds : Timespec → ℕ
nanoseconds ts = (ts.sec * 1000000000 + ts.nsec) % (2 ^ 64 * 1000000000)

Timespec-eq : {s t : Timespec} → s.sec ≡ t.sec → s.nsec ≡ t.nsec → s ≡ t
Timespec-eq p q = λ i. record { sec = p i; nsec = q i }

-- Patterns below 2^31 compare as they are.
signed_yes : (a b : ℕ) → a ≤ b → b < 2 ^ 31 → signed_leb a b ≡ true
signed_yes a b le small =
    let e : (a + 2 ^ 31) % 2 ^ 32 ≤ (b + 2 ^ 31) % 2 ^ 32 = omega arith in ground arith

signed_no : (a b : ℕ) → b < a → a < 2 ^ 31 → signed_leb a b ≡ false
signed_no a b lt small =
    let e : (b + 2 ^ 31) % 2 ^ 32 < (a + 2 ^ 31) % 2 ^ 32 = omega arith in ground arith

module _ {ts1 ts2 : Timespec} (one : IsTime ts1) (two : IsTime ts2) where
  unwrapped : (ts1.nsec + ts2.nsec) % 2 ^ 32 ≡ ts1.nsec + ts2.nsec
  unwrapped = omega (arith, one.nsec_small, two.nsec_small)

  carried :
      1000000000 ≤ ts1.nsec + ts2.nsec
      → timespec_add ts1 ts2
        ≡ record { sec = (ts1.sec + ts2.sec + 1) % 2 ^ 64; nsec = ts1.nsec + ts2.nsec - 1000000000 }
  unfolding timespec_add
  carried h =
      let yes' =
        signed_yes 1000000000 (ts1.nsec + ts2.nsec) h
          (omega (arith, one.nsec_small, two.nsec_small)) in
      rw (unwrapped, yes') (Timespec-eq (omega arith) refl)

  uncarried :
      ts1.nsec + ts2.nsec < 1000000000
      → timespec_add ts1 ts2
        ≡ record { sec = (ts1.sec + ts2.sec) % 2 ^ 64; nsec = ts1.nsec + ts2.nsec }
  unfolding timespec_add
  uncarried h =
      let no' = signed_no 1000000000 (ts1.nsec + ts2.nsec) h (omega arith) in
      rw (unwrapped, no') refl

  -- The sum of two normalised times is normalised, and counts the sum of their nanoseconds on a
  -- circle of 2^64 seconds.
  pub timespec_add-IsTime :
      IsTime (timespec_add ts1 ts2)
      × (nanoseconds (timespec_add ts1 ts2)
          ≡ (nanoseconds ts1 + nanoseconds ts2) % (2 ^ 64 * 1000000000))
  timespec_add-IsTime = elim (dec_le 1000000000 (ts1.nsec + ts2.nsec)) [
    | yes h ↦ rw (carried h) (
      record { sec_word = omega arith; nsec_small = omega (arith, one.nsec_small, two.nsec_small) },
      omega (arith, one.nsec_small, two.nsec_small),
    )
    | no h ↦ rw (uncarried (omega arith)) (
      record { sec_word = omega arith; nsec_small = omega arith },
      omega (arith, one.nsec_small, two.nsec_small),
    )
  ]

  -- Taking a normalised time away from its sum with another one gives back the other one.
  pub timespec_sub-timespec_add : timespec_sub (timespec_add ts1 ts2) ts2 ≡ ts1
  unfolding timespec_sub
  timespec_sub-timespec_add = elim (dec_le 1000000000 (ts1.nsec + ts2.nsec)) [
    | yes h ↦
        let less =
          signed_no ts2.nsec (ts1.nsec + ts2.nsec - 1000000000) (omega (arith, one.nsec_small))
            (omega (arith, two.nsec_small)) in
        rw (carried h, less)
          (Timespec-eq (omega (arith, one.sec_word, two.sec_word))
            (omega (arith, one.nsec_small, two.nsec_small)))
    | no h ↦
        let more =
          signed_yes ts2.nsec (ts1.nsec + ts2.nsec) (omega arith)
            (omega (arith, one.nsec_small, two.nsec_small)) in
        rw (uncarried (omega arith), more)
          (Timespec-eq (omega (arith, one.sec_word, two.sec_word))
            (omega (arith, one.nsec_small, two.nsec_small)))
  ]
