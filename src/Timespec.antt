-- ===== src/Timespec.antt =====
-- include/nft_gettime.h: times as seconds and nanoseconds. An `int64_t` is its bit pattern.
use nifty.Base.{ℕ, ◌+◌, ◌-◌, ◌*◌, ◌/◌, ◌%◌, ◌≤◌, ◌<◌, ◌≡◌, Bool, true, false, ◌&&◌, arith, ltb, leb}

-- NANOSEC
abbrev pub nanosec : ℕ
nanosec = 1_000_000_000

-- `struct timespec`, of a time that is not negative.
pub record Timespec : Type 0 where
  pub tv_sec : ℕ
  pub tv_nsec : ℕ

-- The time in nanoseconds.
abbrev pub nanos : Timespec → ℕ
nanos t = t.tv_sec * nanosec + t.tv_nsec

-- 2 ^ 64 and 2 ^ 32
abbrev pub word64 : ℕ
word64 = 0x1_0000_0000_0000_0000

abbrev pub word32 : ℕ
word32 = 0x1_0000_0000

-- `x < 0` and `x > 0` for an `int64_t`, and for an `int`.
abbrev pub is_neg64 : ℕ → Bool
is_neg64 x = leb 0x8000_0000_0000_0000 x

abbrev pub is_pos64 : ℕ → Bool
is_pos64 x = ltb 0 x && ltb x 0x8000_0000_0000_0000

abbrev pub is_neg32 : ℕ → Bool
is_neg32 x = leb 0x8000_0000 x

abbrev pub is_pos32 : ℕ → Bool
is_pos32 x = ltb 0 x && ltb x 0x8000_0000

-- nft_timespec_comp: the difference in nanoseconds, as it wraps.
unfoldable pub nft_timespec_comp : Timespec → Timespec → ℕ
nft_timespec_comp now then' = (nanos now + word64 - nanos then' % word64) % word64

-- nft_timespec_norm
unfoldable pub nft_timespec_norm : Timespec → Timespec
nft_timespec_norm ts = record {
  tv_sec = ts.tv_sec + ts.tv_nsec / nanosec;
  tv_nsec = ts.tv_nsec % nanosec;
}

-- nft_timespec_add
unfoldable pub nft_timespec_add : Timespec → Timespec → Timespec
unfolding nft_timespec_norm
nft_timespec_add ts interval =
    nft_timespec_norm
      (record { tv_sec = ts.tv_sec + interval.tv_sec; tv_nsec = ts.tv_nsec + interval.tv_nsec })

-- Times of which the `int64_t` has room for the nanoseconds: up to the year 2262.
abbrev pub InRange : Timespec → Type 0
InRange t = nanos t < 0x8000_0000_0000_0000

-- The sum of two times is normalized, and in nanoseconds it is the sum of both.
pub nft_timespec_add_lem :
    (ts interval : Timespec)
    → (nanos (nft_timespec_add ts interval) ≡ nanos ts + nanos interval)
      × ((nft_timespec_add ts interval).tv_nsec < nanosec)
unfolding nft_timespec_add
nft_timespec_add_lem ts interval = omega arith

-- nft_timespec_comp of two times in range is negative just where the first is before the second.
pub comp_neg :
    (a b : Timespec)
    → InRange a
    → InRange b
    → is_neg64 (nft_timespec_comp a b) ≡ ltb (nanos a) (nanos b)
unfolding nft_timespec_comp
comp_neg a b ha hb = ground arith

pub comp_pos :
    (a b : Timespec)
    → InRange a
    → InRange b
    → is_pos64 (nft_timespec_comp a b) ≡ ltb (nanos b) (nanos a)
unfolding nft_timespec_comp
comp_pos a b ha hb = ground arith

-- Cut to an `int`, the difference still has the sign of the order where the times are less than
-- 2 ^ 31 nanoseconds apart, some two seconds.
abbrev pub IsNear : Timespec → Timespec → Type 0
IsNear a b = (nanos a < nanos b + 0x8000_0000) × (nanos b < nanos a + 0x8000_0000)

pub cut_comp_near :
    (a b : Timespec)
    → InRange a
    → InRange b
    → IsNear a b
    → (is_pos32 (nft_timespec_comp a b % word32) ≡ ltb (nanos b) (nanos a))
      × (is_neg32 (nft_timespec_comp a b % word32) ≡ ltb (nanos a) (nanos b))
unfolding nft_timespec_comp
cut_comp_near a b ha hb near = (ground arith, ground arith)

-- Between 2 ^ 31 and 2 ^ 32 nanoseconds the sign of a positive difference is lost.
pub cut_comp_far :
    (a b : Timespec)
    → InRange a
    → InRange b
    → nanos b + 0x8000_0000 ≤ nanos a
    → nanos a < nanos b + word32
    → (is_pos32 (nft_timespec_comp a b % word32) ≡ false)
      × (is_neg32 (nft_timespec_comp a b % word32) ≡ true)
unfolding nft_timespec_comp
cut_comp_far a b ha hb far near = (ground arith, ground arith)
