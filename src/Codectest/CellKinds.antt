-- ===== src/Codectest/CellKinds.antt =====
-- appendCell of codec/codectest/codectest.go against decodeCell of codec/chunk.go, for the
-- types whose cells are not plain numbers.
use duckcall.Base.{
  ℕ, ◌+◌, ◌-◌, ◌*◌, ◌/◌, ◌%◌, ◌^◌, ◌≤◌, ◌<◌, ◌≡◌, refl, List, ◌++◌, some, ok, drop, ◌⊎◌, subst,
  length-append, arith,
}
use duckcall.Codec.Types.{
  type_date, type_interval, type_time_tz, type_uhugeint, type_hugeint, scalar_type, big_int,
  instant, time_tz, interval,
}
use duckcall.Codec.Cells.{
  little_endian, word, widen, decode_cell, decode_other_cell, physical_width, date_value,
  time_tz_max_offset, int128_big, uint128_big,
}
use duckcall.Codec.Int128.{int128parts-int128_big, int128parts-uint128_big}
use duckcall.Codectest.CellWriter.{
  le_bytes, cell, other_cell, nz, unix_ticks, days_of, as_days, as_interval, as_time_tz, as_big,
}
use duckcall.Codectest.Cells.{
  length-le_bytes, word-le_bytes, drop-le_bytes, word-le_bytes_alone, StoredAs, number-StoredAs,
  halves-StoredAs,
}

-- What a cell holds of a time.Time.
pub seconds_back : (v : ℕ) → v < 2 ^ 64 → unix_ticks 1 v 1 ≡ v
unfolding unix_ticks
seconds_back v h = ground arith

pub millis_back : (v : ℕ) → v < 2 ^ 64 → unix_ticks 1000 v 1000 ≡ v
unfolding unix_ticks
millis_back v h = ground arith

pub micros_back : (v : ℕ) → v < 2 ^ 64 → unix_ticks 1_000_000 v 1_000_000 ≡ v
unfolding unix_ticks
micros_back v h = ground arith

pub nanos_back : (v : ℕ) → v < 2 ^ 64 → unix_ticks 1_000_000_000 v 1_000_000_000 ≡ v
unfolding unix_ticks
nanos_back v h = ground arith

days_back :
    (days : ℕ)
    → days < 2 ^ 32
    → days_of (unix_ticks 1 (widen 32 days * 86400 % 2 ^ 64) 1) % 2 ^ 32 ≡ days
unfolding days_of unix_ticks
days_back days h = ground arith

low_word : (x : ℕ) → word 4 (le_bytes 4 x) ≡ x % 2 ^ 32
unfolding le_bytes little_endian
low_word x = omega arith

pub date-StoredAs : (days : ℕ) → days < 2 ^ 32 → StoredAs (scalar_type type_date) (date_value days)
unfolding cell other_cell decode_cell decode_other_cell physical_width nz as_days date_value
date-StoredAs days h = record {
  bytes = le_bytes 4 (days_of (unix_ticks 1 (widen 32 days * 86400 % 2 ^ 64) 1));
  stored = refl;
  wide = length-le_bytes 4 _;
  back =
      rw (low_word (days_of (unix_ticks 1 (widen 32 days * 86400 % 2 ^ 64) 1)), days_back days h);
}

-- A timestamp in the unit of its type.
pub timestamp-StoredAs :
    (id k n : ℕ)
    → n < 2 ^ 64
    → unix_ticks k n k ≡ n
    → cell (scalar_type id) (instant n k) ≡ some (le_bytes 8 (unix_ticks k n k))
    → physical_width (scalar_type id) ≡ 8
    → ((c : List ℕ) → decode_cell (scalar_type id) c ≡ ok (instant (word 8 c) k))
    → StoredAs (scalar_type id) (instant n k)
timestamp-StoredAs id k n h same stored wide back =
    number-StoredAs _ _ 8 n (λ v. instant v k) h
      (subst (λ m. cell (scalar_type id) (instant n k) ≡ some (le_bytes 8 m)) same stored) wide
      (back _) refl

pub hugeint-StoredAs :
    (hi lo : ℕ)
    → hi < 2 ^ 64
    → lo < 2 ^ 64
    → StoredAs (scalar_type type_hugeint) (big_int (int128_big hi lo))
unfolding cell other_cell decode_cell decode_other_cell physical_width as_big
hugeint-StoredAs hi lo hh hl =
    halves-StoredAs _ _ hi lo (λ h l. big_int (int128_big h l)) hh hl
      (rw (int128parts-int128_big hi lo hh hl)) refl refl refl

pub uhugeint-StoredAs :
    (hi lo : ℕ)
    → hi < 2 ^ 64
    → lo < 2 ^ 64
    → StoredAs (scalar_type type_uhugeint) (big_int (uint128_big hi lo))
unfolding cell other_cell decode_cell decode_other_cell physical_width as_big
uhugeint-StoredAs hi lo hh hl =
    halves-StoredAs _ _ hi lo (λ h l. big_int (uint128_big h l)) hh hl
      (rw (int128parts-uint128_big hi lo hh hl)) refl refl refl

after_days :
    (months days : ℕ) (more : List ℕ)
    → drop 8 (le_bytes 4 months ++ (le_bytes 4 days ++ more)) ≡ more
unfolding le_bytes
after_days months days more = refl

pub interval-StoredAs :
    (months days micros : ℕ)
    → months < 2 ^ 32
    → days < 2 ^ 32
    → micros < 2 ^ 64
    → StoredAs (scalar_type type_interval) (interval months days micros)
unfolding cell other_cell decode_cell decode_other_cell physical_width as_interval
interval-StoredAs months days micros hm hd hu = record {
  bytes = le_bytes 4 months ++ (le_bytes 4 days ++ le_bytes 8 micros);
  stored = refl;
  wide = omega (
    arith,
    length-append (le_bytes 4 months) (le_bytes 4 days ++ le_bytes 8 micros),
    length-append (le_bytes 4 days) (le_bytes 8 micros),
    length-le_bytes 4 months,
    length-le_bytes 4 days,
    length-le_bytes 8 micros,
  );
  back = rw (
    word-le_bytes 4 months _ (omega arith),
    drop-le_bytes 4 months,
    word-le_bytes 4 days _ (omega arith),
    after_days months days,
    word-le_bytes_alone 8 micros (omega arith),
  );
}

-- The packing of a clock time and an offset.
pub time_tz-StoredAs :
    (micros offset : ℕ)
    → micros < 2 ^ 40
    → offset < 2 ^ 32
    → (offset ≤ 57599) ⊎ (2 ^ 32 - 57599 ≤ offset)
    → StoredAs (scalar_type type_time_tz) (time_tz micros offset)
unfolding cell other_cell decode_cell decode_other_cell physical_width as_time_tz
time_tz-StoredAs micros offset hm ho near =
    number-StoredAs _ _ 8
      (micros * 2 ^ 24 % 2 ^ 64 + (time_tz_max_offset + 2 ^ 32 - offset) % 2 ^ 32 % 2 ^ 24)
      (λ n. time_tz (n / 2 ^ 24) ((time_tz_max_offset + 2 ^ 32 - n % 2 ^ 24) % 2 ^ 32))
      (omega arith) refl refl refl (ground arith)
