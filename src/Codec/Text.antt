-- ===== src/Codec/Text.antt =====
-- codec/values.go: how the values print. An int64 and an int32 are two's complement patterns.
use duckcall.Base.{
  ℕ, zero, suc, ◌+◌, ◌-◌, ◌*◌, ◌/◌, ◌%◌, ◌^◌, ◌||◌, ◌&&◌, List, [], ◌∷◌, ◌++◌, Option, none, some,
  ◌==◌, ltb, leb, bytes_eq, length, take, drop, replicate, is_empty, if◌then◌else◌,
}
use duckcall.Base.Int.{ℤ, signed, quot, rem, is_zero, is_negative, magnitude}
use duckcall.Base.Strings.{codes}
use duckcall.Base.Numerals.{digits, format_int, format_padded}
use duckcall.Codec.Types.{Value, Entries, no_entries, entry}
use duckcall.Codec.Cells.{int128_big}

-- `%0*s` of a text of digits.
abbrev pub pad_text : ℕ → List ℕ → List ℕ
pad_text width s = replicate (width - length s) 48 ++ s

unfoldable pub with_point : ℕ → List ℕ → List ℕ
with_point zero s = s
with_point (suc scale) s = let cut = length s - suc scale in take cut s ++ (46 ∷ drop cut s)

-- Decimal.String, by the unscaled integer.
unfoldable pub unscaled_text : ℕ → ℤ → List ℕ
unscaled_text scale v =
    let s = digits (magnitude v) in
    let wide = if leb (length s) scale then pad_text (scale + 1) s else s in
    if is_negative v then 45 ∷ with_point scale wide else with_point scale wide

abbrev pub decimal_text : ℕ → ℕ → ℕ → List ℕ
decimal_text scale hi lo = unscaled_text scale (int128_big hi lo)

-- The last digits that are zeros are dropped.
unfoldable pub drop_zeros : List ℕ → List ℕ
drop_zeros [] = []
drop_zeros (c ∷ s) = let kept = drop_zeros s in if is_empty kept && (c == 48) then [] else c ∷ kept

unfoldable pub frac_text : ℤ → ℕ → List ℕ
frac_text frac width = if is_zero frac then [] else drop_zeros (46 ∷ format_padded width frac)

-- Hours, minutes and seconds of `t`, with `unit` ticks in a second, and then the fraction.
unfoldable pub clock : ℕ → ℕ → ℤ → List ℕ
clock unit width t =
    let within_hour = rem t (3600 * unit) in
    let within_minute = rem within_hour (60 * unit) in
    format_padded 2 (quot t (3600 * unit))
    ++ (58
        ∷ (format_padded 2 (quot within_hour (60 * unit))
            ++ (58
                ∷ (format_padded 2 (quot within_minute unit)
                    ++ frac_text (rem within_minute unit) width))))

abbrev pub time_text : ℕ → List ℕ
time_text t = clock 1000000 6 (signed (2 ^ 63) t)

abbrev pub time_ns_text : ℕ → List ℕ
time_ns_text t = clock 1000000000 9 (signed (2 ^ 63) t)

-- `-v` on an int64 or int32, where the least number has no negation.
unfoldable pub negate : ℕ → ℕ → ℕ
negate half v = (2 * half - v) % (2 * half)

unfoldable pub offset_part : ℤ → List ℕ
offset_part z = if is_zero z then [] else 58 ∷ format_padded 2 z

unfoldable pub time_tz_text : ℕ → ℕ → List ℕ
time_tz_text micros offset =
    let below = is_negative (signed (2 ^ 31) offset) in
    let off = signed (2 ^ 31) (if below then negate (2 ^ 31) offset else offset) in
    time_text micros
    ++ ((if below then 45 else 43)
        ∷ (format_padded 2 (quot off 3600)
            ++ (offset_part (rem (quot off 60) 60) ++ offset_part (rem off 60))))

-- The closure `part` of Interval.String.
unfoldable pub interval_part : ℤ → List ℕ → List ℕ → List ℕ
interval_part v unit s =
    if is_zero v
    then s
    else (if is_empty s then s else s ++ (32 ∷ []))
      ++ (format_int v ++ (32 ∷ (unit ++ (if magnitude v == 1 then [] else 115 ∷ []))))

unfoldable pub interval_dates : ℕ → ℕ → List ℕ
interval_dates months days = interval_part (signed (2 ^ 31) days) (codes "day") (
    interval_part (rem (signed (2 ^ 31) months) 12) (codes "month")
      (interval_part (quot (signed (2 ^ 31) months) 12) (codes "year") []))

unfoldable pub interval_text : ℕ → ℕ → ℕ → List ℕ
interval_text months days micros =
    let s = interval_dates months days in
    let below = is_negative (signed (2 ^ 63) micros) in
    let us = signed (2 ^ 63) (if below then negate (2 ^ 63) micros else micros) in
    if micros == 0
    then if is_empty s then codes "00:00:00" else s
    else (if is_empty s then s else s ++ (32 ∷ []))
      ++ ((if below then 45 ∷ [] else []) ++ clock 1000000 6 us)

abbrev pub hex_digit : ℕ → ℕ
hex_digit n = if ltb n 10 then 48 + n else 87 + n

-- A dash stands before the bytes 4, 6, 8 and 10.
unfoldable pub uuid_from : ℕ → List ℕ → List ℕ
uuid_from i [] = []
uuid_from i (b ∷ u) =
    let rest = hex_digit (b / 16) ∷ (hex_digit (b % 16) ∷ uuid_from (i + 1) u) in
    if (i == 4) || ((i == 6) || ((i == 8) || (i == 10))) then 45 ∷ rest else rest

abbrev pub uuid_text : List ℕ → List ℕ
uuid_text u = uuid_from 0 u

-- Struct.Field
unfoldable pub field : List ℕ → Entries → Option Value
field name no_entries = none
field name (entry k v es) = if bytes_eq k name then some v else field name es
