-- ===== src/Qser/Writer.antt =====
-- The `Writer` of internal/qser/qser.go. An int64 is its 64-bit pattern.
use duckcall.Base.{
  ℕ, zero, suc, ◌+◌, ◌-◌, ◌/◌, ◌^◌, Bool, not, ◌&&◌, ◌||◌, Option, none, some, List, [], ◌∷◌, ◌++◌,
  length, ltb, ◌==◌, if◌then◌else◌, bit_and, bit_or,
}
use duckcall.Qser.Varint.{append_uvarint, id_bytes}
use duckcall.Qser.Reader.{Hugeint, end_id}

pub record Writer : Type 0 where
  pub buf : List ℕ

-- `var w qser.Writer`
abbrev pub new_writer : Writer
new_writer = record { buf = [] }

-- A loop that runs out of fuel would leave the buffer; `Qser.Bytes` shows that none does.
abbrev appended : Writer → Option (List ℕ) → Writer
appended w none = w
appended w (some b) = record { buf = b }

unfoldable pub put_raw : List ℕ → Writer → Writer
put_raw b w = record { buf = w.buf ++ b }

unfoldable pub put_field : ℕ → Writer → Writer
put_field id w = record { buf = w.buf ++ id_bytes id }

unfoldable pub put_end : Writer → Writer
put_end = put_field end_id

unfoldable pub put_uvarint : ℕ → Writer → Writer
put_uvarint v w = appended w (append_uvarint 10 w.buf v)

-- `v >> 7` on an int64 repeats the sign bit.
unfoldable pub shift_right : ℕ → ℕ
shift_right v = if ltb v (2 ^ 63) then v / 128 else v / 128 + (2 ^ 64 - 2 ^ 57)

-- The pattern of -1.
abbrev pub minus_one : ℕ
minus_one = 2 ^ 64 - 1

-- The loop of `Svarint`, with fuel; ten rounds serve every int64 (`Qser.Bytes.append_svarint_ends`).
unfoldable pub append_svarint : ℕ → List ℕ → ℕ → Option (List ℕ)
unfolding shift_right
append_svarint zero buf v = none
append_svarint (suc fuel) buf v =
    let b = bit_and v 0x7f in
    let v' = shift_right v in
    let more = append_svarint fuel (buf ++ (bit_or b 0x80 ∷ [])) v' in
    if ((v' == 0) && (bit_and b 0x40 == 0)) || ((v' == minus_one) && not (bit_and b 0x40 == 0))
    then some (buf ++ (b ∷ []))
    else more

unfoldable pub put_svarint : ℕ → Writer → Writer
put_svarint v w = appended w (append_svarint 10 w.buf v)

unfoldable pub put_bool : Bool → Writer → Writer
put_bool b w = if b then record { buf = w.buf ++ (1 ∷ []) } else record { buf = w.buf ++ (0 ∷ []) }

unfoldable pub put_bytes : List ℕ → Writer → Writer
put_bytes b w = put_raw b (put_uvarint (length b) w)

unfoldable pub put_string : List ℕ → Writer → Writer
put_string s = put_bytes s

unfoldable pub put_hugeint : Hugeint → Writer → Writer
put_hugeint h w = put_uvarint h.lower (put_svarint h.upper w)

unfoldable pub put_field_uvarint : ℕ → ℕ → Writer → Writer
put_field_uvarint id v w = put_uvarint v (put_field id w)

unfoldable pub put_field_svarint : ℕ → ℕ → Writer → Writer
put_field_svarint id v w = put_svarint v (put_field id w)

unfoldable pub put_field_bool : ℕ → Bool → Writer → Writer
put_field_bool id b w = put_bool b (put_field id w)

unfoldable pub put_field_string : ℕ → List ℕ → Writer → Writer
put_field_string id s w = put_string s (put_field id w)

unfoldable pub put_field_bytes : ℕ → List ℕ → Writer → Writer
put_field_bytes id b w = put_bytes b (put_field id w)

unfoldable pub put_field_hugeint : ℕ → Hugeint → Writer → Writer
put_field_hugeint id h w = put_hugeint h (put_field id w)
