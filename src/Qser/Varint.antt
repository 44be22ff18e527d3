-- ===== src/Qser/Varint.antt =====
-- The functions of Go's encoding/binary that internal/qser/qser.go calls. Bytes are numbers below
-- 256, and a uint64 is a number below 2 ^ 64.
use duckcall.Base.{
  ℕ, zero, suc, ◌+◌, ◌*◌, ◌/◌, ◌%◌, ◌^◌, ◌<◌, Option, none, some, List, [], ◌∷◌, ◌++◌, ltb, ◌==◌,
  ◌&&◌, if◌then◌else◌, bit_and, bit_or,
}

abbrev pub IsU64 : ℕ → Type 0
IsU64 v = v < 2 ^ 64

-- The (value, n) of `binary.Uvarint`: n > 0 bytes read, n = 0, or n < 0.
pub data Scan : Type 0 where
  found : ℕ → ℕ → Scan
  short wide : Scan

-- The loop of `binary.Uvarint` at byte `i`, with the value `x` so far and its shift `s`.
unfoldable pub uvarint_scan : List ℕ → ℕ → ℕ → ℕ → Scan
uvarint_scan [] i x s = short
uvarint_scan (b ∷ bs) i x s =
    let more = uvarint_scan bs (i + 1) (bit_or x (bit_and b 0x7f * 2 ^ s % 2 ^ 64)) (s + 7) in
    if i == 10
    then wide
    else if ltb b 128
    then (if (i == 9) && ltb 1 b then wide else found (bit_or x (b * 2 ^ s % 2 ^ 64)) (i + 1))
    else more

-- `binary.AppendUvarint`, with fuel for its loop; ten rounds serve every uint64
-- (`Qser.Bytes.append_uvarint_ends`).
unfoldable pub append_uvarint : ℕ → List ℕ → ℕ → Option (List ℕ)
append_uvarint zero buf x = none
append_uvarint (suc fuel) buf x =
    let more = append_uvarint fuel (buf ++ (bit_or (x % 256) 0x80 ∷ [])) (x / 128) in
    if ltb x 128 then some (buf ++ (x ∷ [])) else more

-- `binary.LittleEndian.Uint16`, and `AppendUint16`.
unfoldable pub uint16 : List ℕ → ℕ
uint16 (a ∷ b ∷ bs) = a + b * 256
uint16 _ = 0

abbrev pub id_bytes : ℕ → List ℕ
id_bytes id = id % 256 ∷ id / 256 % 256 ∷ []
