-- ===== src/Qser/Bytes.antt =====
-- The bytes that the writer's two varint loops append, as recursions on the groups of seven bits, and
-- the fuel of the loops.
use duckcall.Base.{
  ℕ, zero, suc, ◌+◌, ◌-◌, ◌*◌, ◌/◌, ◌%◌, ◌^◌, ◌≤◌, ◌<◌, ◌≡◌, refl, ap, ◌⊎◌, List, [], ◌∷◌, ◌++◌,
  Bool, some, ltb, ◌==◌, ◌&&◌, ◌||◌, not, if◌then◌else◌, length, bit_and, bit_or, append_assoc,
  arith,
}
use duckcall.Base.Bits.{low_group, more_bit, sign_bit}
use duckcall.Qser.Varint.{IsU64, append_uvarint}
use duckcall.Qser.Writer.{append_svarint, shift_right, minus_one}

-- At most k + 1 groups, lowest first, the top bit set on all but the last.
unfoldable pub uvarint_bytes : ℕ → ℕ → List ℕ
uvarint_bytes zero v = v ∷ []
uvarint_bytes (suc k) v = if ltb v 128 then v ∷ [] else (v % 128 + 128) ∷ uvarint_bytes k (v / 128)

-- The group `v % 128` is the last one if nothing but its sign is left above it.
unfoldable pub is_last : ℕ → Bool
is_last v = ltb v 64 || not (ltb v (2 ^ 64 - 64))

unfoldable pub svarint_bytes : ℕ → ℕ → List ℕ
svarint_bytes zero v = v % 128 ∷ []
svarint_bytes (suc k) v =
    if is_last v then v % 128 ∷ [] else (v % 128 + 128) ∷ svarint_bytes k (shift_right v)

marked_group : (v : ℕ) → bit_or (v % 256) 0x80 ≡ v % 128 + 128
marked_group v = omega (arith, more_bit (v % 256) (omega arith))

pub append_uvarint_ends :
    (k : ℕ) (buf : List ℕ) (v : ℕ)
    → v < 128 ^ suc k
    → append_uvarint (suc k) buf v ≡ some (buf ++ uvarint_bytes k v)
unfolding append_uvarint uvarint_bytes
append_uvarint_ends zero buf v h = ground arith
append_uvarint_ends (suc k) buf v h =
    let next : List ℕ = (v % 128 + 128) ∷ [] in
    ground (
      arith,
      marked_group v,
      append_uvarint_ends k (buf ++ next) (v / 128),
      append_assoc buf next (uvarint_bytes k (v / 128)),
    )

-- What an int64 pattern has left after its groups up to k: k * 7 + 6 bits and a sign.
abbrev pub FitsGroups : ℕ → ℕ → Type 0
FitsGroups k v = (v < 2 ^ 64) × ((v < 64 * 128 ^ k) ⊎ (2 ^ 64 ≤ v + 64 * 128 ^ k))

pub IsU64-FitsGroups : (v : ℕ) → IsU64 v → FitsGroups 9 v
IsU64-FitsGroups v h = omega arith

pub shift_right-FitsGroups : (k v : ℕ) → FitsGroups (suc k) v → FitsGroups k (shift_right v)
unfolding shift_right
shift_right-FitsGroups k v h = ground arith

-- The test of the writer's loop, on a word.
last_test : ℕ → Bool
last_test v =
    let b = bit_and v 0x7f in
    ((shift_right v == 0) && (bit_and b 0x40 == 0))
    || ((shift_right v == minus_one) && not (bit_and b 0x40 == 0))

last_test-is_last : (v : ℕ) → IsU64 v → last_test v ≡ is_last v
unfolding last_test is_last shift_right
last_test-is_last v h = ground (arith, low_group v, sign_bit (v % 128))

group_marked : (v : ℕ) → bit_or (bit_and v 0x7f) 0x80 ≡ v % 128 + 128
group_marked v = omega (
  arith,
  low_group v,
  more_bit (v % 128) (omega arith),
  ap (λ (t : ℕ). bit_or t 0x80) (low_group v),
)

append_svarint_step :
    (fuel : ℕ) (buf : List ℕ) (v : ℕ)
    → append_svarint (suc fuel) buf v ≡ (
        if last_test v
        then some (buf ++ (bit_and v 0x7f ∷ []))
        else append_svarint fuel (buf ++ (bit_or (bit_and v 0x7f) 0x80 ∷ [])) (shift_right v))
unfolding append_svarint last_test
append_svarint_step fuel buf v = refl

pub append_svarint_ends :
    (k : ℕ) (buf : List ℕ) (v : ℕ)
    → FitsGroups k v
    → append_svarint (suc k) buf v ≡ some (buf ++ svarint_bytes k v)
unfolding svarint_bytes is_last
append_svarint_ends zero buf v h =
    ground (arith, append_svarint_step 0 buf v, last_test-is_last v, low_group v)
append_svarint_ends (suc k) buf v h =
    let next : List ℕ = (v % 128 + 128) ∷ [] in
    ground (
      arith,
      append_svarint_step (suc k) buf v,
      last_test-is_last v,
      low_group v,
      group_marked v,
      append_svarint_ends k (buf ++ next) (shift_right v),
      shift_right-FitsGroups k v,
      append_assoc buf next (svarint_bytes k (shift_right v)),
    )

-- Both encodings have 1 to 10 bytes.
pub length-uvarint_bytes :
    (k v : ℕ) → (1 ≤ length (uvarint_bytes k v)) × (length (uvarint_bytes k v) ≤ k + 1)
unfolding uvarint_bytes
length-uvarint_bytes zero v = omega arith
length-uvarint_bytes (suc k) v = ground (arith, length-uvarint_bytes k (v / 128))

pub length-svarint_bytes :
    (k v : ℕ) → (1 ≤ length (svarint_bytes k v)) × (length (svarint_bytes k v) ≤ k + 1)
unfolding svarint_bytes
length-svarint_bytes zero v = omega arith
length-svarint_bytes (suc k) v = ground (arith, length-svarint_bytes k (shift_right v))
