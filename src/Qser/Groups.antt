-- ===== src/Qser/Groups.antt =====
-- The two varint readers in front of what the two varint writers append.
use duckcall.Base.{
  ℕ, zero, suc, ◌+◌, ◌-◌, ◌*◌, ◌/◌, ◌%◌, ◌^◌, ◌≤◌, ◌<◌, ◌≡◌, refl, ap, subst, List, [], ◌∷◌, ◌++◌,
  true, false, ltb, ◌==◌, if◌then◌else◌, length, bit_and, append_assoc, arith,
}
use duckcall.Base.Bits.{
  low_seven, top_bit, or_above, ones_shifted, ones_above, group_shifted, sign_bit, pow_bound,
}
use duckcall.Qser.Varint.{IsU64, found, uvarint_scan}
use duckcall.Qser.Reader.{uvarint, svarint, svarint_loop, add_group, sign_extend}
use duckcall.Qser.Writer.{shift_right}
use duckcall.Qser.Bytes.{
  uvarint_bytes, svarint_bytes, FitsGroups, IsU64-FitsGroups, is_last, shift_right-FitsGroups,
}
use duckcall.Qser.At.{at, guarded-at, rest-at, remaining-at, advance-at, byte_at-at}
use native.Mathlib.Numerals.{towards_suc}
use native.Mathlib.Nat.{div-add-mod}

shift_seven : (s : ℕ) → 2 ^ (s + 7) ≡ 128 * 2 ^ s
shift_seven s = simp towards_suc (omega arith)

-- A word shifted by `s`, taken apart into its lowest group and what is above.
group_split : (v s : ℕ) → v * 2 ^ s ≡ v % 128 * 2 ^ s + v / 128 * 2 ^ (s + 7)
group_split v s = omega (
  arith,
  ap (λ (t : ℕ). t * 2 ^ s) (div-add-mod v 128),
  ap (λ (t : ℕ). v / 128 * t) (shift_seven s),
)

last_round_small : (v s x : ℕ) → s ≡ 63 → x + v * 2 ^ s < 2 ^ 64 → v ≤ 1
last_round_small v s x e h =
    let h' : x + v * 2 ^ 63 < 2 ^ 64 = subst (λ (t : ℕ). x + v * 2 ^ t < 2 ^ 64) e h in omega arith

scan_last :
    (v i x s : ℕ) (more : List ℕ)
    → v < 128
    → i ≤ 9
    → s ≡ 7 * i
    → x < 2 ^ s
    → x + v * 2 ^ s < 2 ^ 64
    → uvarint_scan (v ∷ more) i x s ≡ found (x + v * 2 ^ s) (i + 1)
unfolding uvarint_scan
scan_last v i x s more hv hi hs hx fits = ground (arith, or_above s x v hx, last_round_small v s x)

scan_inner :
    (g i x s : ℕ) (more : List ℕ)
    → g < 128
    → i ≤ 8
    → x < 2 ^ s
    → x + g * 2 ^ s < 2 ^ 64
    → uvarint_scan ((g + 128) ∷ more) i x s ≡ uvarint_scan more (i + 1) (x + g * 2 ^ s) (s + 7)
unfolding uvarint_scan
scan_inner g i x s more hg hi hx fits = ground (arith, or_above s x g hx, low_seven (g + 128))

scan-uvarint_bytes :
    (k v i x s : ℕ) (more : List ℕ)
    → v < 128 ^ suc k
    → i + k ≤ 9
    → s ≡ 7 * i
    → x < 2 ^ s
    → x + v * 2 ^ s < 2 ^ 64
    → uvarint_scan (uvarint_bytes k v ++ more) i x s
      ≡ found (x + v * 2 ^ s) (i + length (uvarint_bytes k v))
unfolding uvarint_bytes
scan-uvarint_bytes zero v i x s more hv hi hs hx fits =
    scan_last v i x s more hv (omega arith) hs hx fits
scan-uvarint_bytes (suc k) v i x s more hv hi hs hx fits = ground (
  arith,
  scan_last v i x s more,
  group_split v s,
  shift_seven s,
  group_room,
  scan_inner (v % 128) i x s (uvarint_bytes k (v / 128) ++ more),
  scan-uvarint_bytes k (v / 128) (i + 1) (x + v % 128 * 2 ^ s) (s + 7) more,
)
  where
    group_room : v % 128 * 2 ^ s ≤ 127 * 2 ^ s
    group_room = grind arith

pub uvarint-at :
    (v : ℕ) (pre more : List ℕ)
    → IsU64 v
    → uvarint (at pre (uvarint_bytes 9 v ++ more)) ≡ (v, at (pre ++ uvarint_bytes 9 v) more)
unfolding uvarint
uvarint-at v pre more h =
    rw
      (
        guarded-at,
        rest-at,
        scan-uvarint_bytes 9 v 0 0 0 more (omega arith) (omega arith) (omega arith) (omega arith)
            (omega arith),
      )
      (ground (arith, advance-at pre (uvarint_bytes 9 v) more (0 + length (uvarint_bytes 9 v))))

-- One round of the loop of `Svarint` in front of a byte.
pub svarint_round :
    (left v shift b : ℕ) (pre more : List ℕ)
    → svarint_loop (suc left) v shift (at pre (b ∷ more)) ≡ (
        if bit_and b 0x80 == 0
        then (sign_extend (add_group v b shift) b (shift + 7), at (pre ++ (b ∷ [])) more)
        else svarint_loop left (add_group v b shift) (shift + 7) (at (pre ++ (b ∷ [])) more))
unfolding svarint_loop
svarint_round left v shift b pre more =
    simp (remaining-at, byte_at-at, advance-at pre (b ∷ []) more 1 refl) (rw not_empty)
  where
    not_empty : (length (b ∷ more) == 0) ≡ false
    not_empty = ground arith

-- A group at shift `s` adds what stays below bit 64.
add_group-below :
    (v b s : ℕ) → b < 256 → s < 64 → v < 2 ^ s → add_group v b s ≡ (v + b % 128 * 2 ^ s) % 2 ^ 64
unfolding add_group
add_group-below v b s hb hs hv =
    ground
      (arith, low_seven b hb, group_shifted s (b % 128), or_above s v (b % 128 % 2 ^ (64 - s)) hv)

sign_extend-below :
    (v b s : ℕ)
    → b < 256
    → s < 64
    → v < 2 ^ s
    → sign_extend v b s ≡ (if ltb (b % 128) 64 then v else v + (2 ^ 64 - 2 ^ s))
unfolding sign_extend
sign_extend-below v b s hb hs hv =
    ground
      (arith, sign_bit b hb, ones_shifted s hs, ones_above s hs, or_above s v (2 ^ (64 - s) - 1) hv)

-- The value of the word `v` from bit `s` on, above what has been read.
abbrev pub joined : ℕ → ℕ → ℕ → ℕ
joined acc v s = (acc + v * 2 ^ s) % 2 ^ 64

group_bound : (g s : ℕ) → g < 128 → g * 2 ^ s ≤ 127 * 2 ^ s
group_bound g s h = grind arith

-- The last group of a word that ends below bit 64.
ends_below :
    (acc v s : ℕ)
    → IsU64 v
    → s ≤ 56
    → acc < 2 ^ s
    → is_last v ≡ true
    → sign_extend (add_group acc (v % 128) s) (v % 128) (s + 7) ≡ joined acc v s
unfolding is_last
ends_below acc v s hv hs ha last = ground (
  arith,
  add_group-below acc (v % 128) s,
  sign_extend-below (add_group acc (v % 128) s) (v % 128) (s + 7),
  shift_seven s,
  pow_bound s hs,
  group_bound (v % 128) s,
  negative,
)
  where
    negative : 2 ^ 64 - 64 ≤ v → v * 2 ^ s ≡ v % 128 * 2 ^ s + (2 ^ 64 - 128) * 2 ^ s
    negative h =
        let e : v ≡ v % 128 + (2 ^ 64 - 128) = omega arith in
        omega (arith, ap (λ (t : ℕ). t * 2 ^ s) e)

-- The last group of a word that ends at the top.
ends_at_top :
    (acc v : ℕ)
    → IsU64 v
    → acc < 2 ^ 63
    → FitsGroups 0 v
    → sign_extend (add_group acc (v % 128) 63) (v % 128) 70 ≡ joined acc v 63
unfolding sign_extend
ends_at_top acc v hv ha fits = omega (arith, add_group-below acc (v % 128) 63)

goes_on :
    (acc v s : ℕ)
    → IsU64 v
    → joined (acc + v % 128 * 2 ^ s) (shift_right v) (s + 7) ≡ joined acc v s
unfolding shift_right
goes_on acc v s hv = ground (arith, group_split v s, shift_seven s, negative)
  where
    negative :
        (v / 128 + (2 ^ 64 - 2 ^ 57)) * 2 ^ (s + 7) ≡ v / 128 * 2 ^ (s + 7) + 2 ^ 64 * (127 * 2 ^ s)
    negative = omega (arith, ap (λ (t : ℕ). (2 ^ 64 - 2 ^ 57) * t) (shift_seven s))

-- The tenth round, which leaves no room for a group but only for the sign.
tenth_round :
    (v acc : ℕ) (pre more : List ℕ)
    → FitsGroups 0 v
    → acc < 2 ^ 63
    → svarint_loop 1 acc 63 (at pre (v % 128 ∷ more))
      ≡ (joined acc v 63, at (pre ++ (v % 128 ∷ [])) more)
tenth_round v acc pre more fits ha = ground (
  arith,
  svarint_round 0 acc 63 (v % 128) pre more,
  top_bit (v % 128),
  ends_at_top acc v fits.0 ha fits,
)

svarint_loop-bytes :
    (k v acc s : ℕ) (pre more : List ℕ)
    → FitsGroups k v
    → s + 7 * k ≡ 63
    → acc < 2 ^ s
    → svarint_loop (suc k) acc s (at pre (svarint_bytes k v ++ more))
      ≡ (joined acc v s, at (pre ++ svarint_bytes k v) more)
unfolding svarint_bytes
svarint_loop-bytes zero v acc s pre more fits hs ha =
    let e : s ≡ 63 = omega arith in
    rw e (tenth_round v acc pre more fits (subst (λ (t : ℕ). acc < 2 ^ t) e ha))
svarint_loop-bytes (suc k) v acc s pre more fits hs ha =
    let next : List ℕ = (v % 128 + 128) ∷ [] in
    ground (
      arith,
      svarint_round (suc k) acc s (v % 128) pre more,
      svarint_round (suc k) acc s (v % 128 + 128) pre (svarint_bytes k (shift_right v) ++ more),
      top_bit (v % 128),
      top_bit (v % 128 + 128),
      ends_below acc v s,
      goes_on acc v s,
      add_group-below acc (v % 128 + 128) s,
      shift_seven s,
      pow_bound s,
      group_bound (v % 128) s,
      shift_right-FitsGroups k v fits,
      append_assoc pre next (svarint_bytes k (shift_right v)),
      svarint_loop-bytes k (shift_right v) (acc + v % 128 * 2 ^ s) (s + 7) (pre ++ next) more,
    )

pub svarint-at :
    (v : ℕ) (pre more : List ℕ)
    → IsU64 v
    → svarint (at pre (svarint_bytes 9 v ++ more)) ≡ (v, at (pre ++ svarint_bytes 9 v) more)
unfolding svarint
svarint-at v pre more h =
    rw (guarded-at, svarint_loop-bytes 9 v 0 0 pre more (IsU64-FitsGroups v h) refl (omega arith))
      (ground arith)
