-- ===== src/Qser/Unfinished.antt =====
-- The two varint readers on input that never ends a number.
use duckcall.Base.{
  ℕ, zero, suc, ◌+◌, ◌*◌, ◌%◌, ◌^◌, ◌≤◌, ◌<◌, ◌≡◌, refl, List, [], ◌∷◌, ◌++◌, some, ltb,
  if◌then◌else◌, length, All, bit_and, bit_or, arith,
}
use duckcall.Base.Bits.{top_bit}
use duckcall.Qser.Varint.{short, wide, uvarint_scan}
use duckcall.Qser.Reader.{
  Error, truncated, overflow, uvarint, svarint, svarint_loop, fail, add_group, new_reader,
}
use duckcall.Qser.At.{at, guarded-at, rest-at, remaining-at}
use duckcall.Qser.Groups.{svarint_round}
use duckcall.Qser.Optional.{new_reader-at}

-- Bytes that say that the number goes on.
abbrev pub GoesOn : ℕ → Type 0
GoesOn b = (128 ≤ b) × (b < 256)

pub fail-at : (e : Error) (pre bs : List ℕ) → (fail e (at pre bs)).err ≡ some e
unfolding fail at
fail-at e pre bs = refl

scan_unfinished :
    (bs : List ℕ) (i x s : ℕ)
    → i ≤ 10
    → All GoesOn bs
    → uvarint_scan bs i x s ≡ (if ltb (i + length bs) 11 then short else wide)
unfolding uvarint_scan
scan_unfinished [] i x s hi h = ground arith
scan_unfinished (b ∷ bs) i x s hi h =
    ground (arith, scan_unfinished bs (i + 1) (bit_or x (bit_and b 0x7f * 2 ^ s % 2 ^ 64)) (s + 7))

loop_unfinished :
    (left v s : ℕ) (pre bs : List ℕ)
    → All GoesOn bs
    → ((svarint_loop left v s (at pre bs)).0 ≡ 0)
      × ((svarint_loop left v s (at pre bs)).1.err
          ≡ some (if ltb left (length bs) then overflow else truncated))
unfolding svarint_loop
loop_unfinished zero v s pre [] h = rw (remaining-at, fail-at) (refl, refl)
loop_unfinished zero v s pre (b ∷ bs) h =
    ground (arith, remaining-at pre (b ∷ bs), fail-at overflow pre (b ∷ bs))
loop_unfinished (suc left) v s pre [] h =
    ground (arith, remaining-at pre [], fail-at truncated pre [])
loop_unfinished (suc left) v s pre (b ∷ bs) h =
    rw svarint_round (
      ground
        (arith, top_bit b, loop_unfinished left (add_group v b s) (s + 7) (pre ++ (b ∷ [])) bs))

-- On bytes that all have the top bit set both varint readers fail and give 0: with ErrTruncated up to
-- ten bytes, with ErrOverflow from eleven on.
pub varint_unfinished :
    (bs : List ℕ)
    → All GoesOn bs
    → let cause = if ltb (length bs) 11 then truncated else overflow in
      ((uvarint (new_reader bs)).0 ≡ 0)
      × ((uvarint (new_reader bs)).1.err ≡ some cause)
      × ((svarint (new_reader bs)).0 ≡ 0)
      × ((svarint (new_reader bs)).1.err ≡ some cause)
unfolding uvarint svarint
varint_unfinished bs h =
    rw (new_reader-at, guarded-at, guarded-at, rest-at, scan_unfinished bs 0 0 0 (omega arith) h)
      (ground
        (arith, loop_unfinished 10 0 0 [] bs h, fail-at truncated [] bs, fail-at overflow [] bs))
