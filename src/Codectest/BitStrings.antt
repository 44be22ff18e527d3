-- ===== src/Codectest/BitStrings.antt =====
-- bitBlob of codec/codectest/codectest.go against bitString of codec/chunk.go.
use native.Mathlib.Nat.{div-div-eq-div-mul}
use duckcall.Base.{
  ℕ, zero, suc, ◌+◌, ◌-◌, ◌*◌, ◌/◌, ◌%◌, ◌^◌, ◌≤◌, ◌≡◌, refl, ap, ◌∙◌, sym, subst, true, false,
  List, [], ◌∷◌, ◌++◌, some, ok, ltb, length, take, drop, arith, length-take, length-drop,
}
use duckcall.Codec.Cells.{byte_bits, all_bits, bit_string}
use duckcall.Codectest.VectorWriter.{
  is_bit, bits_byte, pack_bits, are_bits, ones, padding_of, bit_blob,
}

-- The two halves of the test of a nonempty list.
first_bit :
    (c : ℕ) (cs : List ℕ) → are_bits (c ∷ cs) ≡ true → (48 ≤ c) × (c ≤ 49) × (are_bits cs ≡ true)
unfolding are_bits is_bit
first_bit c cs h = (ground arith, ground arith, ground arith)

double : (n : ℕ) → 2 ^ n * 2 ≡ 2 ^ suc n
double n = omega arith

-- Writing the bits of cs below acc leaves acc above them.
bits_byte-top :
    (acc : ℕ) (cs : List ℕ) → are_bits cs ≡ true → bits_byte acc cs / 2 ^ length cs ≡ acc
unfolding bits_byte
bits_byte-top acc [] h = omega arith
bits_byte-top acc (c ∷ cs) h =
    let (low, high, bits) = first_bit c cs h in
    let next = 2 * acc + (c - 48) in
    subst (λ d. bits_byte next cs / d ≡ acc) (double (length cs))
      (sym (div-div-eq-div-mul (bits_byte next cs) (2 ^ length cs) 2)
        ∙ omega (arith, bits_byte-top next cs bits))

byte_bits-bits_byte :
    (acc : ℕ) (cs : List ℕ) → are_bits cs ≡ true → byte_bits (length cs) (bits_byte acc cs) ≡ cs
unfolding byte_bits bits_byte
byte_bits-bits_byte acc [] h = refl
byte_bits-bits_byte acc (c ∷ cs) h =
    let (low, high, bits) = first_bit c cs h in
    let next = 2 * acc + (c - 48) in
    let digit : 48 + bits_byte next cs / 2 ^ length cs % 2 ≡ c =
      omega (arith, bits_byte-top next cs bits, low, high) in
    rw (digit, byte_bits-bits_byte next cs bits)

take-are_bits : (n : ℕ) (cs : List ℕ) → are_bits cs ≡ true → are_bits (take n cs) ≡ true
unfolding are_bits
take-are_bits zero cs h = refl
take-are_bits (suc n) [] h = refl
take-are_bits (suc n) (c ∷ cs) h = ground (arith, take-are_bits n cs)

drop-are_bits : (n : ℕ) (cs : List ℕ) → are_bits cs ≡ true → are_bits (drop n cs) ≡ true
unfolding are_bits
drop-are_bits zero cs h = h
drop-are_bits (suc n) [] h = refl
drop-are_bits (suc n) (c ∷ cs) h = ground (arith, drop-are_bits n cs)

pieces_join : (n : ℕ) (cs : List ℕ) → take n cs ++ drop n cs ≡ cs
pieces_join zero cs = refl
pieces_join (suc n) [] = refl
pieces_join (suc n) (c ∷ cs) = ap (◌∷◌ c) (pieces_join n cs)

-- A piece of n bits of the list.
piece :
    (n acc : ℕ) (cs : List ℕ)
    → are_bits cs ≡ true
    → n ≤ length cs
    → byte_bits n (bits_byte acc (take n cs)) ≡ take n cs
piece n acc cs h long =
    subst (λ k. byte_bits k (bits_byte acc (take n cs)) ≡ take n cs) (length-take n cs long)
      (byte_bits-bits_byte acc (take n cs) (take-are_bits n cs h))

all_bits-pack_bits :
    (n : ℕ) (cs : List ℕ) → are_bits cs ≡ true → length cs ≡ n * 8 → all_bits (pack_bits n cs) ≡ cs
unfolding all_bits pack_bits
all_bits-pack_bits zero [] h e = refl
all_bits-pack_bits zero (c ∷ cs) h e = absurd (omega arith)
all_bits-pack_bits (suc n) cs h e = rw (
  piece 8 0 cs h (omega arith),
  all_bits-pack_bits n (drop 8 cs) (drop-are_bits 8 cs h) (omega (arith, length-drop 8 cs)),
  pieces_join 8 cs,
)

bits_byte-append :
    (acc : ℕ) (xs ys : List ℕ) → bits_byte acc (xs ++ ys) ≡ bits_byte (bits_byte acc xs) ys
unfolding bits_byte
bits_byte-append acc [] ys = refl
bits_byte-append acc (x ∷ xs) ys = bits_byte-append (2 * acc + (x - 48)) xs ys

suc_add : (p k : ℕ) → suc p + k ≡ suc (p + k)
suc_add p k = omega arith

take-ones : (p k : ℕ) (cs : List ℕ) → take (p + k) (ones p ++ cs) ≡ ones p ++ take k cs
unfolding ones
take-ones zero k cs = ap (λ j. take j cs) (omega arith)
take-ones (suc p) k cs =
    ap (λ j. take j (ones (suc p) ++ cs)) (suc_add p k) ∙ ap (◌∷◌ 49) (take-ones p k cs)

drop-ones : (p k : ℕ) (cs : List ℕ) → drop (p + k) (ones p ++ cs) ≡ drop k cs
unfolding ones
drop-ones zero k cs = ap (λ j. drop j cs) (omega arith)
drop-ones (suc p) k cs = ap (λ j. drop j (ones (suc p) ++ cs)) (suc_add p k) ∙ drop-ones p k cs

-- The bytes behind the padding count give the bits back.
packed :
    (p n : ℕ) (s : List ℕ)
    → are_bits s ≡ true
    → p ≤ 7
    → length s + p ≡ (n + 1) * 8
    → bit_string (p ∷ pack_bits (suc n) (ones p ++ s)) ≡ ok s
unfolding bit_string pack_bits
packed p n s h small e =
    let split : 8 ≡ p + (8 - p) = omega arith in
    let first : bits_byte 0 (take 8 (ones p ++ s))
        ≡ bits_byte (bits_byte 0 (ones p)) (take (8 - p) s) =
      ap (λ j. bits_byte 0 (take j (ones p ++ s))) split
      ∙ ap (bits_byte 0) (take-ones p (8 - p) s)
      ∙ bits_byte-append 0 (ones p) (take (8 - p) s) in
    let others : drop 8 (ones p ++ s) ≡ drop (8 - p) s =
      ap (λ j. drop j (ones p ++ s)) split ∙ drop-ones p (8 - p) s in
    let small' : ltb 7 p ≡ false = ground arith in
    rw (
      small',
      first,
      others,
      piece (8 - p) (bits_byte 0 (ones p)) s h (omega arith),
      all_bits-pack_bits n (drop (8 - p) s) (drop-are_bits (8 - p) s h)
          (omega (arith, length-drop (8 - p) s)),
      pieces_join (8 - p) s,
    )

no_bits : bit_string (0 ∷ []) ≡ ok []
unfolding bit_string
no_bits = refl

pack_bits-length : (n : ℕ) (cs : List ℕ) → length (pack_bits n cs) ≡ n
unfolding pack_bits
pack_bits-length zero cs = refl
pack_bits-length (suc n) cs = ap suc (pack_bits-length n (drop 8 cs))

-- A text of bits packs into bytes which print it again.
pub bit_string-bit_blob :
    (s : List ℕ)
    → are_bits s ≡ true
    → (b : List ℕ) × (bit_blob s ≡ some b) × (bit_string b ≡ ok s) × (length b ≤ suc (length s))
unfolding bit_blob
bit_string-bit_blob [] h = (0 ∷ [], refl, no_bits, omega arith)
bit_string-bit_blob (c ∷ cs) h =
    let s = c ∷ cs in
    let p = padding_of s in
    let n = (length s + p) / 8 - 1 in
    let count : (length s + p) / 8 ≡ suc n = omega arith in
    (
      p ∷ pack_bits (suc n) (ones p ++ s),
      rw h (ap (λ k. some (p ∷ pack_bits k (ones p ++ s))) count),
      packed p n s h (omega arith) (omega arith),
      omega (arith, pack_bits-length (suc n) (ones p ++ s)),
    )
