-- ===== src/Qser/Reader.antt =====
-- The `Reader` of internal/qser/qser.go. A method takes the reader and returns its value with the
-- reader after it; `err` is sticky. An int64 is its 64-bit pattern.
use duckcall.Base.{
  ℕ, zero, suc, ◌+◌, ◌-◌, ◌*◌, ◌%◌, ◌^◌, Bool, true, false, not, ◌&&◌, ◌||◌, Option, none, some,
  List, [], ◌∷◌, length, drop, take, ltb, ◌==◌, if◌then◌else◌, bit_and, bit_or,
}
use duckcall.Qser.Varint.{Scan, found, short, wide, uvarint_scan, uint16}

-- ErrTruncated, ErrOverflow, and the error that `End` makes for a field it does not expect.
pub data Error : Type 0 where
  truncated overflow : Error
  unexpected_field : ℕ → Error

pub record Reader : Type 0 where
  pub buf : List ℕ
  pub off : ℕ
  pub err : Option Error

-- What a method of the reader is. `>>=` runs one method after another.
abbrev pub Read {ℓ} : Type ℓ → Type ℓ
Read A = Reader → A × Reader

abbrev pub and_then {ℓ κ} : {A : Type ℓ} {B : Type κ} → A × Reader → (A → Read B) → B × Reader
and_then (a, r) f = f a r

infixl 5 ◌>>=◌
abbrev pub ◌>>=◌ {ℓ κ} : {A : Type ℓ} {B : Type κ} → Read A → (A → Read B) → Read B
◌>>=◌ m f r = and_then (m r) f

abbrev pub return {ℓ} : {A : Type ℓ} → A → Read A
return a r = (a, r)

abbrev pub end_id : ℕ
end_id = 0xffff

-- How an unset optional_idx is serialized.
abbrev pub optional_idx_absent : ℕ
optional_idx_absent = 2 ^ 64 - 1

unfoldable pub new_reader : List ℕ → Reader
new_reader buf = record { buf = buf; off = 0; err = none }

unfoldable pub remaining : Reader → ℕ
remaining r = length r.buf - r.off

unfoldable pub rest : Reader → List ℕ
rest r = drop r.off r.buf

-- `r.off += n`
unfoldable pub advance : ℕ → Reader → Reader
advance n r = record r { off = r.off + n }

-- The first error stays.
unfoldable pub fail : Error → Reader → Reader
fail e r = elim r.err [ none ↦ record r { err = some e } | some _ ↦ r ]

-- Every method begins with `if r.err != nil` and returns the zero value there.
unfoldable pub guarded {ℓ} : {A : Type ℓ} → A → Read A → Read A
guarded zero_value m r = elim r.err [ none ↦ m r | some _ ↦ (zero_value, r) ]

unfoldable pub peek_id : Read ℕ
unfolding fail remaining rest
peek_id =
    guarded end_id
      λ r. if ltb (remaining r) 2 then (end_id, fail truncated r) else (uint16 (rest r), r)

abbrev is_nil : Option Error → Bool
is_nil none = true
is_nil (some e) = false

unfoldable pub try_field : ℕ → Read Bool
unfolding advance
try_field id r =
    and_then (peek_id r)
      λ got r'. if not (got == id) || not (is_nil r'.err) then (false, r') else (true, advance 2 r')

unfoldable pub end_object : Read (Unit {0})
unfolding advance fail
end_object r = and_then (peek_id r) λ id r'.
    if not (is_nil r'.err)
    then (tt, r')
    else if id == end_id
    then (tt, advance 2 r')
    else (tt, fail (unexpected_field id) r')

-- `Take`. Its callers pass 1 or a length that fits an int, so `n < 0` does not arise.
unfoldable pub take_bytes : ℕ → Read (List ℕ)
unfolding fail remaining rest advance
take_bytes n =
    guarded []
      λ r. if ltb (remaining r) n then ([], fail truncated r) else (take n (rest r), advance n r)

-- What `Uvarint` does with the (value, n) of `binary.Uvarint`.
abbrev pub take_scan : Scan → Read ℕ
take_scan short r = (0, fail truncated r)
take_scan wide r = (0, fail overflow r)
take_scan (found v n) r = (v, advance n r)

unfoldable pub uvarint : Read ℕ
unfolding fail advance rest
uvarint = guarded 0 λ r. take_scan (uvarint_scan (rest r) 0 0 0) r

-- `r.buf[r.off]`, which is in range where it is read.
unfoldable pub byte_at : Reader → ℕ
unfolding rest
byte_at r = elim (rest r) [ [] ↦ 0 | b ∷ bs ↦ b ]

-- `v |= uint64(b&0x7f) << shift`, and the sign extension `v |= ^uint64(0) << shift`.
unfoldable pub add_group : ℕ → ℕ → ℕ → ℕ
add_group v b shift = if ltb shift 64 then bit_or v (bit_and b 0x7f * 2 ^ shift % 2 ^ 64) else v

unfoldable pub sign_extend : ℕ → ℕ → ℕ → ℕ
sign_extend v b shift =
    if ltb shift 64 && not (bit_and b 0x40 == 0)
    then bit_or v ((2 ^ 64 - 1) * 2 ^ shift % 2 ^ 64)
    else v

-- The loop of `Svarint`, with `left` for 10 - i.
unfoldable pub svarint_loop : ℕ → ℕ → ℕ → Read ℕ
unfolding remaining fail byte_at advance add_group sign_extend
svarint_loop zero v shift r =
    if remaining r == 0 then (0, fail truncated r) else (0, fail overflow r)
svarint_loop (suc left) v shift r =
    let b = byte_at r in
    let v' = add_group v b shift in
    let more = svarint_loop left v' (shift + 7) (advance 1 r) in
    if remaining r == 0
    then (0, fail truncated r)
    else if bit_and b 0x80 == 0
    then (sign_extend v' b (shift + 7), advance 1 r)
    else more

unfoldable pub svarint : Read ℕ
unfolding svarint_loop
svarint = guarded 0 (svarint_loop 10 0 0)

-- `len(b) == 1 && b[0] != 0`
abbrev pub is_true_byte : List ℕ → Bool
is_true_byte [] = false
is_true_byte (b ∷ []) = not (b == 0)
is_true_byte (b ∷ c ∷ bs) = false

unfoldable pub bool : Read Bool
bool r = and_then (take_bytes 1 r) λ b r'. (is_true_byte b, r')

unfoldable pub bytes : Read (List ℕ)
unfolding fail remaining
bytes r =
    and_then (uvarint r) λ n.
      guarded [] λ r'. if ltb (remaining r') n then ([], fail truncated r') else take_bytes n r'

-- `String` converts the bytes, which a Go string holds unchanged.
unfoldable pub string : Read (List ℕ)
string = bytes

unfoldable pub list_count : Read ℕ
unfolding fail remaining
list_count r =
    and_then (uvarint r)
      λ n. guarded 0 λ r'. if ltb (remaining r') n then (0, fail truncated r') else (n, r')

unfoldable pub present : Read Bool
present = bool

pub record Hugeint : Type 0 where
  pub upper : ℕ
  pub lower : ℕ

unfoldable pub hugeint : Read Hugeint
hugeint = do u ← svarint; l ← uvarint; return (record { upper = u; lower = l })

unfoldable pub optional_idx : Read ℕ
optional_idx = uvarint
