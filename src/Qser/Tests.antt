-- ===== src/Qser/Tests.antt =====
-- Runs of internal/qser/qser.go on small inputs, and its theorems at such inputs.
use duckcall.Base.{
  ℕ, ◌-◌, ◌^◌, ◌≤◌, ◌≡◌, refl, List, [], ◌∷◌, ◌++◌, true, none, some, length, arith,
}
use duckcall.Qser.Varint.{uvarint_scan, append_uvarint, uint16}
use duckcall.Qser.Reader.{
  Reader, Hugeint, truncated, unexpected_field, new_reader, guarded, peek_id, end_object,
  take_bytes, uvarint, svarint, svarint_loop, bool, bytes, string,
}
use duckcall.Qser.Writer.{Writer, new_writer, put_uvarint, put_svarint, append_svarint}
use duckcall.Qser.Safety.{Moves}
use duckcall.Qser.Inverse.{reading, svarint-put_svarint, varint_length}
use duckcall.Qser.Methods.{calls, calls-Moves, tries, strings, ends}
use duckcall.Qser.Unfinished.{varint_unfinished}

uvarint_300 : (put_uvarint 300 new_writer).buf ≡ 0xac ∷ 0x02 ∷ []
unfolding put_uvarint append_uvarint
uvarint_300 = refl

-- -2 is one byte.
svarint_minus_two : (put_svarint (2 ^ 64 - 2) new_writer).buf ≡ 0x7e ∷ []
unfolding put_svarint append_svarint
svarint_minus_two = refl

read_minus_two : (svarint (new_reader (0x7e ∷ []))).0 ≡ 2 ^ 64 - 2
unfolding svarint svarint_loop guarded new_reader
read_minus_two = refl

read_short_string : (string (new_reader (3 ∷ 65 ∷ []))).1.err ≡ some truncated
unfolding string bytes uvarint uvarint_scan guarded new_reader
read_short_string = refl

read_true : (bool (new_reader (2 ∷ []))).0 ≡ true
unfolding bool take_bytes guarded new_reader
read_true = refl

end_on_field : (end_object (new_reader (100 ∷ 0 ∷ []))).1.err ≡ some (unexpected_field 100)
unfolding end_object peek_id guarded uint16 new_reader
end_on_field = refl

abbrev marked : Writer
marked = record { buf = 1 ∷ 2 ∷ [] }

svarint-put_svarint_example :
    svarint (reading marked (put_svarint (2 ^ 64 - 300) marked) (7 ∷ [])) ≡ (
      2 ^ 64 - 300,
      reading (put_svarint (2 ^ 64 - 300) marked) (put_svarint (2 ^ 64 - 300) marked) (7 ∷ []),
    )
svarint-put_svarint_example = svarint-put_svarint (2 ^ 64 - 300) marked (7 ∷ []) (omega arith)

abbrev word : List ℕ
word = 100 ∷ 117 ∷ 99 ∷ 107 ∷ []

abbrev big : Hugeint
big = record { upper = 2 ^ 64 - 1; lower = 5 }

varint_length_example :
    ((b : List ℕ) × ((put_uvarint 300 marked).buf ≡ marked.buf ++ b)
      × (1 ≤ length b)
      × (length b ≤ 10))
    × ((b : List ℕ) × ((put_svarint 300 marked).buf ≡ marked.buf ++ b)
        × (1 ≤ length b)
        × (length b ≤ 10))
varint_length_example = varint_length 300 marked (omega arith)

abbrev garbled : Reader
garbled = record { buf = 1 ∷ 0 ∷ 9 ∷ 65 ∷ []; off = 0; err = none }

calls-Moves_example : Moves garbled (calls (tries 1 ∷ strings ∷ ends ∷ []) garbled)
calls-Moves_example = calls-Moves (tries 1 ∷ strings ∷ ends ∷ []) garbled (omega arith)

varint_unfinished_example :
    ((uvarint (new_reader (0x80 ∷ 0xff ∷ []))).0 ≡ 0)
    × ((uvarint (new_reader (0x80 ∷ 0xff ∷ []))).1.err ≡ some truncated)
    × ((svarint (new_reader (0x80 ∷ 0xff ∷ []))).0 ≡ 0)
    × ((svarint (new_reader (0x80 ∷ 0xff ∷ []))).1.err ≡ some truncated)
varint_unfinished_example = varint_unfinished (0x80 ∷ 0xff ∷ []) (omega arith)
