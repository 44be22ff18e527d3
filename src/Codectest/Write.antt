-- ===== src/Codectest/Write.antt =====
-- The encoder of codec/codectest/codectest.go appends to a writer and may panic, which is `none`.
use duckcall.Base.{ℕ, List, [], ◌∷◌, Option, none, some, length}
use duckcall.Qser.Writer.{Writer, put_uvarint}

abbrev pub Write : Type 0
Write = Writer → Option Writer

abbrev pub on_some {ℓ κ} : {A : Type ℓ} {B : Type κ} → Option A → (A → Option B) → Option B
on_some none f = none
on_some (some a) f = f a

-- A call that does not panic.
abbrev pub put : (Writer → Writer) → Write
put f w = some (f w)

abbrev pub skip : Write
skip w = some w

abbrev pub panic : Write
panic w = none

infixr 5 ◌then◌
abbrev pub ◌then◌ : Write → Write → Write
(p then q) w = on_some (p w) q

-- `for _, x := range xs { … }`
unfoldable pub write_each {ℓ} : {A : Type ℓ} → (A → Write) → List A → Write
write_each f [] w = some w
write_each f (x ∷ xs) w = on_some (f x w) (write_each f xs)

-- The list with its count in front.
unfoldable pub write_list {ℓ} : {A : Type ℓ} → (A → Write) → List A → Write
write_list f xs = put (put_uvarint (length xs)) then write_each f xs

-- `return w.Bytes()`
abbrev pub bytes_of : Option Writer → Option (List ℕ)
bytes_of w = on_some w λ v. some v.buf
