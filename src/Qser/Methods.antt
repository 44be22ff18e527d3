-- ===== src/Qser/Methods.antt =====
-- Any sequence of the reader's methods, on any input: what a decoder built on them may rely on.
use duckcall.Base.{ℕ, List, [], ◌∷◌}
use duckcall.Qser.Reader.{
  Reader, peek_id, try_field, end_object, take_bytes, uvarint, svarint, bool, bytes, string,
  list_count, present, hugeint, optional_idx,
}
use duckcall.Qser.Safety.{
  InBuf, Moves, Moves-refl, Moves-trans, peek_id-IsSafe, try_field-IsSafe, end_object-IsSafe,
  take_bytes-IsSafe, uvarint-IsSafe, svarint-IsSafe, bool-IsSafe, bytes-IsSafe, string-IsSafe,
  list_count-IsSafe, present-IsSafe, hugeint-IsSafe, optional_idx-IsSafe,
}

-- A call of a method, with its argument.
pub data Call : Type 0 where
  peeks ends uvarints svarints bools byteses strings counts presents hugeints optional_idxs : Call
  tries takes : ℕ → Call

pub call : Call → Reader → Reader
call peeks r = (peek_id r).1
call ends r = (end_object r).1
call uvarints r = (uvarint r).1
call svarints r = (svarint r).1
call bools r = (bool r).1
call byteses r = (bytes r).1
call strings r = (string r).1
call counts r = (list_count r).1
call presents r = (present r).1
call hugeints r = (hugeint r).1
call optional_idxs r = (optional_idx r).1
call (tries id) r = (try_field id r).1
call (takes n) r = (take_bytes n r).1

unfoldable pub calls : List Call → Reader → Reader
unfolding call
calls [] r = r
calls (c ∷ cs) r = calls cs (call c r)

call-Moves : (c : Call) (r : Reader) → InBuf r → Moves r (call c r)
unfolding call
call-Moves peeks r h = peek_id-IsSafe.moves r h
call-Moves ends r h = end_object-IsSafe.moves r h
call-Moves uvarints r h = uvarint-IsSafe.moves r h
call-Moves svarints r h = svarint-IsSafe.moves r h
call-Moves bools r h = bool-IsSafe.moves r h
call-Moves byteses r h = bytes-IsSafe.moves r h
call-Moves strings r h = string-IsSafe.moves r h
call-Moves counts r h = list_count-IsSafe.moves r h
call-Moves presents r h = present-IsSafe.moves r h
call-Moves hugeints r h = hugeint-IsSafe.moves r h
call-Moves optional_idxs r h = optional_idx-IsSafe.moves r h
call-Moves (tries id) r h = (try_field-IsSafe id).moves r h
call-Moves (takes n) r h = (take_bytes-IsSafe n).moves r h

-- Whatever methods are called on a reader inside its buffer, and whatever the bytes are: the buffer
-- is unchanged, the reader never goes back and never leaves the buffer, and after an error it stays
-- as it is, with that error.
pub calls-Moves : (cs : List Call) (r : Reader) → InBuf r → Moves r (calls cs r)
unfolding calls
calls-Moves [] r h = Moves-refl r h
calls-Moves (c ∷ cs) r h =
    let first = call-Moves c r h in Moves-trans first (calls-Moves cs (call c r) first.in_buf)
