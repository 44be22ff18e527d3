-- ===== src/Codectest/Lists.antt =====
-- A list in a document: its count and its elements, read by a loop.
use duckcall.Base.{
  ℕ, suc, ◌+◌, ◌≡◌, refl, List, [], ◌∷◌, ◌++◌, map, length, append_assoc, append-nil, length-append,
  arith,
}
use duckcall.Qser.Varint.{IsU64}
use duckcall.Qser.Bytes.{uvarint_bytes, length-uvarint_bytes}
use duckcall.Qser.Reader.{list_count}
use duckcall.Qser.RoundTrip.{put_uvarint-wrote, list_count-at}
use duckcall.Codec.Decode.{Decode, for_range, ◌>>=◌, read}
use duckcall.Codectest.Write.{Write, skip, ◌then◌, write_each, write_list}
use duckcall.Codectest.Encodes.{Encodes}

module _ {ℓ} {A : Type ℓ} (body : ℕ → Decode A) where
  pub none-Encodes : (i : ℕ) → Encodes 0 skip (for_range body 0 i) []
  unfolding for_range
  none-Encodes i = record {
    bytes = [];
    writes = λ w. rw append-nil;
    reads = λ pre more. rw append-nil;
    long = omega arith;
  }

  pub one_more-Encodes :
      (i left n : ℕ) (p q : Write) (a : A) (rest : List A)
      → Encodes 1 p (body i) a
      → Encodes n q (for_range body left (i + 1)) rest
      → Encodes (suc n) (p then q) (for_range body (suc left) i) (a ∷ rest)
  unfolding for_range
  one_more-Encodes i left n p q a rest x y = record {
    bytes = x.bytes ++ y.bytes;
    writes = λ w. rw (x.writes w, y.writes _) (simp append_assoc);
    reads = λ pre more. simp append_assoc (rw (x.reads pre _, y.reads _ more) (simp append_assoc));
    long = omega (arith, x.long, y.long, length-append x.bytes y.bytes);
  }

  module _ {κ} {X : Type κ} (f : X → Write) (g : X → A) where
    -- Each element encodes for the round that reads it.
    abbrev pub EachEncodes : ℕ → List X → Type (ℓ)
    EachEncodes i [] = Unit {ℓ}
    EachEncodes i (x ∷ xs) = Encodes 1 (f x) (body i) (g x) × EachEncodes (i + 1) xs

    pub each-Encodes :
        (i : ℕ) (xs : List X)
        → EachEncodes i xs
        → Encodes (length xs) (write_each f xs) (for_range body (length xs) i) (map g xs)
    unfolding write_each
    each-Encodes i [] h = none-Encodes i
    each-Encodes i (x ∷ xs) (h, hs) =
        one_more-Encodes i (length xs) (length xs) (f x) (write_each f xs) (g x) (map g xs) h
          (each-Encodes (i + 1) xs hs)

    -- With a decoder that asks for the count first.
    pub list-Encodes :
        (m : Decode (List A)) (xs : List X)
        → m ≡ (do n ← read list_count; for_range body n 0)
        → IsU64 (length xs)
        → EachEncodes 0 xs
        → Encodes 1 (write_list f xs) m (map g xs)
    unfolding write_list
    list-Encodes m xs same h hs =
        let each = each-Encodes 0 xs hs in
        record {
          bytes = uvarint_bytes 9 (length xs) ++ each.bytes;
          writes = λ w. rw (put_uvarint-wrote (length xs) w h, each.writes) (simp append_assoc);
          reads = λ pre more. rw same (
              simp append_assoc (
                rw
                  (
                    list_count-at (length xs) pre (each.bytes ++ more) h
                        (omega (arith, each.long, length-append each.bytes more)),
                    each.reads,
                  )
                  (simp append_assoc)));
          long = omega (
            arith,
            length-uvarint_bytes 9 (length xs),
            length-append (uvarint_bytes 9 (length xs)) each.bytes,
          );
        }

pub map-same {ℓ} : {A : Type ℓ} (xs : List A) → map (λ x. x) xs ≡ xs
map-same [] = refl
map-same (x ∷ xs) = λ i. x ∷ map-same xs i
