-- ===== src/Qser/Safety.antt =====
-- The reader's methods on any input, well formed or not.
use duckcall.Base.{
  ℕ, zero, suc, ◌+◌, ◌*◌, ◌%◌, ◌^◌, ◌≤◌, ◌<◌, ◌≡◌, refl, sym, ◌∙◌, subst, inl, inr, List, [], ◌∷◌,
  Bool, true, false, none, some, ltb, ◌==◌, if◌then◌else◌, length, length-drop, arith, Option-cases,
  Bool-cases, ltb→le, ==→ne, bit_and, bit_or,
}
use duckcall.Qser.Varint.{Scan, found, short, wide, uvarint_scan}
use duckcall.Qser.Reader.{
  Error, truncated, overflow, unexpected_field, Reader, Read, and_then, return, rest, remaining,
  advance, end_id, fail, guarded, peek_id, try_field, end_object, take_bytes, take_scan, uvarint,
  svarint_loop, svarint, add_group, byte_at, is_true_byte, bool, bytes, string, list_count, present,
  hugeint, optional_idx,
}

abbrev pub InBuf : Reader → Type 0
InBuf r = r.off ≤ length r.buf

-- What a method may do to the reader.
pub record Moves (r r' : Reader) : Type 0 where
  pub same_buf : r'.buf ≡ r.buf
  pub forward : r.off ≤ r'.off
  pub in_buf : InBuf r'
  pub sticky : (e : Error) → r.err ≡ some e → r' ≡ r

pub record IsSafe {ℓ} {A : Type ℓ} (m : Read A) : Type 0 where
  pub moves : (r : Reader) → InBuf r → Moves r (m r).1

pub Moves-refl : (r : Reader) → InBuf r → Moves r r
Moves-refl r h = record { same_buf = refl; forward = omega arith; in_buf = h; sticky = λ e s. refl }

pub Moves-trans : {r s t : Reader} → Moves r s → Moves s t → Moves r t
Moves-trans {r} {s} {t} m n = record {
  same_buf = n.same_buf ∙ m.same_buf;
  forward = omega (arith, m.forward, n.forward);
  in_buf = n.in_buf;
  sticky = λ e h.
      n.sticky e (subst (λ (x : Reader). x.err ≡ some e) (sym (m.sticky e h)) h) ∙ m.sticky e h;
}

-- A step that is taken with no error in the reader.
quiet : (r r' : Reader) → r.err ≡ none → r'.buf ≡ r.buf → r.off ≤ r'.off → InBuf r' → Moves r r'
quiet r r' h same fwd inb = record {
  same_buf = same;
  forward = fwd;
  in_buf = inb;
  sticky = λ e s. cc;
}

fail_quiet : (e : Error) (r : Reader) → r.err ≡ none → fail e r ≡ record r { err = some e }
unfolding fail
fail_quiet e r n = ground arith

fail_sticky : (e e' : Error) (r : Reader) → r.err ≡ some e' → fail e r ≡ r
unfolding fail
fail_sticky e e' r s = ground arith

pub guarded_quiet {ℓ} :
    {A : Type ℓ} (z : A) (m : Read A) (r : Reader) → r.err ≡ none → guarded z m r ≡ m r
unfolding guarded
guarded_quiet z m r n = ground arith

-- After an error every guarded method returns its zero value and leaves the reader.
pub guarded_sticky {ℓ} :
    {A : Type ℓ} (z : A) (m : Read A) (r : Reader) (e : Error)
    → r.err ≡ some e
    → guarded z m r ≡ (z, r)
unfolding guarded
guarded_sticky z m r e s = ground arith

fail-Moves : (e : Error) (r : Reader) → InBuf r → Moves r (fail e r)
fail-Moves e r h = elim (Option-cases r.err) [
  | inl n ↦ rw (fail_quiet e r n) (quiet r _ n refl (omega arith) h)
  | inr (e', s) ↦ rw (fail_sticky e e' r s) (Moves-refl r h)
]

advance-Moves :
    (n : ℕ) (r : Reader) → r.err ≡ none → InBuf r → n ≤ remaining r → Moves r (advance n r)
unfolding advance remaining
advance-Moves n r q h fits = quiet r _ q refl (omega arith) (omega arith)

guarded-IsSafe {ℓ} :
    {A : Type ℓ} (z : A) (m : Read A)
    → ((r : Reader) → r.err ≡ none → InBuf r → Moves r (m r).1)
    → IsSafe (guarded z m)
guarded-IsSafe z m step = record {
  moves = λ r h. elim (Option-cases r.err) [
    | inl n ↦ rw (guarded_quiet z m r n) (step r n h)
    | inr (e, s) ↦ rw (guarded_sticky z m r e s) (Moves-refl r h)
  ];
}

pub >>=-IsSafe {ℓ κ} :
    {A : Type ℓ} {B : Type κ} (m : Read A) (f : A → Read B)
    → IsSafe m
    → ((a : A) → IsSafe (f a))
    → IsSafe (λ r. and_then (m r) f)
>>=-IsSafe m f hm hf = record {
  moves = λ r h.
      let first = hm.moves r h in Moves-trans first ((hf (m r).0).moves (m r).1 first.in_buf);
}

pub return-IsSafe {ℓ} : {A : Type ℓ} (a : A) → IsSafe (return a)
return-IsSafe a = record { moves = Moves-refl }

pub peek_id-IsSafe : IsSafe peek_id
unfolding peek_id
peek_id-IsSafe = guarded-IsSafe end_id _ λ r q h. elim (Bool-cases (ltb (remaining r) 2)) [
  | inl small ↦ rw small (fail-Moves truncated r h)
  | inr big ↦ rw big (Moves-refl r h)
]

fail_at_once {ℓ} :
    {A : Type ℓ} (z : A) (e : Error) (m : Read A) (test : Reader → Bool)
    → ((r : Reader) → r.err ≡ none → InBuf r → test r ≡ false → Moves r (m r).1)
    → (r : Reader) → r.err ≡ none
    → InBuf r
    → Moves r (if test r then (z, fail e r) else m r).1
fail_at_once z e m test step r q h = elim (Bool-cases (test r)) [
  | inl stop ↦ rw stop (fail-Moves e r h)
  | inr go ↦ rw go (step r q h go)
]

check-IsSafe {ℓ} :
    {A : Type ℓ} (z : A) (e : Error) (m : Read A) (test : Reader → Bool)
    → ((r : Reader) → r.err ≡ none → InBuf r → test r ≡ false → Moves r (m r).1)
    → IsSafe (guarded z (λ r. if test r then (z, fail e r) else m r))
check-IsSafe z e m test step = guarded-IsSafe z _ (fail_at_once z e m test step)

pub take_bytes-IsSafe : (n : ℕ) → IsSafe (take_bytes n)
unfolding take_bytes
take_bytes-IsSafe n = guarded-IsSafe [] _ (
    fail_at_once [] truncated _ (λ r. ltb (remaining r) n)
      λ r q h e. advance-Moves n r q h (omega (arith, ltb→le (remaining r) n)))

-- What `binary.Uvarint` reports as read is there.
scan_found :
    (bs : List ℕ) (i x s v n : ℕ)
    → uvarint_scan bs i x s ≡ found v n
    → (i < n) × (n ≤ i + length bs)
unfolding uvarint_scan
scan_found [] i x s v n e = cc
scan_found (b ∷ bs) i x s v n e =
    ground (arith, scan_found bs (i + 1) (bit_or x (bit_and b 0x7f * 2 ^ s % 2 ^ 64)) (s + 7) v n)

take_scan-Moves :
    (sc : Scan) (r : Reader)
    → r.err ≡ none
    → InBuf r
    → ((v n : ℕ) → sc ≡ found v n → n ≤ remaining r)
    → Moves r (take_scan sc r).1
take_scan-Moves short r q h fits = fail-Moves truncated r h
take_scan-Moves wide r q h fits = fail-Moves overflow r h
take_scan-Moves (found v n) r q h fits = advance-Moves n r q h (fits v n refl)

length-rest : (r : Reader) → length (rest r) ≡ remaining r
unfolding rest remaining
length-rest r = length-drop r.off r.buf

pub uvarint-IsSafe : IsSafe uvarint
unfolding uvarint
uvarint-IsSafe = guarded-IsSafe 0 _ λ r q h.
    take_scan-Moves (uvarint_scan (rest r) 0 0 0) r q h
      (λ v n e. omega (arith, scan_found (rest r) 0 0 0 v n e, length-rest r))

svarint_loop-Moves :
    (left v shift : ℕ) (r : Reader)
    → r.err ≡ none
    → InBuf r
    → Moves r (svarint_loop left v shift r).1
unfolding svarint_loop
svarint_loop-Moves zero v shift r q h = elim (Bool-cases (remaining r == 0)) [
  | inl e ↦ rw e (fail-Moves truncated r h)
  | inr e ↦ rw e (fail-Moves overflow r h)
]
svarint_loop-Moves (suc left) v shift r q h = elim (Bool-cases (remaining r == 0)) [
  | inl e ↦ rw e (fail-Moves truncated r h)
  | inr e ↦
      let step = advance-Moves 1 r q h (omega (arith, ==→ne (remaining r) 0 e)) in
      rw e (elim (Bool-cases (bit_and (byte_at r) 0x80 == 0)) [
        | inl last ↦ rw last step
        | inr more ↦ rw more (
            Moves-trans step (
              svarint_loop-Moves left (add_group v (byte_at r) shift) (shift + 7) (advance 1 r) q
                step.in_buf))
      ])
]

pub svarint-IsSafe : IsSafe svarint
unfolding svarint
svarint-IsSafe = guarded-IsSafe 0 _ (svarint_loop-Moves 10 0 0)

pub bool-IsSafe : IsSafe bool
unfolding bool
bool-IsSafe = >>=-IsSafe (take_bytes 1) _ (take_bytes-IsSafe 1) λ b. return-IsSafe (is_true_byte b)

pub bytes-IsSafe : IsSafe bytes
unfolding bytes
bytes-IsSafe = >>=-IsSafe uvarint _ uvarint-IsSafe λ n.
    check-IsSafe [] truncated (take_bytes n) (λ r. ltb (remaining r) n)
      λ r q h e. (take_bytes-IsSafe n).moves r h

pub list_count-IsSafe : IsSafe list_count
unfolding list_count
list_count-IsSafe =
    >>=-IsSafe uvarint _ uvarint-IsSafe
      λ n. check-IsSafe 0 truncated (return n) (λ r. ltb (remaining r) n) λ r q h e. Moves-refl r h

pub hugeint-IsSafe : IsSafe hugeint
unfolding hugeint
hugeint-IsSafe =
    >>=-IsSafe svarint _ svarint-IsSafe
      λ u. >>=-IsSafe uvarint _ uvarint-IsSafe λ l. return-IsSafe (record { upper = u; lower = l })

-- If `PeekID` ends with no error, there was none and two bytes are there.
peek_id_quiet :
    (r : Reader)
    → (peek_id r).1.err ≡ none
    → (r.err ≡ none) × (2 ≤ remaining r) × ((peek_id r).1 ≡ r)
unfolding peek_id guarded
peek_id_quiet r q = ground arith

peek_id-advance :
    (r : Reader) → InBuf r → (peek_id r).1.err ≡ none → Moves r (advance 2 (peek_id r).1)
peek_id-advance r h q =
    let (q', two, same) = peek_id_quiet r q in rw same (advance-Moves 2 r q' h two)

pub try_field-IsSafe : (id : ℕ) → IsSafe (try_field id)
unfolding try_field
try_field-IsSafe id = record {
  moves = λ r h. ground (arith, peek_id-IsSafe.moves r h, peek_id-advance r h);
}

pub end_object-IsSafe : IsSafe end_object
unfolding end_object
end_object-IsSafe = record {
  moves = λ r h. ground (
    arith,
    peek_id-IsSafe.moves r h,
    peek_id-advance r h,
    fail-Moves (unexpected_field (peek_id r).0) (peek_id r).1 (peek_id-IsSafe.moves r h).in_buf,
  );
}

pub string-IsSafe : IsSafe string
unfolding string
string-IsSafe = bytes-IsSafe

pub present-IsSafe : IsSafe present
unfolding present
present-IsSafe = bool-IsSafe

pub optional_idx-IsSafe : IsSafe optional_idx
unfolding optional_idx
optional_idx-IsSafe = uvarint-IsSafe

pub if-IsSafe {ℓ} :
    {A : Type ℓ} (b : Bool) (m n : Read A) → IsSafe m → IsSafe n → IsSafe (if b then m else n)
if-IsSafe true m n hm hn = hm
if-IsSafe false m n hm hn = hn

-- The proofs above, for `search`.
pub ruleset safe_methods = (
  try_field-IsSafe, end_object-IsSafe, take_bytes-IsSafe, uvarint-IsSafe, svarint-IsSafe,
  bool-IsSafe, bytes-IsSafe, string-IsSafe, list_count-IsSafe, present-IsSafe, hugeint-IsSafe,
  optional_idx-IsSafe, return-IsSafe,
)
