-- ===== src/Codec/Safety.antt =====
-- What the decoders of codec/logicaltype.go do to the reader on any input.
use duckcall.Base.{ℕ, zero, suc, ◌+◌, Bool, true, false, ◌∷◌, Result, ok, err}
use duckcall.Qser.Reader.{Read, and_then, try_field, string}
use duckcall.Qser.Safety.{
  IsSafe, InBuf, Moves, Moves-refl, Moves-trans, safe_methods, try_field-IsSafe, end_object-IsSafe,
  uvarint-IsSafe, string-IsSafe, list_count-IsSafe, present-IsSafe, if-IsSafe,
}
use duckcall.Codec.Types.{LogicalType, CodecError, Part}
use duckcall.Codec.Decode.{Decode, on_ok, ok_of, checked, read, done, refuse, require, for_range}
use duckcall.Codec.TypeTree.{
  optional, decimal_info, string_info, list_info, struct_field, struct_info, enum_info, array_info,
  info_of_kind, decode_type_info, type_object, decode_type,
}

module _ {ℓ} {A : Type ℓ} where
  on_ok-IsSafe {κ} :
      {B : Type κ} (f : A → Decode B)
      → ((a : A) → IsSafe (f a))
      → (x : Result CodecError A) → IsSafe (on_ok f x)
  on_ok-IsSafe f h (ok a) = record { moves = (h a).moves }
  on_ok-IsSafe f h (err e) = record { moves = Moves-refl }

  pub bind-IsSafe {κ} :
      {B : Type κ} (m : Decode A) (f : A → Decode B)
      → IsSafe m
      → ((a : A) → IsSafe (f a))
      → IsSafe (λ r. and_then (m r) (on_ok f))
  bind-IsSafe m f hm hf = record {
    moves = λ r h.
        let first = hm.moves r h in
        Moves-trans first ((on_ok-IsSafe f hf (m r).0).moves (m r).1 first.in_buf);
  }

  pub read-IsSafe : (m : Read A) → IsSafe m → IsSafe (λ r. ok_of (m r))
  read-IsSafe m h = record { moves = h.moves }

  pub done-IsSafe : (x : Result CodecError A) → IsSafe {A = Result CodecError A} (λ r. (x, r))
  done-IsSafe x = record { moves = Moves-refl }

  pub check-IsSafe : (a : A) → IsSafe {A = Result CodecError A} (λ r. (checked a r.err, r))
  check-IsSafe a = record { moves = Moves-refl }

pub for_range-IsSafe {ℓ} :
    {A : Type ℓ} (body : ℕ → Decode A)
    → ((i : ℕ) → IsSafe (body i))
    → (left i : ℕ) → IsSafe (for_range body left i)
unfolding for_range
for_range-IsSafe body h zero i = record { moves = Moves-refl }
for_range-IsSafe body h (suc left) i = bind-IsSafe (body i) _ (h i) λ a.
    bind-IsSafe (for_range body left (i + 1)) _ (for_range-IsSafe body h left (i + 1))
      λ rest. done-IsSafe (ok (a ∷ rest))

pub optional-IsSafe {ℓ} :
    {A : Type ℓ} (id : ℕ) (z : A) (m : Decode A) → IsSafe m → IsSafe (optional id z m)
optional-IsSafe id z m h =
    bind-IsSafe (read (try_field id)) _ (read-IsSafe (try_field id) (try_field-IsSafe id))
      λ b. if-IsSafe b m (done z) h (done-IsSafe (ok z))

pub refuse-IsSafe : (b : Bool) (e : CodecError) → IsSafe (refuse b e)
unfolding refuse
refuse-IsSafe true e = record { moves = Moves-refl }
refuse-IsSafe false e = record { moves = Moves-refl }

pub require-IsSafe : (p : Part) (b : Bool) → IsSafe (require p b)
unfolding require
require-IsSafe p true = record { moves = Moves-refl }
require-IsSafe p false = record { moves = Moves-refl }

pub ruleset safe_decoders = (
  bind-IsSafe, read-IsSafe, done-IsSafe, check-IsSafe, for_range-IsSafe, optional-IsSafe,
  refuse-IsSafe, require-IsSafe, if-IsSafe, safe_methods,
)

strings-IsSafe : (n : ℕ) → IsSafe (for_range (λ i. read string) n 0)
strings-IsSafe n = for_range-IsSafe (λ i. read string) (λ i. read-IsSafe string string-IsSafe) n 0

module _ (id : ℕ) (rec : Decode LogicalType) (h : IsSafe rec) where
  decimal_info-IsSafe : IsSafe (decimal_info id rec)
  unfolding decimal_info
  decimal_info-IsSafe = search safe_decoders depth 8

  string_info-IsSafe : IsSafe (string_info id rec)
  unfolding string_info
  string_info-IsSafe = search safe_decoders depth 8

  list_info-IsSafe : IsSafe (list_info id rec)
  unfolding list_info
  list_info-IsSafe = search safe_decoders depth 8

  struct_field-IsSafe : (i : ℕ) → IsSafe (struct_field id rec i)
  unfolding struct_field
  struct_field-IsSafe i = search safe_decoders depth 10

  struct_info-IsSafe : IsSafe (struct_info id rec)
  unfolding struct_info
  struct_info-IsSafe = search (safe_decoders, struct_field-IsSafe) depth 10

  enum_info-IsSafe : IsSafe (enum_info id rec)
  unfolding enum_info
  enum_info-IsSafe = search (safe_decoders, strings-IsSafe) depth 10

  array_info-IsSafe : IsSafe (array_info id rec)
  unfolding array_info
  array_info-IsSafe = search safe_decoders depth 10

  info_of_kind-IsSafe : (kind : ℕ) → IsSafe (info_of_kind id rec kind)
  unfolding info_of_kind
  info_of_kind-IsSafe kind =
      search
        (
          safe_decoders, decimal_info-IsSafe, string_info-IsSafe, list_info-IsSafe,
          struct_info-IsSafe, enum_info-IsSafe, array_info-IsSafe,
        )
        depth 12

  decode_type_info-IsSafe : IsSafe (decode_type_info id rec)
  unfolding decode_type_info
  decode_type_info-IsSafe = search (safe_decoders, info_of_kind-IsSafe) depth 14

type_object-IsSafe : (rec : Decode LogicalType) → IsSafe rec → IsSafe (type_object rec)
unfolding type_object
type_object-IsSafe rec h = search (safe_decoders, decode_type_info-IsSafe) depth 10

pub decode_type-IsSafe : (levels : ℕ) → IsSafe (decode_type levels)
unfolding decode_type
decode_type-IsSafe zero = done-IsSafe _
decode_type-IsSafe (suc levels) = record {
  moves = (type_object-IsSafe (decode_type levels) (decode_type-IsSafe levels)).moves;
}
