-- ===== src/Codec/Naming.antt =====
-- codec/logicaltype.go: the types that print.
use duckcall.Base.{
  or_left, or_right, ℕ, ◌≡◌, refl, ap, Bool, true, false, ◌||◌, List, ◌++◌, Option, some, ◌==◌,
  arith, if◌then◌else◌,
}
use duckcall.Base.Strings.{codes}
use duckcall.Codec.Types.{
  LogicalType, logical_type, Child, no_child, child, type_decimal, type_list, type_array,
  type_struct, type_map, type_enum,
}
use duckcall.Codec.TypeText.{suffixed, type_text, child_text}

abbrev pub needs_child : ℕ → Bool
needs_child id = (id == type_list) || (id == type_array)

-- A LIST or ARRAY has a child, and so has the child if it is one itself.
unfoldable mutual
  pub IsComplete : LogicalType → Type 0
  IsComplete (logical_type id w s c fs e n) = if needs_child id then ChildIsComplete c else Unit

  pub ChildIsComplete : Child → Type 0
  ChildIsComplete no_child = ⊥
  ChildIsComplete (child t) = IsComplete t

abbrev pub HasText : Option (List ℕ) → Type 0
HasText o = (s : List ℕ) × (o ≡ some s)

suffixed-HasText : (o : Option (List ℕ)) (s : List ℕ) → HasText o → HasText (suffixed o s)
suffixed-HasText o s (t, e) = (t ++ s, ap (λ x. suffixed x s) e)

if-HasText :
    (b : Bool) (x y : Option (List ℕ))
    → (b ≡ true → HasText x)
    → HasText y
    → HasText (if b then x else y)
if-HasText true x y p q = p refl
if-HasText false x y p q = q

needed : (b : Bool) (P : Type 0) → (if b then P else Unit) → b ≡ true → P
needed true P h e = h
needed false P h e = absurd (ground arith)

mutual
  unfolding type_text IsComplete

  tree-HasText : (t : LogicalType) → IsComplete t → HasText (type_text t)
  tree-HasText (logical_type id w s c fs e n) h =
      let below = needed (needs_child id) (ChildIsComplete c) h in
      if-HasText (id == type_decimal) _ _ (λ _. (_, refl))
        (if-HasText (id == type_list) _ _
          (λ l.
            suffixed-HasText (child_text c) (codes "[]")
              (child-HasText c (below (or_left (id == type_list) (id == type_array) l))))
          (if-HasText (id == type_array) _ _
            (λ l.
              suffixed-HasText (child_text c) _
                (child-HasText c (below (or_right (id == type_list) (id == type_array) l))))
            (if-HasText (id == type_struct) _ _ (λ _. (_, refl))
              (if-HasText (id == type_map) _ _ (λ _. (_, refl))
                (if-HasText (id == type_enum) _ _ (λ _. (_, refl)) (_, refl))))))

  child-HasText : (c : Child) → ChildIsComplete c → HasText (child_text c)
  child-HasText no_child h = absurd h
  child-HasText (child t) h = tree-HasText t h

-- A type has a text, so that String does not panic, if it is no LIST or ARRAY, or one whose children
-- down to the first type that is neither are all there, whatever is missing inside the fields of a
-- STRUCT or of a MAP.
pub type_text-HasText : (t : LogicalType) → IsComplete t → HasText (type_text t)
type_text-HasText t h = tree-HasText t h
