-- ===== src/Codec/TextTests.antt =====
-- codec/values.go on small values.
use duckcall.Base.{◌-◌, ◌+◌, ◌*◌, ◌^◌, ◌≡◌, refl, [], ◌∷◌}
use duckcall.Base.Int.{negsuc}
use duckcall.Base.Strings.{codes}
use duckcall.Base.Numerals.{digits_from}
use duckcall.Base.{none, some}
use duckcall.Codec.Types.{
  LogicalType, logical_type, no_child, child, no_fields, field, scalar_type, type_list, type_map,
  type_struct, type_varchar, type_decimal,
}
use duckcall.Codec.TypeText.{type_text, named_text}
use duckcall.Codec.Naming.{IsComplete, HasText, type_text-HasText}
use duckcall.Codec.Cells.{int128_big}
use duckcall.Codec.Text.{
  unscaled_text, decimal_text, with_point, time_text, clock, frac_text, drop_zeros, time_tz_text,
  offset_part, negate, interval_text, interval_dates, interval_part, uuid_text, uuid_from,
}
use duckcall.Codec.Exact.{IsExact, unscaled_text-IsExact}

small : decimal_text 3 (2 ^ 64 - 1) (2 ^ 64 - 5) ≡ codes "-0.005"
unfolding int128_big unscaled_text with_point digits_from
small = refl

noon : time_text (12 * 3600000000 + 1500000) ≡ codes "12:00:01.5"
unfolding clock frac_text drop_zeros digits_from
noon = refl

india : time_tz_text 0 (2 ^ 32 - 19815) ≡ codes "00:00:00-05:30:15"
unfolding time_tz_text clock frac_text drop_zeros digits_from offset_part negate
india = refl

span : interval_text 14 (2 ^ 32 - 1) (2 ^ 64 - 1000000) ≡ codes "1 year 2 months -1 day -00:00:01"
unfolding interval_text interval_dates interval_part clock frac_text drop_zeros digits_from negate
span = refl

zeros :
    uuid_text (0 ∷ 1 ∷ 2 ∷ 255 ∷ 0 ∷ 0 ∷ 0 ∷ 0 ∷ 0 ∷ 0 ∷ 0 ∷ 0 ∷ 0 ∷ 0 ∷ 0 ∷ 171 ∷ [])
    ≡ codes "000102ff-0000-0000-0000-0000000000ab"
unfolding uuid_from
zeros = refl

unscaled_text-IsExact_example : IsExact 2 (negsuc 6)
unscaled_text-IsExact_example = unscaled_text-IsExact 2 (negsuc 6)

abbrev price : LogicalType
price = logical_type type_decimal 18 2 no_child no_fields [] 0

-- MAP(VARCHAR, DECIMAL(18,2)[])
abbrev prices : LogicalType
prices =
    logical_type type_map 0 0
      (child (
        logical_type type_struct 0 0 no_child
          (field (codes "key") (scalar_type type_varchar) (
            field (codes "value") (logical_type type_list 0 0 (child price) no_fields [] 0)
              no_fields))
          [] 0))
      no_fields [] 0

prices_text : type_text prices ≡ some (codes "MAP(VARCHAR, DECIMAL(18,2)[])")
unfolding type_text named_text digits_from
prices_text = refl

-- A LIST without a child, which a response may bring, has none.
abbrev bare_list : LogicalType
bare_list = logical_type type_list 0 0 no_child no_fields [] 0

bare_list_text : type_text bare_list ≡ none
unfolding type_text
bare_list_text = refl

-- As a field of a STRUCT it has the text that package fmt writes for the panic.
bare_field_text :
    type_text (logical_type type_struct 0 0 no_child (field (codes "a") bare_list no_fields) [] 0)
    ≡ some (
        codes
          "STRUCT(a %!s(PANIC=String method: runtime error: invalid memory address or nil pointer dereference))")
unfolding type_text
bare_field_text = refl

-- MAP(VARCHAR, DECIMAL(18,2)[])[]
abbrev price_lists : LogicalType
price_lists = logical_type type_list 0 0 (child prices) no_fields [] 0

price_lists_complete : IsComplete price_lists
unfolding IsComplete
price_lists_complete = tt

type_text-HasText_example : HasText (type_text price_lists)
type_text-HasText_example = type_text-HasText price_lists price_lists_complete
