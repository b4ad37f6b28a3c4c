-- ===== src/Translate/Items.antt =====
-- The items of a comma-separated annotation, as `splitCSV` gives them.
use ingress_nginx_gateway_br.Common.{
  ◌≡◌, ap, Bool, true, not, ◌&&◌, ◌||◌, List, [], ◌∷◌, arith, any, add, contains, contains-add,
  IsNodup, IsNodup-add, Bool-cases, inl, inr, if◌then◌else◌,
}
use ingress_nginx_gateway_br.Text.{
  Text, text_key, text_eq, text_eq_iff, is_empty, trim_space, split,
}
use ingress_nginx_gateway_br.Translate.Values.{collect_items, split_csv}

abbrev add_item : Text → List Text → List Text
add_item item result = if is_empty item then result else add item result

add_item-IsNodup :
    (item : Text) (result : List Text) → IsNodup result → IsNodup (add_item item result)
add_item-IsNodup item result distinct = elim (Bool-cases (is_empty item)) [
  | inl blank ↦ rw blank distinct
  | inr named ↦ rw named (IsNodup-add item result distinct)
]

collect_items-IsNodup :
    (result parts : List Text) → IsNodup result → IsNodup (collect_items result parts)
unfolding collect_items
collect_items-IsNodup result [] distinct = distinct
collect_items-IsNodup result (part ∷ parts) distinct =
    collect_items-IsNodup (add_item (trim_space part) result) parts
      (add_item-IsNodup (trim_space part) result distinct)

is_part : Text → Text → Bool
is_part item part = text_eq (trim_space part) item

same_emptiness : (s t : Text) → text_eq s t ≡ true → is_empty s ≡ is_empty t
same_emptiness s t h = ap is_empty ((text_eq_iff s t).0 h)

contains-add_item :
    (wanted item : Text) (result : List Text)
    → contains wanted (add_item item result)
      ≡ (contains wanted result || (not (is_empty wanted) && text_eq item wanted))
contains-add_item wanted item result =
    ground (arith, contains-add wanted item result, same_emptiness item wanted)

contains-collect_items :
    (item : Text) (result parts : List Text)
    → contains item (collect_items result parts) ≡ (
        contains item result
        || (not (is_empty item) && any (λ part. text_eq (trim_space part) item) parts))
unfolding collect_items any
contains-collect_items item result [] = ground arith
contains-collect_items item result (part ∷ parts) = ground (
  arith,
  contains-collect_items item (add_item (trim_space part) result) parts,
  contains-add_item item (trim_space part) result,
)

split_csv-IsNodup : (value : Text) → IsNodup (split_csv value)
unfolding split_csv
split_csv-IsNodup value = elim (Bool-cases (is_empty (trim_space value))) [
  | inl blank ↦ rw blank tt
  | inr filled ↦ rw filled (collect_items-IsNodup [] (split value b',') tt)
]

contains-items :
    (item value : Text)
    → contains item (split_csv value) ≡ (
        not (is_empty (trim_space value))
        && (not (is_empty item) && any (λ part. text_eq (trim_space part) item) (split value b',')))
unfolding split_csv contains
contains-items item value = ground (arith, contains-collect_items item [] (split value b','))

-- The items of a value are distinct, and a text is among them exactly where the value is not blank, the text
-- is not empty, and the text is one of the parts between commas without the space around it.
pub contains-split_csv :
    (item value : Text)
    → IsNodup (split_csv value)
      × (contains item (split_csv value) ≡ (
          not (is_empty (trim_space value))
          && (not (is_empty item)
              && any (λ part. text_eq (trim_space part) item) (split value b','))))
contains-split_csv item value = (split_csv-IsNodup value, contains-items item value)
