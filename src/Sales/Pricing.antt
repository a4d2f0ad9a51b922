-- ===== src/Sales/Pricing.antt =====
-- The price of a line of a sale: `resolveItemPricing` of src/modules/sales/services/sales.service.ts,
-- with `resolveSelectionForUsage` of product-variant-uoms.service.ts and `resolveActivePrice` of
-- price-list-items.service.ts (src/modules/products/services).
use erp_fashion_api.Common.{
  ℕ, ◌*◌, ◌/◌, ◌%◌, Bool, true, false, not, ◌||◌, ◌&&◌, Option, none, some, List, [], ◌∷◌, ◌==◌,
  ltb, leb, if◌then◌else◌, is_some, find_row, sort_by, Result, ok, throw, ◌>>=◌, ◌>>◌, throw_if,
  or_throw, validation_error, internal_error,
}
use erp_fashion_api.Sales.Catalog.{
  ProductVariant, Uom, ProductVariantUom, ProductVariantUomUsageType, PriceList, PriceListItem,
  Catalog, ResolvedVariantUomSelection, CreateSaleItem, ResolvedSaleItemPricing,
}

abbrev pub find_sale_variant : ℕ → ℕ → List ProductVariant → Option ProductVariant
find_sale_variant id company =
    find_row (λ (v : ProductVariant). v.id) (λ v. company == v.company_id && not v.deleted) id

-- `findActiveUomOrThrow`
unfoldable pub find_active_uom_or_throw : ℕ → ℕ → List Uom → Result Uom
find_active_uom_or_throw id company uoms = do
  uom ←
      or_throw (find_row (λ (u : Uom). u.id) (λ u. company == u.company_id) id uoms)
        validation_error
  throw_if (not uom.is_active) validation_error
  ok uom

abbrev is_mapping : ℕ → ℕ → ℕ → Bool → ProductVariantUom → Bool
is_mapping variant company uom only_active m =
    variant == m.variant_id
    && company == m.company_id
    && uom == m.uom_id
    && (not only_active || m.is_active)

unfoldable pub find_mapping : ℕ → ℕ → ℕ → Bool → List ProductVariantUom → Option ProductVariantUom
find_mapping variant company uom only_active [] = none
find_mapping variant company uom only_active (m ∷ mappings) =
    if is_mapping variant company uom only_active m
    then some m
    else find_mapping variant company uom only_active mappings

-- `isUsageAllowed`, for sales.
abbrev pub is_usage_allowed : ProductVariantUomUsageType → Bool
is_usage_allowed ProductVariantUomUsageType.purchase = false
is_usage_allowed ProductVariantUomUsageType.sales = true
is_usage_allowed ProductVariantUomUsageType.both = true

abbrev selection : Uom → ℕ → ResolvedVariantUomSelection
selection uom factor = record {
  uom_id = uom.id;
  code = uom.code;
  name = uom.name;
  conversion_factor_to_base = factor;
}

abbrev factor_or_one : Option ProductVariantUom → ℕ
factor_or_one none = 10_000
factor_or_one (some m) = m.conversion_factor_to_base

-- The selection of a unit other than the base.
abbrev select_mapped : Catalog → ℕ → ℕ → Uom → Result ResolvedVariantUomSelection
select_mapped catalog variant company uom = do
  mapping ←
      or_throw (find_mapping variant company uom.id true catalog.variant_uoms) validation_error
  throw_if (not (is_usage_allowed mapping.usage_type)) validation_error
  ok (selection uom mapping.conversion_factor_to_base)

abbrev base_selection : Catalog → ℕ → ℕ → Uom → ResolvedVariantUomSelection
base_selection catalog variant company uom =
    selection uom (factor_or_one (find_mapping variant company uom.id false catalog.variant_uoms))

abbrev select_uom : Catalog → ℕ → ℕ → ℕ → ℕ → Result (Option ResolvedVariantUomSelection)
select_uom catalog variant company base wanted = do
  uom ← find_active_uom_or_throw wanted company catalog.uoms
  chosen ←
      (if wanted == base
        then ok (base_selection catalog variant company uom)
        else select_mapped catalog variant company uom)
  ok (some chosen)

-- `resolveSelectionForUsage`, for sales.
unfoldable pub resolve_selection_for_usage :
    Catalog → ProductVariant → ℕ → Option ℕ → Result (Option ResolvedVariantUomSelection)
unfolding find_active_uom_or_throw find_mapping
resolve_selection_for_usage catalog variant company requested = elim variant.base_uom_id [
  | none ↦ if is_some requested then throw validation_error else ok none
  | some base ↦
      select_uom catalog variant.id company base (elim requested [ none ↦ base | some u ↦ u ])
]

-- `computeBaseQuantity`
unfoldable pub sale_base_quantity : ℕ → ℕ → Result ℕ
sale_base_quantity quantity factor =
    if quantity * factor == 0 || not (quantity * factor % 10_000 == 0)
    then throw validation_error
    else ok (quantity * factor / 10_000)

-- `find(PriceList, { where: { companyId, status: Active } })`
unfoldable pub active_lists : ℕ → List PriceList → List PriceList
active_lists company [] = []
active_lists company (l ∷ lists) =
    if company == l.company_id && l.is_active
    then l ∷ active_lists company lists
    else active_lists company lists

abbrev only_one : List PriceList → Option ℕ
only_one (l ∷ []) = some l.id
only_one [] = none
only_one (_ ∷ (_ ∷ _)) = none

-- `resolveDefaultPriceListId`
abbrev pub resolve_default_price_list_id : ℕ → List PriceList → Option ℕ
resolve_default_price_list_id company lists = only_one (active_lists company lists)

abbrev find_price_list : ℕ → List PriceList → Option PriceList
find_price_list id = find_row (λ (l : PriceList). l.id) (λ _. true) id

-- `resolvePriceListId`
unfoldable pub resolve_price_list_id : List PriceList → ℕ → Option ℕ → Option ℕ → Result ℕ
resolve_price_list_id lists company (some id) default = do
  l ← or_throw (find_price_list id lists) validation_error
  throw_if (not (l.company_id == company)) validation_error
  throw_if (not l.is_active) validation_error
  ok l.id
resolve_price_list_id lists company none (some default) = ok default
resolve_price_list_id lists company none none = throw validation_error

abbrev pub same_uom : Option ℕ → Option ℕ → Bool
same_uom none none = true
same_uom (some a) (some b) = a == b
same_uom none (some _) = false
same_uom (some _) none = false

abbrev is_over : Option ℕ → ℕ → Bool
is_over none time = false
is_over (some until) time = leb until time

-- The rows that the query finds.
abbrev pub is_price_of : ℕ → ℕ → ℕ → PriceListItem → Bool
is_price_of company list variant p =
    company == p.company_id
    && list == p.price_list_id
    && variant == p.product_variant_id
    && p.is_active

-- The test of `rows.find(...)`.
abbrev pub is_valid_at : Option ℕ → ℕ → PriceListItem → Bool
is_valid_at uom time p =
    same_uom p.uom_id uom && not (ltb time p.valid_from) && not (is_over p.valid_to time)

unfoldable pub first_price : ℕ → ℕ → ℕ → Option ℕ → ℕ → List PriceListItem → Option PriceListItem
first_price company list variant uom time [] = none
first_price company list variant uom time (p ∷ prices) =
    if is_price_of company list variant p && is_valid_at uom time p
    then some p
    else first_price company list variant uom time prices

abbrev by_latest : PriceListItem → PriceListItem → Bool
by_latest a b = leb b.valid_from a.valid_from

-- `resolveActivePrice`
abbrev pub resolve_active_price :
    List PriceListItem → ℕ → ℕ → ℕ → Option ℕ → ℕ → Option PriceListItem
resolve_active_price prices company list variant uom time =
    first_price company list variant uom time (sort_by by_latest prices)

abbrev uom_of : Option ResolvedVariantUomSelection → Option ℕ
uom_of none = none
uom_of (some u) = some u.uom_id

-- `selectedUom?.conversionFactorToBase ?? '1.0000'`
abbrev factor_of : Option ResolvedVariantUomSelection → ℕ
factor_of none = 10_000
factor_of (some u) = u.conversion_factor_to_base

-- `resolveItemPricing`
unfoldable pub resolve_item_pricing :
    Catalog → ℕ → Option ℕ → ℕ → CreateSaleItem → Result ResolvedSaleItemPricing
unfolding resolve_selection_for_usage sale_base_quantity resolve_price_list_id
resolve_item_pricing catalog company default time item = do
  variant ←
      or_throw (find_sale_variant item.product_variant_id company catalog.variants) internal_error
  selected ← resolve_selection_for_usage catalog variant company item.uom_id
  let factor = factor_of selected
  base_quantity ← sale_base_quantity item.quantity factor
  list ← resolve_price_list_id catalog.price_lists company item.price_list_id default
  price ←
      or_throw
        (resolve_active_price catalog.prices company list item.product_variant_id (uom_of selected)
          time)
        validation_error
  throw_if (not price.is_active) validation_error
  ok (record {
    variant = variant;
    price_list_id = list;
    uom_id = uom_of selected;
    uom_code = elim selected [ none ↦ none | some u ↦ some u.code ];
    uom_name = elim selected [ none ↦ none | some u ↦ some u.name ];
    base_quantity = base_quantity;
    conversion_factor_to_base = factor;
    unit_price = price.price;
  })
