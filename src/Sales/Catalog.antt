-- ===== src/Sales/Catalog.antt =====
-- The variants, units and price lists that pricing reads (src/modules/products/entities and
-- src/modules/uom/entities), and the line of a sale before and after it.
use Prim.Native.String.{String}
use erp_fashion_api.Common.{ℕ, Bool, Option, List}

-- A variant with the name of its product.
pub record ProductVariant : Type 0 where
  pub id : ℕ
  pub company_id : ℕ
  pub is_active : Bool
  pub base_uom_id : Option ℕ
  pub sku : String
  pub product_name : String
  pub deleted : Bool

pub record Uom : Type 0 where
  pub id : ℕ
  pub company_id : ℕ
  pub code : String
  pub name : String
  pub is_active : Bool

pub data ProductVariantUomUsageType : Type 0 where
  purchase sales both : ProductVariantUomUsageType

-- A factor has four decimals and counts ten-thousandths.
pub record ProductVariantUom : Type 0 where
  pub variant_id : ℕ
  pub company_id : ℕ
  pub uom_id : ℕ
  pub conversion_factor_to_base : ℕ
  pub usage_type : ProductVariantUomUsageType
  pub is_active : Bool

pub record PriceList : Type 0 where
  pub id : ℕ
  pub company_id : ℕ
  pub is_active : Bool

-- A price counts cents.
pub record PriceListItem : Type 0 where
  pub company_id : ℕ
  pub price_list_id : ℕ
  pub product_variant_id : ℕ
  pub uom_id : Option ℕ
  pub price : ℕ
  pub valid_from : ℕ
  pub valid_to : Option ℕ
  pub is_active : Bool

-- The tables of the products that a sale reads.
pub record Catalog : Type 0 where
  pub variants : List ProductVariant
  pub uoms : List Uom
  pub variant_uoms : List ProductVariantUom
  pub price_lists : List PriceList
  pub prices : List PriceListItem

pub record ResolvedVariantUomSelection : Type 0 where
  pub uom_id : ℕ
  pub code : String
  pub name : String
  pub conversion_factor_to_base : ℕ

pub record CreateSaleItem : Type 0 where
  pub product_variant_id : ℕ
  pub uom_id : Option ℕ
  pub quantity : ℕ
  pub discount_amount : Option ℕ
  pub tax_amount : Option ℕ
  pub price_list_id : Option ℕ

pub record ResolvedSaleItemPricing : Type 0 where
  pub variant : ProductVariant
  pub price_list_id : ℕ
  pub uom_id : Option ℕ
  pub uom_code : Option String
  pub uom_name : Option String
  pub base_quantity : ℕ
  pub conversion_factor_to_base : ℕ
  pub unit_price : ℕ
