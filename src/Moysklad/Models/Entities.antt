-- ===== src/Moysklad/Models/Entities.antt =====
-- The reference entities of chic/moysklad/models.py as the API sends them; `N` is the type of floats.
use chic_mcp.Prelude.{Bool, Option, List, String}
use chic_mcp.Prelude.Int.{ℤ}

-- `Meta`
pub record Meta : Type 0 where
  pub href : String
  pub metadata_href : String
  pub type : String
  pub media_type : String
  pub size : ℤ
  pub limit : ℤ
  pub offset : ℤ
  pub next_href : String
  pub previous_href : String

-- `NamedRef`
pub record NamedRef : Type 0 where
  pub meta : Meta
  pub name : String
  pub code : String

-- `PriceType`
pub record PriceType : Type 0 where
  pub name : String

-- `SalePrice`
pub record SalePrice (N : Type 0) : Type 0 where
  pub value : N
  pub price_type : PriceType

-- `BuyPrice`
pub record BuyPrice (N : Type 0) : Type 0 where
  pub value : N

-- `Product`
pub record Product (N : Type 0) : Type 0 where
  pub meta : Meta
  pub id : String
  pub name : String
  pub code : String
  pub article : String
  pub description : String
  pub archived : Bool
  pub sale_prices : List (SalePrice N)
  pub buy_price : Option (BuyPrice N)

-- `Currency`
pub record Currency : Type 0 where
  pub meta : Meta
  pub id : String
  pub name : String
  pub full_name : String
  pub iso_code : String
  pub code : String
  pub is_default : Bool

-- `Counterparty`
pub record Counterparty : Type 0 where
  pub meta : Meta
  pub id : String
  pub name : String
  pub company_type : String
  pub inn : String
  pub email : String
  pub phone : String
  pub archived : Bool
  pub description : String

-- `EntityRef`
pub record EntityRef : Type 0 where
  pub meta : Meta
  pub id : String
  pub name : String
  pub code : String
  pub external_code : String
  pub archived : Bool
  pub description : String
  pub path_name : String
  pub inn : String

-- `State`
pub record State : Type 0 where
  pub meta : Meta
  pub id : String
  pub name : String
  pub state_type : String
  pub entity_type : String

-- `EntityMetadata`
pub record EntityMetadata : Type 0 where
  pub states : List State

-- `AssortmentRow`
pub record AssortmentRow (N : Type 0) : Type 0 where
  pub meta : Meta
  pub id : String
  pub name : String
  pub code : String
  pub article : String
  pub archived : Bool
  pub sale_prices : List (SalePrice N)
  pub buy_price : Option (BuyPrice N)
  pub quantity : N

-- `StoreStock`
pub record StoreStock (N : Type 0) : Type 0 where
  pub meta : Meta
  pub name : String
  pub stock : N
  pub reserve : N
  pub in_transit : N

-- `StockByStoreRow`
pub record StockByStoreRow (N : Type 0) : Type 0 where
  pub meta : Meta
  pub stock_by_store : List (StoreStock N)
