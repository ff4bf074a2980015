-- ===== src/Moysklad/Models/Papers.antt =====
-- The documents of chic/moysklad/models.py; `N` is the type of floats.
use chic_mcp.Prelude.{Bool, Option, List, String}
use chic_mcp.Prelude.Int.{ℤ}
use chic_mcp.Prelude.Json.{Json}
use chic_mcp.Moysklad.Models.Entities.{Meta, NamedRef, Currency}

-- `Rate`
pub record Rate (N : Type 0) : Type 0 where
  pub value : N
  pub currency : Option Currency

-- `Position`
pub record Position (N : Type 0) : Type 0 where
  pub id : String
  pub quantity : N
  pub price : N
  pub discount : N
  pub vat : ℤ
  pub assortment : NamedRef

-- `Attribute`
pub record Attribute : Type 0 where
  pub id : String
  pub name : String
  pub type : String
  pub value : Json

-- `Document`: `positions` holds the rows of the list.
pub record Document (N : Type 0) : Type 0 where
  pub meta : Meta
  pub id : String
  pub name : String
  pub moment : String
  pub applicable : Bool
  pub description : String
  pub sum : N
  pub vat_sum : N
  pub payed_sum : N
  pub shipped_sum : N
  pub invoiced_sum : N
  pub payment_planned_moment : String
  pub delivery_planned_moment : String
  pub agent : Option NamedRef
  pub organization : Option NamedRef
  pub store : Option NamedRef
  pub sales_channel : Option NamedRef
  pub state : Option NamedRef
  pub rate : Option (Rate N)
  pub positions : Option (List (Position N))
  pub attributes : List Attribute
