-- ===== src/Schema/Values.antt =====
-- The values of a JSON column: what `dict`, `list`, `str`, `int`, `bool` and `None` carry.
use wdc_catalog_api.Base.{ℕ, suc, Bool, Text, Option, none, some, text_eq, if◌then◌else◌}

mutual
  pub data Json : Type 0 where
    null : Json
    bool : Bool → Json
    num : ℕ → Json
    str : Text → Json
    arr : Items → Json
    obj : Fields → Json

  pub data Items : Type 0 where
    nil : Items
    cons : Json → Items → Items

  pub data Fields : Type 0 where
    end : Fields
    field : Text → Json → Fields → Fields

-- `d.get(key)` of a dict
unfoldable pub get_field : Text → Fields → Option Json
get_field k end = none
get_field k (field j v rest) = if text_eq k j then some v else get_field k rest

-- `len(xs)` of a list
unfoldable pub count_items : Items → ℕ
count_items nil = 0
count_items (cons _ xs) = suc (count_items xs)
