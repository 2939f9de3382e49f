-- ===== src/Catalog/Metadata.antt =====
-- TableMetadata of include/dandb/catalog/TableManager.h, and the index of the tables by name.
pub mod Index
pub mod Replace
use relational_db_engine.Common.{
  ℕ, List, [], ◌∷◌, Bool, true, false, Option, none, some, if◌then◌else◌,
}
use relational_db_engine.Core.Memory.{Bytes}
use relational_db_engine.Record.Schema.{Schema, same_name}

pub record TableMetadata : Type 0 where
  pub table_id : ℕ
  pub name : Bytes
  pub schema : Schema
  pub first_page_id : ℕ
  pub last_page_id : ℕ

-- "DTBL"
abbrev pub tables_meta_magic : Bytes
tables_meta_magic = 68 ∷ 84 ∷ 66 ∷ 76 ∷ []

-- index.find(name)
abbrev pub find_name : Bytes → List (Bytes × ℕ) → Option ℕ
find_name name [] = none
find_name name ((n, i) ∷ index) = if same_name n name then some i else find_name name index

abbrev pub is_known {ℓ} : {A : Type ℓ} → Option A → Bool
is_known none = false
is_known (some a) = true
