-- ===== src/Record/SlottedPage/Invariant.antt =====
-- When a page is well formed.
use relational_db_engine.Common.{ℕ, ◌+◌, ◌*◌, ◌≤◌, ◌<◌, ◌≡◌, length}
use relational_db_engine.Core.Memory.{Bytes, AreBytes}
use relational_db_engine.Core.Helper.LittleEndian.{uint}

-- The fields of the header and of the slot entry i, as numbers.
abbrev pub count : Bytes → ℕ
count p = uint 2 p 12

abbrev pub free_start : Bytes → ℕ
free_start p = uint 2 p 14

abbrev pub free_end : Bytes → ℕ
free_end p = uint 2 p 16

abbrev pub row_offset : Bytes → ℕ → ℕ
row_offset p i = uint 2 p (24 + i * 4)

abbrev pub row_size : Bytes → ℕ → ℕ
row_size p i = uint 2 p (24 + i * 4 + 2)

-- The directory ends where the free space starts; every row lies between the end of the free space
-- and the end of the page, and a later row lies wholly before an earlier one.
pub record IsWellFormed (p : Bytes) : Type 0 where
  pub size : length p ≡ 4096
  pub bytes : AreBytes p
  pub directory : free_start p ≡ 24 + count p * 4
  pub ordered : free_start p ≤ free_end p
  pub in_page : free_end p ≤ 4096
  pub rows :
      (i : ℕ) → i < count p → (free_end p ≤ row_offset p i) × (row_offset p i + row_size p i ≤ 4096)
  pub apart : (i j : ℕ) → i < j → j < count p → row_offset p j + row_size p j ≤ row_offset p i
