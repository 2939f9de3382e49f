-- ===== src/Record/SlottedPage/RowList.antt =====
-- The promise of the page operations, on a list of rows in which a deleted row leaves a gap.
use relational_db_engine.Common.{
  ℕ, ◌+◌, leb, List, [], ◌∷◌, ◌++◌, Option, none, some, length, get_elem?, set, ◌==◌, if◌then◌else◌,
}
use relational_db_engine.Core.Status.{Result, ok, err, ◌>>=◌, invalid_argument, not_found}
use relational_db_engine.Core.Memory.{Bytes}

abbrev pub present : Option (Option Bytes) → Result Bytes
present none = err invalid_argument
present (some none) = err not_found
present (some (some row)) = ok row

-- A slot that was never given out is an invalid argument; one whose row is deleted is not found.
abbrev pub read : List (Option Bytes) → ℕ → Result Bytes
read rs i = present (get_elem? rs i)

abbrev pub delete : List (Option Bytes) → ℕ → Result (List (Option Bytes))
delete rs i = do row ← read rs i; ok (set rs i none)

-- A row is overwritten in place, so its size stays.
abbrev pub update : List (Option Bytes) → ℕ → Bytes → Result (List (Option Bytes))
update rs i new = do
  row ← read rs i
  if length new == length row then ok (set rs i (some new)) else err invalid_argument

-- A row of no bytes cannot be told from a deleted one.
abbrev pub entry : Bytes → Option Bytes
entry new = if length new == 0 then none else some new

-- `free` is the space that is left, for the row and for its slot entry of four bytes.
abbrev pub insert : List (Option Bytes) → ℕ → Bytes → Result (ℕ × List (Option Bytes))
insert rs free new =
    if leb (length new + 4) free
    then ok (length rs, rs ++ (entry new ∷ []))
    else err invalid_argument
