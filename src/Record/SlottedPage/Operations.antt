-- ===== src/Record/SlottedPage/Operations.antt =====
-- A call on a page, and what it may leave.
use relational_db_engine.Common.{ℕ, ◌+◌, ◌-◌, ◌≡◌, ◌≢◌, ◌⊎◌, inl, inr, length, arith}
use relational_db_engine.Core.Status.{Result, ok, err, fault, ◌>>=◌}
use relational_db_engine.Core.Memory.{Bytes, AreBytes}
use relational_db_engine.Record.SlottedPage.{delete_row, update_row, insert_row}
use relational_db_engine.Record.SlottedPage.Invariant.{
  IsWellFormed, count, free_start, free_end, row_size,
}
use relational_db_engine.Record.SlottedPage.Insert.{insert_row-lem}
use relational_db_engine.Record.SlottedPage.Inserted.{inserted-IsWellFormed}
use relational_db_engine.Record.SlottedPage.Append.{insert_refused, space_cases}
use relational_db_engine.Record.SlottedPage.Read.{slot_cases, size_cases}
use relational_db_engine.Record.SlottedPage.Delete.{
  delete_live, delete_dead, delete_invalid, deleted-IsWellFormed,
}
use relational_db_engine.Record.SlottedPage.Update.{
  update_live, update_dead, update_resized, update_invalid, updated-IsWellFormed,
}

-- A call on a page; what a failed call leaves is the page as it was.
pub data PageCall : Type 0 where
  insert : Bytes → PageCall
  delete : ℕ → PageCall
  update : ℕ → Bytes → PageCall

abbrev pub second : ℕ × Bytes → Result Bytes
second (i, p) = ok p

unfoldable pub call : Bytes → PageCall → Result Bytes
call p (insert xs) = do r ← insert_row p xs; second r
call p (delete i) = delete_row p i
call p (update i xs) = update_row p i xs

abbrev pub HasBytes : PageCall → Type 0
HasBytes (insert xs) = AreBytes xs
HasBytes (delete i) = Unit {0}
HasBytes (update i xs) = AreBytes xs

-- The call returns a well-formed page or an error; it never leaves the page's memory.
abbrev pub Keeps : Result Bytes → Type 0
Keeps (ok q) = IsWellFormed q
Keeps (err c) = Unit {0}
Keeps fault = ⊥

module _ {p : Bytes} (w : IsWellFormed p) where
  insert-Keeps : (xs : Bytes) → AreBytes xs → Keeps (call p (insert xs))
  unfolding call
  insert-Keeps xs xb = elim (space_cases (length xs + 4) (free_end p - free_start p)) [
    | inl fits ↦ rw (insert_row-lem w xs xb fits) (inserted-IsWellFormed w xs xb fits)
    | inr full ↦ rw (insert_refused w xs full) tt
  ]

  delete-Keeps : (i : ℕ) → Keeps (call p (delete i))
  unfolding call
  delete-Keeps i = elim (slot_cases (count p) i) [
    | inr h ↦ rw (delete_invalid w i h) tt
    | inl h ↦ elim (size_cases (row_size p i)) [
      | inl dead ↦ rw (delete_dead w i h dead) tt
      | inr live ↦ rw (delete_live w i h live) (deleted-IsWellFormed w i h)
    ]
  ]

  update-Keeps : (i : ℕ) (xs : Bytes) → AreBytes xs → Keeps (call p (update i xs))
  unfolding call
  update-Keeps i xs xb = elim (slot_cases (count p) i) [
    | inr h ↦ rw (update_invalid w i xs h) tt
    | inl h ↦ elim (size_cases (row_size p i)) [
      | inl dead ↦ rw (update_dead w i h xs dead) tt
      | inr live ↦ elim (same_size (length xs) (row_size p i)) [
        | inl e ↦ rw (update_live w i h xs xb e live) (updated-IsWellFormed w i h xs xb e)
        | inr ne ↦ rw (update_resized w i h xs live ne) tt
      ]
    ]
  ]
    where
      same_size : (m n : ℕ) → (m ≡ n) ⊎ (m ≢ n)
      same_size m n = omega arith

-- Each of insertRow, deleteRow and updateRow on a well-formed page returns a well-formed page or an
-- error, and accesses no byte outside of the page.
pub call-Keeps : (p : Bytes) (c : PageCall) → IsWellFormed p → HasBytes c → Keeps (call p c)
call-Keeps p (insert xs) w b = insert-Keeps w xs b
call-Keeps p (delete i) w b = delete-Keeps w i
call-Keeps p (update i xs) w b = update-Keeps w i xs b
