-- ===== src/Tests/Pages.antt =====
-- The theorems at concrete inputs: the rows of a page.
use relational_db_engine.Common.{
  zero, suc, ◌+◌, ◌-◌, ◌≤◌, ◌≡◌, [], ◌∷◌, length, replicate, length-replicate, arith,
}
use relational_db_engine.Core.Constants.{invalid_page_id}
use relational_db_engine.Core.Status.{ok, ◌>>=◌}
use relational_db_engine.Core.Memory.{Bytes, AreBytes}
use relational_db_engine.Record.SlottedPage.{
  initialize, page_id, next_page_id, insert_row, read_row, delete_row, update_row,
}
use relational_db_engine.Record.SlottedPage.Invariant.{IsWellFormed, free_start, free_end}
use relational_db_engine.Record.SlottedPage.RowList
use relational_db_engine.Record.SlottedPage.Rows.{rows}
use relational_db_engine.Record.SlottedPage.Insert.{inserted}
use relational_db_engine.Record.SlottedPage.Inserted.{inserted-IsWellFormed}
use relational_db_engine.Record.SlottedPage.Initialize.{
  initialized, initialized-IsWellFormed, start_after_header, end_at_page, initialize-empty,
}
use relational_db_engine.Record.SlottedPage.Append.{viewed, insert_row-rows}
use relational_db_engine.Record.SlottedPage.Read.{read_row-rows}
use relational_db_engine.Record.SlottedPage.Delete.{delete_row-rows}
use relational_db_engine.Record.SlottedPage.Update.{update_row-rows}
use relational_db_engine.Record.SlottedPage.Operations
use relational_db_engine.Record.SlottedPage.Operations.{call, Keeps, call-Keeps}

-- A page, empty and with one row.
abbrev raw : Bytes
raw = replicate 4096 0

raw_size : length raw ≡ 4096
raw_size = length-replicate 4096 0

abbrev empty_page : Bytes
empty_page = initialized raw raw_size 7

empty_page-IsWellFormed : IsWellFormed empty_page
empty_page-IsWellFormed = initialized-IsWellFormed raw raw_size 7

abbrev payload : Bytes
payload = 104 ∷ 105 ∷ []

bytes_payload : AreBytes (104 ∷ 105 ∷ [])
bytes_payload zero = omega arith
bytes_payload (suc zero) = omega arith
bytes_payload (suc (suc i)) = omega arith

payload_fits : length payload + 4 ≤ free_end empty_page - free_start empty_page
payload_fits = omega (arith, start_after_header raw raw_size 7, end_at_page raw raw_size 7)

abbrev one_row : Bytes
one_row = inserted empty_page payload

one_row-IsWellFormed : IsWellFormed one_row
one_row-IsWellFormed =
    inserted-IsWellFormed empty_page-IsWellFormed payload bytes_payload payload_fits

initialize-empty_example :
    (p : Bytes) × (initialize raw 7 ≡ ok p)
    × IsWellFormed p
    × (rows p ≡ [])
    × (page_id p ≡ ok 7)
    × (next_page_id p ≡ ok invalid_page_id)
initialize-empty_example = initialize-empty raw 7 raw_size (omega arith)

insert_row-rows_example :
    (insert_row one_row payload >>= λ r. ok (viewed r))
    ≡ RowList.insert (rows one_row) (free_end one_row - free_start one_row) payload
insert_row-rows_example = insert_row-rows one_row payload one_row-IsWellFormed bytes_payload

read_row-rows_example : read_row one_row 0 ≡ RowList.read (rows one_row) 0
read_row-rows_example = read_row-rows one_row 0 one_row-IsWellFormed

delete_row-rows_example :
    (delete_row one_row 0 >>= λ q. ok (rows q)) ≡ RowList.delete (rows one_row) 0
delete_row-rows_example = delete_row-rows one_row 0 one_row-IsWellFormed

update_row-rows_example :
    (update_row one_row 0 payload >>= λ q. ok (rows q)) ≡ RowList.update (rows one_row) 0 payload
update_row-rows_example = update_row-rows one_row 0 payload one_row-IsWellFormed bytes_payload

call-Keeps_example : Keeps (call one_row (Operations.update 0 payload))
call-Keeps_example =
    call-Keeps one_row (Operations.update 0 payload) one_row-IsWellFormed bytes_payload
