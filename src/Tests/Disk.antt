-- ===== src/Tests/Disk.antt =====
-- The theorems at concrete inputs: the disk manager over concrete files.
use relational_db_engine.Common.{
  ℕ, zero, suc, ◌≡◌, refl, [], ◌∷◌, none, some, subst, ap, ◌==◌, ==_iff, if◌then◌else◌, true, false,
  length, replicate, arith,
}
use relational_db_engine.Core.Status.{ok, err, io_error}
use relational_db_engine.Core.Memory.{Bytes, AreBytes, peek, poke, copy_in}
use relational_db_engine.Core.Helper.{write_uint16, read_uint16, write_uint32, read_uint32}
use relational_db_engine.Storage.File.{FileApi}
use relational_db_engine.Storage.DiskManager.{
  Disk, allocate_page, ensure_open, read_page_at, write_page_at, read_header, free_page,
  check_page_id, refuse_free, free_page_bytes, write_header, header_bytes,
}
use relational_db_engine.Storage.DiskManager.Reopen.{ReadsBack, read-write_header}
use relational_db_engine.Storage.DiskManager.Counters.{Same}
use relational_db_engine.Storage.DiskManager.Allocate.{allocate_page-Same}
use relational_db_engine.Storage.DiskManager.Free.{free_page-Same}

-- A file that can be read and not written.
abbrev read_only : FileApi
read_only = record {
  World = Unit {0};
  exists = λ w. true;
  make_parent = λ w. (true, w);
  create_file = λ w. (true, w);
  open_file = λ w. (true, w);
  read_at = λ offset size w. (some (replicate size 0), w);
  write_at = λ offset bytes w. (false, w);
}

abbrev two_free : Disk read_only
two_free = record {
  magic = 1 ∷ 2 ∷ 3 ∷ 4 ∷ [];
  page_count = 9;
  first_free_page_id = 5;
  free_page_count = 2;
  world = tt;
}

allocate_fails : allocate_page read_only two_free ≡ (err io_error, two_free)
unfolding allocate_page ensure_open read_page_at write_page_at replicate read_uint32 peek
allocate_fails = refl

allocate_page-Same_example : Same read_only two_free two_free
allocate_page-Same_example =
    allocate_page-Same read_only two_free two_free io_error (omega arith) (omega arith)
      allocate_fails

free_fails : free_page read_only 3 two_free ≡ (err io_error, two_free)
unfolding free_page check_page_id ensure_open read_page_at refuse_free read_uint16 free_page_bytes
    write_uint32 write_uint16 write_page_at replicate peek poke
free_fails = refl

free_page-Same_example : Same read_only two_free two_free
free_page-Same_example = free_page-Same read_only two_free two_free 3 io_error free_fails

-- A file that holds the block that was written last.
abbrev one_block : FileApi
one_block = record {
  World = ℕ × Bytes;
  exists = λ w. true;
  make_parent = λ w. (true, w);
  create_file = λ w. (true, w);
  open_file = λ w. (true, w);
  read_at = λ offset size w. ((if w.0 == offset then some w.1 else none), w);
  write_at = λ offset bytes w. (true, (offset, bytes));
}

one_block-ReadsBack : ReadsBack one_block
one_block-ReadsBack o b w w' e =
    subst (λ v. one_block.read_at o (length b) v ≡ (some b, v)) (ap (λ r. r.1) e)
      (rw ((==_iff o o).1 refl) refl)

abbrev grown : Disk one_block
grown = record {
  magic = 68 ∷ 65 ∷ 78 ∷ 68 ∷ [];
  page_count = 7;
  first_free_page_id = 3;
  free_page_count = 2;
  world = (0, []);
}

bytes_dand : AreBytes grown.magic
bytes_dand zero = omega arith
bytes_dand (suc zero) = omega arith
bytes_dand (suc (suc zero)) = omega arith
bytes_dand (suc (suc (suc zero))) = omega arith
bytes_dand (suc (suc (suc (suc i)))) = omega arith

abbrev saved : Disk one_block
saved = (write_header one_block grown).1

header_saved : write_header one_block grown ≡ (ok tt, saved)
unfolding write_header header_bytes write_page_at replicate write_uint32 copy_in poke
header_saved = refl

read-write_header_example :
    read_header one_block
      (record saved { page_count = 0; first_free_page_id = 0; free_page_count = 0 })
    ≡ (ok tt, saved)
read-write_header_example =
    read-write_header one_block one_block-ReadsBack grown refl bytes_dand (omega arith)
      (omega arith) (omega arith) saved 0 0 0 header_saved
