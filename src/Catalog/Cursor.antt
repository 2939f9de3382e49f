-- ===== src/Catalog/Cursor.antt =====
-- How src/catalog/TableManager.cpp goes through the bytes of its metadata file: a buffer and the
-- variable `offset`.
pub mod Pieces
pub mod Writing
pub mod Reading
use relational_db_engine.Common.{ℕ, ◌+◌, length, bit_or}
use relational_db_engine.Core.Status.{◌>>=◌}
use relational_db_engine.Core.Status
use relational_db_engine.Core.Memory.{Bytes, peek, poke, copy_in, copy_out}
use relational_db_engine.Core.Helper.{write_uint16, read_uint16, write_uint32, read_uint32}
use relational_db_engine.Core.Exec.{Exec, lift, modify, gets}
use relational_db_engine.Core.Exec
use relational_db_engine.Record.Layout.{align_to}

pub record Cursor : Type 0 where
  pub bytes : Bytes
  pub offset : ℕ

abbrev pub at_offset : Bytes → ℕ → Cursor
at_offset bytes offset = record { bytes = bytes; offset = offset }

-- offset += n
abbrev pub skip : ℕ → Exec Cursor (Unit {0})
skip n c = (Status.ok tt, at_offset c.bytes (c.offset + n))

-- offset = alignTo(offset, alignment)
abbrev pub align : ℕ → Exec Cursor (Unit {0})
align alignment c = (Status.ok tt, at_offset c.bytes (align_to c.offset alignment))

-- A write at the offset, which then moves on by n.
abbrev advance : ℕ → Status.Result Bytes → Exec Cursor (Unit {0})
advance n (Status.ok bytes) c = (Status.ok tt, at_offset bytes (c.offset + n))
advance n (Status.err e) c = (Status.err e, c)
advance n Status.fault c = (Status.fault, c)

unfoldable pub put_byte : ℕ → Exec Cursor (Unit {0})
put_byte b c = advance 1 (poke c.bytes c.offset b) c

-- bytes[offset] |= b; offset++
unfoldable pub or_byte : ℕ → Exec Cursor (Unit {0})
or_byte b c = advance 1 (peek c.bytes c.offset >>= λ a. poke c.bytes c.offset (bit_or a b)) c

unfoldable pub put_uint16 : ℕ → Exec Cursor (Unit {0})
put_uint16 v c = advance 2 (write_uint16 c.bytes c.offset v) c

unfoldable pub put_uint32 : ℕ → Exec Cursor (Unit {0})
put_uint32 v c = advance 4 (write_uint32 c.bytes c.offset v) c

unfoldable pub put_bytes : Bytes → Exec Cursor (Unit {0})
put_bytes xs c = advance (length xs) (copy_in c.bytes c.offset xs) c

-- A read at the offset, which then moves on by n.
abbrev passing {ℓ} : {A : Type ℓ} → ℕ → Status.Result A → Cursor → Status.Result A × Cursor
passing n (Status.ok a) c = (Status.ok a, at_offset c.bytes (c.offset + n))
passing n (Status.err e) c = (Status.err e, c)
passing n Status.fault c = (Status.fault, c)

unfoldable pub take_byte : Exec Cursor ℕ
take_byte c = passing 1 (peek c.bytes c.offset) c

unfoldable pub take_uint16 : Exec Cursor ℕ
take_uint16 c = passing 2 (read_uint16 c.bytes c.offset) c

unfoldable pub take_uint32 : Exec Cursor ℕ
take_uint32 c = passing 4 (read_uint32 c.bytes c.offset) c

unfoldable pub take_bytes : ℕ → Exec Cursor Bytes
take_bytes n c = passing n (copy_out c.bytes c.offset n) c
