-- ===== src/Core/Helper.antt =====
-- include/dandb/core/Helper.h: fixed-width integers in little-endian bytes. The loops of the three
-- widths are one loop here, over the width. `x >> 8*i` is `x / 2 ^ (8 * i)`.
pub mod LittleEndian
pub mod Faults
use relational_db_engine.Common.{
  ℕ, zero, suc, ◌+◌, ◌*◌, ◌/◌, ◌%◌, ◌^◌, ◌≡◌, refl, List, [], ◌∷◌, bit_or,
}
use relational_db_engine.Core.Status.{Result, ok, ◌>>=◌}
use relational_db_engine.Core.Memory.{Bytes, peek, poke, copy_in, copy_out}

-- for(i = ...) buffer[offset+i] = (value >> (8*i)) & 0xFF, with `rounds` rounds left.
write_loop : (rounds i : ℕ) → Bytes → ℕ → ℕ → Result Bytes
write_loop zero i buffer offset value = ok buffer
write_loop (suc rounds) i buffer offset value = do
  buffer' ← poke buffer (offset + i) (value / 2 ^ (8 * i) % 256)
  write_loop rounds (suc i) buffer' offset value

-- for(i = ...) res |= buffer[offset+i] << (8*i), with `rounds` rounds left.
read_loop : (rounds i res : ℕ) → Bytes → ℕ → Result ℕ
read_loop zero i res buffer offset = ok res
read_loop (suc rounds) i res buffer offset = do
  b ← peek buffer (offset + i)
  read_loop rounds (suc i) (bit_or res (b * 2 ^ (8 * i))) buffer offset

unfoldable pub write_uint16 : Bytes → ℕ → ℕ → Result Bytes
unfolding write_loop
write_uint16 buffer offset value = write_loop 2 0 buffer offset value

unfoldable pub read_uint16 : Bytes → ℕ → Result ℕ
unfolding read_loop
read_uint16 buffer offset = read_loop 2 0 0 buffer offset

unfoldable pub write_uint32 : Bytes → ℕ → ℕ → Result Bytes
unfolding write_loop
write_uint32 buffer offset value = write_loop 4 0 buffer offset value

unfoldable pub read_uint32 : Bytes → ℕ → Result ℕ
unfolding read_loop
read_uint32 buffer offset = read_loop 4 0 0 buffer offset

unfoldable pub write_uint64 : Bytes → ℕ → ℕ → Result Bytes
unfolding write_loop
write_uint64 buffer offset value = write_loop 8 0 buffer offset value

unfoldable pub read_uint64 : Bytes → ℕ → Result ℕ
unfolding read_loop
read_uint64 buffer offset = read_loop 8 0 0 buffer offset

-- A double is its eight bytes in memory, which is all that memcpy reads and writes.
unfoldable pub write_double : Bytes → ℕ → Bytes → Result Bytes
write_double buffer offset double_bytes = copy_in buffer offset double_bytes

unfoldable pub read_double : Bytes → ℕ → Result Bytes
read_double buffer offset = copy_out buffer offset 8
