-- ===== src/Core/Memory.antt =====
-- Byte buffers: std::array, std::vector and std::span of std::byte, and memcpy / std::copy on them.
-- A byte is a number below 256. An access outside of the buffer is a fault.
pub mod Splice
use relational_db_engine.Common.{
  ℕ, zero, suc, ◌+◌, ◌<◌, List, [], ◌∷◌, Option, none, some, length, get_elem?, get_or, set, ltb,
  if◌then◌else◌,
}
use relational_db_engine.Core.Status.{Result, ok, fault, ◌>>=◌}

abbrev pub Bytes : Type 0
Bytes = List ℕ

abbrev pub AreBytes : Bytes → Type 0
AreBytes p = (i : ℕ) → get_or p i 0 < 256

abbrev pub or_fault {ℓ} : {A : Type ℓ} → Option A → Result A
or_fault none = fault
or_fault (some a) = ok a

-- buffer[i]
unfoldable pub peek : Bytes → ℕ → Result ℕ
peek buffer i = or_fault (get_elem? buffer i)

-- buffer[i] = b
unfoldable pub poke : Bytes → ℕ → ℕ → Result Bytes
poke buffer i b = if ltb i (length buffer) then ok (set buffer i b) else fault

-- memcpy(buffer+offset, source, source.size())
unfoldable pub copy_in : Bytes → ℕ → Bytes → Result Bytes
unfolding poke
copy_in buffer offset [] = ok buffer
copy_in buffer offset (b ∷ source) = do
  buffer' ← poke buffer offset b
  copy_in buffer' (suc offset) source

-- memcpy(result, buffer+offset, count)
unfoldable pub copy_out : Bytes → ℕ → ℕ → Result Bytes
unfolding peek
copy_out buffer offset zero = ok []
copy_out buffer offset (suc count) = do
  b ← peek buffer offset
  bs ← copy_out buffer (suc offset) count
  ok (b ∷ bs)
