-- ===== src/Record/SlottedPage/Pages.antt =====
-- A page-sized buffer under the 16-bit reads and writes of the page operations.
use relational_db_engine.Common.{ℕ, ◌+◌, ◌≤◌, ◌<◌, ◌≡◌, ◌∙◌, ◌⊎◌, length, arith}
use relational_db_engine.Core.Status.{ok}
use relational_db_engine.Core.Memory.{Bytes, AreBytes, copy_in}
use relational_db_engine.Core.Memory.Splice.{
  slice, splice, length-splice, AreBytes-splice, slice-splice_ne, copy_in-splice,
}
use relational_db_engine.Core.Helper.{read_uint16, write_uint16}
use relational_db_engine.Core.Helper.LittleEndian.{
  uint, le_bytes, AreBytes-le_bytes, length-le_bytes, read_uint16-lem, write_uint16-lem,
  uint-splice_self, uint-splice_ne, uint-lt,
}

pub record IsPage (p : Bytes) : Type 0 where
  pub size : length p ≡ 4096
  pub bytes : AreBytes p

-- The page after writeUint16(page, o, v).
unfoldable pub put16 : Bytes → ℕ → ℕ → Bytes
put16 p o v = splice p o (le_bytes 2 v)

pub splice-IsPage :
    {p : Bytes} (o : ℕ) (xs : Bytes) → IsPage p → AreBytes xs → IsPage (splice p o xs)
splice-IsPage {p} o xs w b = record {
  size = length-splice p o xs ∙ w.size;
  bytes = AreBytes-splice p o xs w.bytes b;
}

pub put16-IsPage : {p : Bytes} (o v : ℕ) → IsPage p → IsPage (put16 p o v)
unfolding put16
put16-IsPage o v w = splice-IsPage o (le_bytes 2 v) w (AreBytes-le_bytes 2 v)

module _ {p : Bytes} (w : IsPage p) where
  pub read16 : (o : ℕ) → o + 2 ≤ 4096 → read_uint16 p o ≡ ok (uint 2 p o)
  read16 o h = read_uint16-lem p o w.bytes (omega (arith, w.size))

  pub write16 : (o v : ℕ) → o + 2 ≤ 4096 → write_uint16 p o v ≡ ok (put16 p o v)
  unfolding put16
  write16 o v h = write_uint16-lem p o v (omega (arith, w.size))

  pub copied : (o : ℕ) (xs : Bytes) → o + length xs ≤ 4096 → copy_in p o xs ≡ ok (splice p o xs)
  copied o xs h = copy_in-splice p o xs (omega (arith, w.size))

  pub put16_self : (o v : ℕ) → v < 65536 → o + 2 ≤ 4096 → uint 2 (put16 p o v) o ≡ v
  unfolding put16
  put16_self o v h l = uint-splice_self p o v 2 h (omega (arith, w.size))

  pub uint16-lt : (o : ℕ) → uint 2 p o < 65536
  uint16-lt o = uint-lt 2 p o w.bytes

pub put16_ne :
    (p : Bytes) (o v r : ℕ) → (r + 2 ≤ o) ⊎ (o + 2 ≤ r) → uint 2 (put16 p o v) r ≡ uint 2 p r
unfolding put16
put16_ne p o v r h = uint-splice_ne 2 p o (le_bytes 2 v) r (rw (length-le_bytes 2 v) h)

pub slice-put16 :
    (p : Bytes) (o v r n : ℕ) → (r + n ≤ o) ⊎ (o + 2 ≤ r) → slice (put16 p o v) r n ≡ slice p r n
unfolding put16
slice-put16 p o v r n h = slice-splice_ne p o (le_bytes 2 v) r n (rw (length-le_bytes 2 v) h)
