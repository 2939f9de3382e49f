-- ===== src/Core/Helper/LittleEndian.antt =====
-- The loops of Helper.h against a plain description: the bytes of a number, lowest first.
use native.Mathlib.Nat.{div-div-eq-div-mul, mul_comm, pow-suc}
use native.Mathlib.Numerals.{towards_suc}
use relational_db_engine.Common.{
  ℕ, zero, suc, ◌+◌, ◌*◌, ◌/◌, ◌%◌, ◌^◌, ◌≤◌, ◌<◌, ◌≡◌, refl, sym, ap, ◌∙◌, [], ◌∷◌, length, get_or,
  set, length-set, arith, ◌⊎◌,
}
use relational_db_engine.Common.Bits.{bit_or-shift}
use relational_db_engine.Core.Status.{ok, ◌>>=◌}
use relational_db_engine.Core.Memory.{Bytes, AreBytes}
use relational_db_engine.Core.Memory.Splice.{
  slice_ext, slice, splice, peek-get, poke-set, slice-splice_self, slice-splice_ne, length-splice,
  AreBytes-splice,
}
use relational_db_engine.Core.Helper.{
  write_loop, read_loop, write_uint16, read_uint16, write_uint32, read_uint32, write_uint64,
  read_uint64,
}

-- The lowest n bytes of v.
pub le_bytes : ℕ → ℕ → Bytes
le_bytes zero v = []
le_bytes (suc n) v = (v % 256) ∷ le_bytes n (v / 256)

pub le_value : Bytes → ℕ
le_value [] = 0
le_value (b ∷ bs) = b + 256 * le_value bs

pub length-le_bytes : (n v : ℕ) → length (le_bytes n v) ≡ n
unfolding le_bytes
length-le_bytes zero v = refl
length-le_bytes (suc n) v = ap suc (length-le_bytes n (v / 256))

shift_step : (i : ℕ) → 2 ^ (8 * suc i) ≡ 256 * 2 ^ (8 * i)
shift_step i = let e : 8 * suc i ≡ 8 * i + 8 = omega arith in rw e (simp towards_suc (omega arith))

shift_next : (i v : ℕ) → v / 2 ^ (8 * suc i) ≡ v / 2 ^ (8 * i) / 256
shift_next i v = rw (shift_step i, mul_comm 256 (2 ^ (8 * i))) (sym (div-div-eq-div-mul v _ 256))

byte_fits : (b res w : ℕ) → b < 256 → res < w → res + b * w < 256 * w
byte_fits b res w hb hr = grind arith

write_loop-splice :
    (n i : ℕ) (p : Bytes) (o v : ℕ)
    → o + i + n ≤ length p
    → write_loop n i p o v ≡ ok (splice p (o + i) (le_bytes n (v / 2 ^ (8 * i))))
unfolding write_loop splice le_bytes
write_loop-splice zero i p o v h = refl
write_loop-splice (suc n) i p o v h =
    let next : o + suc i ≡ suc (o + i) = omega arith in
    rw (poke-set p (o + i) (v / 2 ^ (8 * i) % 256) (omega arith)) (
      write_loop-splice n (suc i) (set p (o + i) (v / 2 ^ (8 * i) % 256)) o v
        (omega (arith, length-set p (o + i) (v / 2 ^ (8 * i) % 256)))
      ∙ rw (next, shift_next i v))

regroup : (res b w rest : ℕ) → res + b * w + 256 * w * rest ≡ res + w * (b + 256 * rest)
regroup res b w rest = omega arith

read_loop-value :
    (n i res : ℕ) (p : Bytes) (o : ℕ)
    → AreBytes p
    → o + i + n ≤ length p
    → res < 2 ^ (8 * i)
    → read_loop n i res p o ≡ ok (res + 2 ^ (8 * i) * le_value (slice p (o + i) n))
unfolding read_loop slice le_value
read_loop-value zero i res p o bs h r = ap ok (omega arith)
read_loop-value (suc n) i res p o bs h r =
    let b = get_or p (o + i) 0 in
    let next : o + suc i ≡ suc (o + i) = omega arith in
    let rest = le_value (slice p (suc (o + i)) n) in
    rw (peek-get p (o + i) (omega arith), bit_or-shift (8 * i) res b r)
      (read_loop-value n (suc i) (res + b * 2 ^ (8 * i)) p o bs (omega arith)
          (rw (shift_step i) (byte_fits b res (2 ^ (8 * i)) (bs (o + i)) r))
        ∙ rw (next, shift_step i) (ap ok (regroup res b (2 ^ (8 * i)) rest)))

pub le_value-le_bytes : (n v : ℕ) → v < 256 ^ n → le_value (le_bytes n v) ≡ v
unfolding le_value le_bytes
le_value-le_bytes zero v h = omega arith
le_value-le_bytes (suc n) v h =
    omega (arith, le_value-le_bytes n (v / 256) (omega (arith, pow-suc 256 n)))

le_bytes-lt : (n v i : ℕ) → get_or (le_bytes n v) i 0 < 256
unfolding le_bytes
le_bytes-lt zero v i = omega arith
le_bytes-lt (suc n) v zero = omega arith
le_bytes-lt (suc n) v (suc i) = le_bytes-lt n (v / 256) i

-- The number that n bytes from o on hold.
unfoldable pub uint : ℕ → Bytes → ℕ → ℕ
uint n p o = le_value (slice p o n)

start : (o : ℕ) → o + 0 ≡ o
start o = omega arith

write_loop-lem :
    (n : ℕ) (p : Bytes) (o v : ℕ)
    → o + n ≤ length p
    → write_loop n 0 p o v ≡ ok (splice p o (le_bytes n v))
write_loop-lem n p o v h =
    let e : v / 2 ^ (8 * 0) ≡ v = omega arith in
    write_loop-splice n 0 p o v (omega arith) ∙ rw (start o, e)

read_loop-lem :
    (n : ℕ) (p : Bytes) (o : ℕ)
    → AreBytes p
    → o + n ≤ length p
    → read_loop n 0 0 p o ≡ ok (uint n p o)
unfolding uint
read_loop-lem n p o bs h =
    read_loop-value n 0 0 p o bs (omega arith) (omega arith) ∙ rw (start o) (ap ok (omega arith))

module _ (p : Bytes) (o v : ℕ) where
  pub write_uint16-lem : o + 2 ≤ length p → write_uint16 p o v ≡ ok (splice p o (le_bytes 2 v))
  unfolding write_uint16
  write_uint16-lem h = write_loop-lem 2 p o v h

  pub write_uint32-lem : o + 4 ≤ length p → write_uint32 p o v ≡ ok (splice p o (le_bytes 4 v))
  unfolding write_uint32
  write_uint32-lem h = write_loop-lem 4 p o v h

  pub write_uint64-lem : o + 8 ≤ length p → write_uint64 p o v ≡ ok (splice p o (le_bytes 8 v))
  unfolding write_uint64
  write_uint64-lem h = write_loop-lem 8 p o v h

  -- A number that fits is read back from where it was written.
  pub uint-splice_self :
      (n : ℕ) → v < 256 ^ n → o + n ≤ length p → uint n (splice p o (le_bytes n v)) o ≡ v
  unfolding uint
  uint-splice_self n h l =
      let e = length-le_bytes n v in
      ap le_value (
        ap (slice (splice p o (le_bytes n v)) o) (sym e)
        ∙ slice-splice_self p o (le_bytes n v) (rw e l))
      ∙ le_value-le_bytes n v h

module _ (p : Bytes) (o : ℕ) (bs : AreBytes p) where
  pub read_uint16-lem : o + 2 ≤ length p → read_uint16 p o ≡ ok (uint 2 p o)
  unfolding read_uint16
  read_uint16-lem h = read_loop-lem 2 p o bs h

  pub read_uint32-lem : o + 4 ≤ length p → read_uint32 p o ≡ ok (uint 4 p o)
  unfolding read_uint32
  read_uint32-lem h = read_loop-lem 4 p o bs h

  pub read_uint64-lem : o + 8 ≤ length p → read_uint64 p o ≡ ok (uint 8 p o)
  unfolding read_uint64
  read_uint64-lem h = read_loop-lem 8 p o bs h

-- Bytes elsewhere do not matter.
pub uint-splice_ne :
    (n : ℕ) (p : Bytes) (o : ℕ) (xs : Bytes) (r : ℕ)
    → (r + n ≤ o) ⊎ (o + length xs ≤ r)
    → uint n (splice p o xs) r ≡ uint n p r
unfolding uint
uint-splice_ne n p o xs r h = ap le_value (slice-splice_ne p o xs r n h)

le_value-lt : (n : ℕ) (p : Bytes) (o : ℕ) → AreBytes p → le_value (slice p o n) < 256 ^ n
unfolding le_value slice
le_value-lt zero p o bs = omega arith
le_value-lt (suc n) p o bs = omega (arith, le_value-lt n p (suc o) bs, bs o, pow-suc 256 n)

pub uint-lt : (n : ℕ) (p : Bytes) (o : ℕ) → AreBytes p → uint n p o < 256 ^ n
unfolding uint
uint-lt = le_value-lt

pub AreBytes-le_bytes : (n v : ℕ) → AreBytes (le_bytes n v)
AreBytes-le_bytes = le_bytes-lt

-- What writeUint16, writeUint32 and writeUint64 write where eight bytes are left, readUint16,
-- readUint32 and readUint64 read back, for every value of the width.
pub read-write :
    (p : Bytes) (o v w x : ℕ)
    → AreBytes p
    → o + 8 ≤ length p
    → v < 2 ^ 16
    → w < 2 ^ 32
    → x < 2 ^ 64
    → ((write_uint16 p o v >>= λ q. read_uint16 q o) ≡ ok v)
      × ((write_uint32 p o w >>= λ q. read_uint32 q o) ≡ ok w)
      × ((write_uint64 p o x >>= λ q. read_uint64 q o) ≡ ok x)
read-write p o v w x bs h hv hw hx = (
  rw (write_uint16-lem p o v (omega arith)) (
      read_uint16-lem _ o (wrote 2 v) (bound 2 v (omega arith))
      ∙ ap ok (uint-splice_self p o v 2 hv (omega arith))),
  rw (write_uint32-lem p o w (omega arith)) (
      read_uint32-lem _ o (wrote 4 w) (bound 4 w (omega arith))
      ∙ ap ok (uint-splice_self p o w 4 hw (omega arith))),
  rw (write_uint64-lem p o x (omega arith)) (
      read_uint64-lem _ o (wrote 8 x) (bound 8 x (omega arith))
      ∙ ap ok (uint-splice_self p o x 8 hx (omega arith))),
)
  where
    wrote : (n u : ℕ) → AreBytes (splice p o (le_bytes n u))
    wrote n u = AreBytes-splice p o (le_bytes n u) bs (le_bytes-lt n u)

    bound : (n u : ℕ) → o + n ≤ length p → o + n ≤ length (splice p o (le_bytes n u))
    bound n u l = rw (length-splice p o (le_bytes n u)) l

-- Numbers agree where the bytes do.
pub uint_ext :
    (n : ℕ) (p q : Bytes) (o : ℕ)
    → ((k : ℕ) → k < n → get_or p (o + k) 0 ≡ get_or q (o + k) 0)
    → uint n p o ≡ uint n q o
unfolding uint
uint_ext n p q o h = ap le_value (slice_ext p q o o n h)
