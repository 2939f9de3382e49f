-- ===== src/Catalog/Cursor/Writing.antt =====
-- The writers, piece by piece.
use mathlib.Core.List.{append_assoc, append-nil}
use relational_db_engine.Common.{
  ℕ, ◌+◌, ◌-◌, ◌≤◌, ◌<◌, ◌≡◌, refl, ap, ◌∙◌, [], ◌∷◌, ◌++◌, length, get_or, replicate,
  length-append, length-replicate, arith,
}
use relational_db_engine.Common.Bits.{zero-bit_or}
use relational_db_engine.Core.Status.{ok}
use relational_db_engine.Core.Memory.{Bytes}
use relational_db_engine.Core.Memory.Splice.{splice, peek-get, poke-set, copy_in-splice}
use relational_db_engine.Core.Helper.LittleEndian.{
  le_bytes, length-le_bytes, write_uint16-lem, write_uint32-lem,
}
use relational_db_engine.Core.Exec.{Exec, return}
use relational_db_engine.Core.Exec
use relational_db_engine.Record.Layout.{align_to, align_to_bounds}
use relational_db_engine.Catalog.Cursor.{
  Cursor, at_offset, skip, align, put_byte, or_byte, put_uint16, put_uint32, put_bytes,
}
use relational_db_engine.Catalog.Cursor.Pieces.{
  zeros, Piece, const, empty, ◌then◌, pad, splice-append, zeros-add, Writes,
}

module _ (m : Exec Cursor (Unit {0})) (xs : Bytes) where
  Writes-splice :
      ((c : Cursor)
        → c.offset + length xs ≤ length c.bytes
        → m c ≡ (ok tt, at_offset (splice c.bytes c.offset xs) (c.offset + length xs)))
      → Writes m (const xs)
  Writes-splice h = record {
    run = λ o n pre e.
        let whole = pre ++ zeros (length xs + n) in
        let room : o + length xs ≤ length whole = omega (
          arith,
          length-append pre (zeros (length xs + n)),
          length-replicate {A = ℕ} (length xs + n) 0,
        ) in
        let wrote : splice whole o xs ≡ (pre ++ xs) ++ zeros n =
          rw (zeros-add (length xs) n, ← e)
            (splice-append pre (zeros (length xs)) xs (zeros n)
              (length-replicate {A = ℕ} (length xs) 0)) in
        h (at_offset whole o) room ∙ ap (λ b. (ok tt, at_offset b (o + length xs))) wrote;
  }

pub put_byte-Writes : (b : ℕ) → Writes (put_byte b) (const (b ∷ []))
unfolding put_byte splice
put_byte-Writes b =
    Writes-splice (put_byte b) (b ∷ []) λ c h. rw (poke-set c.bytes c.offset b (omega arith)) refl

pub put_uint16-Writes : (v : ℕ) → Writes (put_uint16 v) (const (le_bytes 2 v))
unfolding put_uint16
put_uint16-Writes v = Writes-splice (put_uint16 v) (le_bytes 2 v) λ c h.
    rw (write_uint16-lem c.bytes c.offset v (rw (length-le_bytes 2 v) at h), length-le_bytes 2 v)
      refl

pub put_uint32-Writes : (v : ℕ) → Writes (put_uint32 v) (const (le_bytes 4 v))
unfolding put_uint32
put_uint32-Writes v = Writes-splice (put_uint32 v) (le_bytes 4 v) λ c h.
    rw (write_uint32-lem c.bytes c.offset v (rw (length-le_bytes 4 v) at h), length-le_bytes 4 v)
      refl

pub put_bytes-Writes : (xs : Bytes) → Writes (put_bytes xs) (const xs)
unfolding put_bytes
put_bytes-Writes xs =
    Writes-splice (put_bytes xs) xs λ c h. rw (copy_in-splice c.bytes c.offset xs h) refl

-- Over a zero, `|=` stores the byte.
zero_at : (pre rest : Bytes) → get_or (pre ++ (0 ∷ rest)) (length pre) 0 ≡ 0
zero_at [] rest = refl
zero_at (x ∷ pre) rest = zero_at pre rest

one_zero : zeros 1 ≡ 0 ∷ []
unfolding replicate
one_zero = refl

pub or_byte-Writes : (b : ℕ) → Writes (or_byte b) (const (b ∷ []))
unfolding or_byte put_byte
or_byte-Writes b = record {
  run = λ o n pre e.
      let whole = pre ++ zeros (1 + n) in
      let room : o < length whole =
        omega (arith, length-append pre (zeros (1 + n)), length-replicate {A = ℕ} (1 + n) 0) in
      let clear : get_or whole o 0 ≡ 0 =
        rw (zeros-add 1 n, one_zero, ← e) (zero_at pre (zeros n)) in
      rw (peek-get whole o room, clear, zero-bit_or b) ((put_byte-Writes b).run o n pre e);
}

-- What lies between the pieces is left as it was.
pub skip-Writes : (k : ℕ) → Writes (skip k) (const (zeros k))
skip-Writes k = record {
  run = λ o n pre e.
      let l : length (zeros k) ≡ k = length-replicate k 0 in
      rw (l, zeros-add k n, append_assoc pre (zeros k) (zeros n)) refl;
}

pub align-Writes : (a : ℕ) → 0 < a → Writes (align a) (pad a)
align-Writes a pos = record {
  run = λ o n pre e.
      let k = align_to o a - o in
      let l : length (zeros k) ≡ k = length-replicate k 0 in
      let up : o + k ≡ align_to o a = omega (arith, align_to_bounds o a pos) in
      rw (l, zeros-add k n, append_assoc pre (zeros k) (zeros n), up) refl;
}

pub Writes-then :
    {m k : Exec Cursor (Unit {0})} {p q : Piece}
    → Writes m p
    → Writes k q
    → Writes (Exec.◌>>◌ m k) (p then q)
Writes-then {m} {k} {p} {q} wm wk = record {
  run = λ o n pre e.
      let f = p o in
      let g = q (o + length f) in
      let size : length (f ++ g) + n ≡ length f + (length g + n) =
        omega (arith, length-append f g) in
      let behind : length (pre ++ f) ≡ o + length f = omega (arith, e, length-append pre f) in
      let total : o + length f + length g ≡ o + length (f ++ g) =
        omega (arith, length-append f g) in
      rw
        (
          size,
          wm.run o (length g + n) pre e,
          wk.run (o + length f) n (pre ++ f) behind,
          append_assoc pre f g,
          total,
        )
        refl;
}

pub Writes-nothing : Writes (return tt) empty
Writes-nothing = record {
  run = λ o n pre e.
      let at : o ≡ o + 0 = omega arith in
      let all : 0 + n ≡ n = omega arith in rw (all, append-nil pre, ← at) refl;
}
