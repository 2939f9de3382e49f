-- ===== src/Catalog/Cursor/Reading.antt =====
-- The readers, piece by piece.
use mathlib.Core.List.{append_assoc}
use relational_db_engine.Common.{
  ℕ, ◌+◌, ◌-◌, ◌^◌, ◌≤◌, ◌<◌, ◌≡◌, refl, sym, ap, subst, [], ◌∷◌, ◌++◌, length, get_or,
  length-append, length-replicate, arith,
}
use relational_db_engine.Core.Status.{Result, ok}
use relational_db_engine.Core.Memory.{Bytes, AreBytes}
use relational_db_engine.Core.Memory.Splice.{slice, peek-get, copy_out-slice}
use relational_db_engine.Core.Helper.LittleEndian.{
  le_bytes, uint, length-le_bytes, read_uint16-lem, read_uint32-lem, le_value-le_bytes,
}
use relational_db_engine.Core.Exec.{Exec, return, lift}
use relational_db_engine.Core.Exec
use relational_db_engine.Record.Layout.{align_to, align_to_bounds}
use relational_db_engine.Catalog.Cursor.{
  Cursor, at_offset, skip, align, take_byte, take_uint16, take_uint32, take_bytes,
}
use relational_db_engine.Catalog.Cursor.Pieces.{
  zeros, Piece, const, empty, ◌then◌, pad, slice-append, Reads,
}

module _ {A : Type 0} (m : Exec Cursor A) (xs : Bytes) (a : A) where
  Reads-slice :
      ((c : Cursor)
        → AreBytes c.bytes
        → c.offset + length xs ≤ length c.bytes
        → slice c.bytes c.offset (length xs) ≡ xs
        → m c ≡ (ok a, at_offset c.bytes (c.offset + length xs)))
      → Reads m (const xs) a
  Reads-slice h = record {
    run = λ o pre rest e bs.
        let whole = pre ++ (xs ++ rest) in
        let room : o + length xs ≤ length whole =
          omega (arith, e, length-append pre (xs ++ rest), length-append xs rest) in
        h (at_offset whole o) bs room (rw (← e) (slice-append pre xs rest));
  }

pub take_byte-Reads : (b : ℕ) → Reads take_byte (const (b ∷ [])) b
unfolding take_byte slice
take_byte-Reads b = Reads-slice take_byte (b ∷ []) b λ c bs h e.
    let at : get_or c.bytes c.offset 0 ≡ b = ap (λ p. get_or p 0 0) e in
    rw (peek-get c.bytes c.offset (omega arith), at) refl

pub take_uint16-Reads : (v : ℕ) → v < 2 ^ 16 → Reads take_uint16 (const (le_bytes 2 v)) v
unfolding take_uint16 uint
take_uint16-Reads v small = Reads-slice take_uint16 (le_bytes 2 v) v λ c bs h e.
    let at : slice c.bytes c.offset 2 ≡ le_bytes 2 v = rw (length-le_bytes 2 v) at e in
    rw
      (
        read_uint16-lem c.bytes c.offset bs (rw (length-le_bytes 2 v) at h),
        at,
        le_value-le_bytes 2 v small,
        length-le_bytes 2 v,
      )
      refl

pub take_uint32-Reads : (v : ℕ) → v < 2 ^ 32 → Reads take_uint32 (const (le_bytes 4 v)) v
unfolding take_uint32 uint
take_uint32-Reads v small = Reads-slice take_uint32 (le_bytes 4 v) v λ c bs h e.
    let at : slice c.bytes c.offset 4 ≡ le_bytes 4 v = rw (length-le_bytes 4 v) at e in
    rw
      (
        read_uint32-lem c.bytes c.offset bs (rw (length-le_bytes 4 v) at h),
        at,
        le_value-le_bytes 4 v small,
        length-le_bytes 4 v,
      )
      refl

pub take_bytes-Reads : (xs : Bytes) → Reads (take_bytes (length xs)) (const xs) xs
unfolding take_bytes
take_bytes-Reads xs =
    Reads-slice (take_bytes (length xs)) xs xs
      λ c bs h e. rw (copy_out-slice c.bytes c.offset (length xs) h, e) refl

pub skip-Reads : (k : ℕ) → Reads (skip k) (const (zeros k)) tt
skip-Reads k = record {
  run = λ o pre rest e bs. let l : length (zeros k) ≡ k = length-replicate k 0 in rw l refl;
}

pub align-Reads : (a : ℕ) → 0 < a → Reads (align a) (pad a) tt
align-Reads a pos = record {
  run = λ o pre rest e bs.
      let k = align_to o a - o in
      let l : length (zeros k) ≡ k = length-replicate k 0 in
      let up : o + k ≡ align_to o a = omega (arith, align_to_bounds o a pos) in rw (l, up) refl;
}

module _ {A B : Type 0} {m : Exec Cursor A} (k : A → Exec Cursor B) {a : A} {b : B} where
  pub Reads-then :
      {p q : Piece} → Reads m p a → Reads (k a) q b → Reads (Exec.◌>>=◌ m k) (p then q) b
  Reads-then {p} {q} rm rk = record {
    run = λ o pre rest e bs.
        let f = p o in
        let g = q (o + length f) in
        let inner : (f ++ g) ++ rest ≡ f ++ (g ++ rest) = append_assoc f g rest in
        let outer : (pre ++ f) ++ (g ++ rest) ≡ pre ++ (f ++ (g ++ rest)) =
          append_assoc pre f (g ++ rest) in
        let behind : length (pre ++ f) ≡ o + length f = omega (arith, e, length-append pre f) in
        let total : o + length f + length g ≡ o + length (f ++ g) =
          omega (arith, length-append f g) in
        let bytes : AreBytes (pre ++ (f ++ (g ++ rest))) =
          subst (λ t. AreBytes (pre ++ t)) inner bs in
        let second =
          rk.run (o + length f) (pre ++ f) rest behind (subst AreBytes (sym outer) bytes) in
        rw (inner, rm.run o pre (g ++ rest) e bytes, ← outer, second, total) refl;
  }

  pub Reads-last :
      {p : Piece} → Reads m p a → ((c : Cursor) → k a c ≡ (ok b, c)) → Reads (Exec.◌>>=◌ m k) p b
  Reads-last {p} rm h = record {
    run = λ o pre rest e bs.
        rw (rm.run o pre rest e bs) (h (at_offset (pre ++ (p o ++ rest)) (o + length (p o))));
  }

-- A step that reads nothing.
pub lift-Reads :
    {A B : Type 0} {r : Result A} (k : A → Exec Cursor B) {a : A} {b : B} {q : Piece}
    → r ≡ ok a
    → Reads (k a) q b
    → Reads (Exec.◌>>=◌ (lift r) k) q b
lift-Reads k {q = q} h rk = record { run = λ o pre rest e bs. rw h (rk.run o pre rest e bs) }

-- The same for a step that gives no value.
module _ {B : Type 0} {k : Exec Cursor B} {b : B} where
  pub Reads-then_unit :
      {m : Exec Cursor (Unit {0})} {p q : Piece}
      → Reads m p tt
      → Reads k q b
      → Reads (Exec.◌>>◌ m k) (p then q) b
  Reads-then_unit rm rk = Reads-then (λ u. k) rm rk

  pub lift-Reads_unit :
      {r : Result (Unit {0})} {q : Piece}
      → r ≡ ok tt
      → Reads k q b
      → Reads (Exec.◌>>◌ (lift r) k) q b
  lift-Reads_unit h rk = lift-Reads (λ u. k) h rk

  pub Reads-last_unit :
      {m : Exec Cursor (Unit {0})} {p : Piece}
      → Reads m p tt
      → ((c : Cursor) → k c ≡ (ok b, c))
      → Reads (Exec.◌>>◌ m k) p b
  Reads-last_unit rm h = Reads-last (λ u. k) rm h

pub Reads-nothing : {A : Type 0} (a : A) → Reads (return a) empty a
Reads-nothing a = record { run = λ o pre rest e bs. let at : o + 0 ≡ o = omega arith in rw at refl }
