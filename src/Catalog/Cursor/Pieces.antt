-- ===== src/Catalog/Cursor/Pieces.antt =====
-- A piece of a file: the bytes that stand at an offset, which alignment makes them depend on.
use relational_db_engine.Common.{
  ℕ, zero, suc, ◌+◌, ◌-◌, ◌≡◌, refl, ap, ◌∙◌, [], ◌∷◌, ◌++◌, length, get_or, set, replicate, arith,
}
use relational_db_engine.Core.Status.{ok}
use relational_db_engine.Core.Memory.{Bytes, AreBytes}
use relational_db_engine.Core.Memory.Splice.{slice, splice}
use relational_db_engine.Core.Exec.{Exec}
use relational_db_engine.Record.Layout.{align_to}
use relational_db_engine.Catalog.Cursor.{Cursor, at_offset}

abbrev pub zeros : ℕ → Bytes
zeros n = replicate n 0

abbrev pub Piece : Type 0
Piece = ℕ → Bytes

-- The bytes xs at any offset; two pieces, one behind the other; zeros up to a multiple.
abbrev pub const : Bytes → Piece
const xs o = xs

abbrev pub empty : Piece
empty o = []

infixr 20 ◌then◌
abbrev pub ◌then◌ : Piece → Piece → Piece
◌then◌ p q o = p o ++ q (o + length (p o))

abbrev pub pad : ℕ → Piece
pad alignment o = zeros (align_to o alignment - o)

splice-cons :
    (x : ℕ) (p : Bytes) (o : ℕ) (xs : Bytes) → splice (x ∷ p) (suc o) xs ≡ x ∷ splice p o xs
unfolding splice
splice-cons x p o [] = refl
splice-cons x p o (y ∷ xs) = splice-cons x (set p o y) (suc o) xs

splice-start :
    (mid xs rest : Bytes) → length mid ≡ length xs → splice (mid ++ rest) 0 xs ≡ xs ++ rest
unfolding splice
splice-start [] [] rest h = refl
splice-start (m ∷ mid) (x ∷ xs) rest h =
    splice-cons x (mid ++ rest) 0 xs ∙ ap (λ p. x ∷ p) (splice-start mid xs rest (omega arith))
splice-start [] (x ∷ xs) rest h = absurd (omega arith)
splice-start (m ∷ mid) [] rest h = absurd (omega arith)

pub splice-append :
    (pre mid xs rest : Bytes)
    → length mid ≡ length xs
    → splice (pre ++ (mid ++ rest)) (length pre) xs ≡ (pre ++ xs) ++ rest
splice-append [] mid xs rest h = splice-start mid xs rest h
splice-append (x ∷ pre) mid xs rest h =
    splice-cons x (pre ++ (mid ++ rest)) (length pre) xs
    ∙ ap (λ p. x ∷ p) (splice-append pre mid xs rest h)

slice-cons : (x : ℕ) (p : Bytes) (o n : ℕ) → slice (x ∷ p) (suc o) n ≡ slice p o n
unfolding slice
slice-cons x p o zero = refl
slice-cons x p o (suc n) = ap (λ xs. get_or p o 0 ∷ xs) (slice-cons x p (suc o) n)

slice-start : (xs rest : Bytes) → slice (xs ++ rest) 0 (length xs) ≡ xs
unfolding slice
slice-start [] rest = refl
slice-start (x ∷ xs) rest =
    ap (λ p. x ∷ p) (slice-cons x (xs ++ rest) 0 (length xs) ∙ slice-start xs rest)

pub slice-append : (pre xs rest : Bytes) → slice (pre ++ (xs ++ rest)) (length pre) (length xs) ≡ xs
slice-append [] xs rest = slice-start xs rest
slice-append (x ∷ pre) xs rest =
    slice-cons x (pre ++ (xs ++ rest)) (length pre) (length xs) ∙ slice-append pre xs rest

pub zeros-add : (m n : ℕ) → zeros (m + n) ≡ zeros m ++ zeros n
unfolding replicate
zeros-add zero n = let e : 0 + n ≡ n = omega arith in ap zeros e
zeros-add (suc m) n =
    let e : suc m + n ≡ suc (m + n) = omega arith in ap zeros e ∙ ap (λ p. 0 ∷ p) (zeros-add m n)

-- The writer turns zeros at its offset into the piece and moves behind it.
pub record Writes (m : Exec Cursor (Unit {0})) (p : Piece) : Type 0 where
  pub run :
      (o n : ℕ) (pre : Bytes)
      → length pre ≡ o
      → m (at_offset (pre ++ zeros (length (p o) + n)) o)
        ≡ (ok tt, at_offset ((pre ++ p o) ++ zeros n) (o + length (p o)))

-- The reader finds the piece at its offset, gives the value and moves behind the piece.
pub record Reads {A : Type 0} (m : Exec Cursor A) (p : Piece) (a : A) : Type 0 where
  pub run :
      (o : ℕ) (pre rest : Bytes)
      → length pre ≡ o
      → AreBytes (pre ++ (p o ++ rest))
      → m (at_offset (pre ++ (p o ++ rest)) o)
        ≡ (ok a, at_offset (pre ++ (p o ++ rest)) (o + length (p o)))
