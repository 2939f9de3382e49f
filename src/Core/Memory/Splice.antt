-- ===== src/Core/Memory/Splice.antt =====
-- What the copies do where they stay in the buffer: `slice` and `splice` are total.
use relational_db_engine.Common.{
  ℕ, zero, suc, ◌+◌, ◌≤◌, ◌<◌, [], ◌∷◌, ◌≡◌, refl, ap, sym, ◌∙◌, ◌⊎◌, inl, inr, length, get_or, set,
  length-set, get_elem?-get_or, get_or-set_self, get_or-set_ne, lt→ltb, arith, replicate,
  get_or-replicate,
}
use relational_db_engine.Core.Status.{ok}
use relational_db_engine.Core.Memory.{Bytes, AreBytes, peek, poke, copy_in, copy_out}

unfoldable pub slice : Bytes → ℕ → ℕ → Bytes
slice p o zero = []
slice p o (suc n) = get_or p o 0 ∷ slice p (suc o) n

unfoldable pub splice : Bytes → ℕ → Bytes → Bytes
splice p o [] = p
splice p o (x ∷ xs) = splice (set p o x) (suc o) xs

pub length-slice : (p : Bytes) (o n : ℕ) → length (slice p o n) ≡ n
unfolding slice
length-slice p o zero = refl
length-slice p o (suc n) = ap suc (length-slice p (suc o) n)

pub length-splice : (p : Bytes) (o : ℕ) (xs : Bytes) → length (splice p o xs) ≡ length p
unfolding splice
length-splice p o [] = refl
length-splice p o (x ∷ xs) = length-splice (set p o x) (suc o) xs ∙ length-set p o x

pub peek-get : (p : Bytes) (i : ℕ) → i < length p → peek p i ≡ ok (get_or p i 0)
unfolding peek
peek-get p i h = rw (get_elem?-get_or p i 0 h)

pub poke-set : (p : Bytes) (i b : ℕ) → i < length p → poke p i b ≡ ok (set p i b)
unfolding poke
poke-set p i b h = rw (lt→ltb _ _ h)

pub copy_out-slice : (p : Bytes) (o n : ℕ) → o + n ≤ length p → copy_out p o n ≡ ok (slice p o n)
unfolding copy_out slice
copy_out-slice p o zero h = refl
copy_out-slice p o (suc n) h =
    rw (peek-get p o (omega arith), copy_out-slice p (suc o) n (omega arith))

pub copy_in-splice :
    (p : Bytes) (o : ℕ) (xs : Bytes)
    → o + length xs ≤ length p
    → copy_in p o xs ≡ ok (splice p o xs)
unfolding copy_in splice
copy_in-splice p o [] h = refl
copy_in-splice p o (x ∷ xs) h =
    rw (poke-set p o x (omega arith))
      (copy_in-splice (set p o x) (suc o) xs (omega (arith, length-set p o x)))

pub get_or-splice_before :
    (p : Bytes) (o : ℕ) (xs : Bytes) (i : ℕ) → i < o → get_or (splice p o xs) i 0 ≡ get_or p i 0
unfolding splice
get_or-splice_before p o [] i h = refl
get_or-splice_before p o (x ∷ xs) i h =
    get_or-splice_before (set p o x) (suc o) xs i (omega arith)
    ∙ get_or-set_ne p o i x 0 (omega arith)

pub get_or-splice_after :
    (p : Bytes) (o : ℕ) (xs : Bytes) (i : ℕ)
    → o + length xs ≤ i
    → get_or (splice p o xs) i 0 ≡ get_or p i 0
unfolding splice
get_or-splice_after p o [] i h = refl
get_or-splice_after p o (x ∷ xs) i h =
    get_or-splice_after (set p o x) (suc o) xs i (omega arith)
    ∙ get_or-set_ne p o i x 0 (omega arith)

pub get_or-splice_inside :
    (p : Bytes) (o : ℕ) (xs : Bytes) (k : ℕ)
    → o + length xs ≤ length p
    → k < length xs
    → get_or (splice p o xs) (o + k) 0 ≡ get_or xs k 0
unfolding splice
get_or-splice_inside p o [] k h l = absurd (omega arith)
get_or-splice_inside p o (x ∷ xs) zero h l =
    let e : o + 0 ≡ o = omega arith in
    rw e (
      get_or-splice_before (set p o x) (suc o) xs o (omega arith)
      ∙ get_or-set_self p o x 0 (omega arith))
get_or-splice_inside p o (x ∷ xs) (suc k) h l =
    let e : o + suc k ≡ suc o + k = omega arith in
    rw e (
      get_or-splice_inside (set p o x) (suc o) xs k (omega (arith, length-set p o x)) (omega arith))

pub first_at :
    (p q : Bytes) (o r : ℕ) → get_or p (o + 0) 0 ≡ get_or q (r + 0) 0 → get_or p o 0 ≡ get_or q r 0
first_at p q o r e =
    let a : o ≡ o + 0 = omega arith in
    let b : r ≡ r + 0 = omega arith in
    ap (λ (i : ℕ). get_or p i 0) a ∙ e ∙ ap (λ (i : ℕ). get_or q i 0) (sym b)

-- Slices agree where the bytes do.
pub slice_ext :
    (p q : Bytes) (o r n : ℕ)
    → ((k : ℕ) → k < n → get_or p (o + k) 0 ≡ get_or q (r + k) 0)
    → slice p o n ≡ slice q r n
unfolding slice
slice_ext p q o r zero h = refl
slice_ext p q o r (suc n) h =
    let head : get_or p o 0 ≡ get_or q r 0 = first_at p q o r (h 0 (omega arith)) in
    rw (
      head,
      slice_ext p q (suc o) (suc r) n λ k l.
          let a : suc o + k ≡ o + suc k = omega arith in
          let b : suc r + k ≡ r + suc k = omega arith in rw (a, b) (h (suc k) (omega arith)),
    )

pub slice-splice_ne :
    (p : Bytes) (o : ℕ) (xs : Bytes) (r n : ℕ)
    → (r + n ≤ o) ⊎ (o + length xs ≤ r)
    → slice (splice p o xs) r n ≡ slice p r n
slice-splice_ne p o xs r n (inl h) =
    slice_ext _ _ r r n λ k l. get_or-splice_before p o xs (r + k) (omega arith)
slice-splice_ne p o xs r n (inr h) =
    slice_ext _ _ r r n λ k l. get_or-splice_after p o xs (r + k) (omega arith)

slice-suc : (x : ℕ) (p : Bytes) (o n : ℕ) → slice (x ∷ p) (suc o) n ≡ slice p o n
slice-suc x p o n =
    slice_ext (x ∷ p) p (suc o) o n λ k l. let e : suc o + k ≡ suc (o + k) = omega arith in rw e

slice-whole : (xs : Bytes) → slice xs 0 (length xs) ≡ xs
unfolding slice
slice-whole [] = refl
slice-whole (x ∷ xs) = ap (◌∷◌ x) (slice-suc x xs 0 (length xs) ∙ slice-whole xs)

pub slice-splice_self :
    (p : Bytes) (o : ℕ) (xs : Bytes)
    → o + length xs ≤ length p
    → slice (splice p o xs) o (length xs) ≡ xs
slice-splice_self p o xs h =
    slice_ext (splice p o xs) xs o 0 (length xs)
      (λ k l. let e : 0 + k ≡ k = omega arith in rw e (get_or-splice_inside p o xs k h l))
    ∙ slice-whole xs

pub set-AreBytes : (p : Bytes) (i x : ℕ) → AreBytes p → x < 256 → AreBytes (set p i x)
set-AreBytes [] i x bs h j = bs j
set-AreBytes (y ∷ p) zero x bs h zero = h
set-AreBytes (y ∷ p) zero x bs h (suc j) = bs (suc j)
set-AreBytes (y ∷ p) (suc i) x bs h zero = bs 0
set-AreBytes (y ∷ p) (suc i) x bs h (suc j) = set-AreBytes p i x (λ k. bs (suc k)) h j

pub AreBytes-splice :
    (p : Bytes) (o : ℕ) (xs : Bytes) → AreBytes p → AreBytes xs → AreBytes (splice p o xs)
unfolding splice
AreBytes-splice p o [] bs xb = bs
AreBytes-splice p o (x ∷ xs) bs xb =
    AreBytes-splice (set p o x) (suc o) xs (set-AreBytes p o x bs (xb 0)) (λ k. xb (suc k))

pub AreBytes-replicate : (n : ℕ) → AreBytes (replicate n 0)
AreBytes-replicate n i = rw (get_or-replicate {A = ℕ} n i 0) (omega arith)

pub AreBytes-slice : (p : Bytes) (o n : ℕ) → AreBytes p → AreBytes (slice p o n)
unfolding slice
AreBytes-slice p o zero bs i = omega arith
AreBytes-slice p o (suc n) bs zero = bs o
AreBytes-slice p o (suc n) bs (suc i) = AreBytes-slice p (suc o) n bs i
