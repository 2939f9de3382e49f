-- ===== src/Record/Codec/Bitmap.antt =====
-- The null bitmap: the bit that the loop of encode sets for each null value.
use relational_db_engine.Common.{
  ℕ, zero, suc, ◌+◌, ◌/◌, ◌%◌, ◌^◌, ◌≤◌, ◌<◌, ◌≡◌, ◌≢◌, refl, ap, sym, ◌∙◌, ◌⊎◌, inl, inr, List, [],
  ◌∷◌, Bool, true, false, not, length, get_or, set, length-set, get_or-set_self, get_or-set_ne,
  arith, bit_or, if◌then◌else◌,
}
use relational_db_engine.Common.Bits.{bit_of, set_bit-lt, set_bit_self, set_bit_ne}
use relational_db_engine.Core.Status.{ok, ◌>>=◌}
use relational_db_engine.Core.Memory.{Bytes, AreBytes, peek, poke}
use relational_db_engine.Core.Memory.Splice.{peek-get, poke-set, set-AreBytes}
use relational_db_engine.Record.Value.{Value, is_null}
use relational_db_engine.Record.Codec.{mark_null, mark_nulls}

-- Bit j of the bitmap that starts at byte 1.
unfoldable pub bit_at : Bytes → ℕ → ℕ
bit_at p j = bit_of (get_or p (1 + j / 8) 0) (j % 8)

abbrev pub null_bit : Bool → ℕ
null_bit true = 1
null_bit false = 0

-- The bit that stands for value j; no value, no bit.
abbrev pub flag : List Value → ℕ → ℕ
flag [] j = 0
flag (v ∷ vs) zero = null_bit (is_null v)
flag (v ∷ vs) (suc j) = flag vs j

marked : Bytes → ℕ → Bool → Bytes
marked p i false = p
marked p i true = set p (1 + i / 8) (bit_or (get_or p (1 + i / 8) 0) (2 ^ (i % 8) % 256))

length-marked : (p : Bytes) (i : ℕ) (b : Bool) → length (marked p i b) ≡ length p
unfolding marked
length-marked p i false = refl
length-marked p i true = length-set p _ _

AreBytes-marked : (p : Bytes) (i : ℕ) (b : Bool) → AreBytes p → AreBytes (marked p i b)
unfolding marked
AreBytes-marked p i false bs = bs
AreBytes-marked p i true bs =
    set-AreBytes p _ _ bs (set_bit-lt _ (i % 8) (bs (1 + i / 8)) (omega arith))

mark_null-marked :
    (p : Bytes) (i : ℕ) (v : Value)
    → 1 + i / 8 < length p
    → mark_null p 1 i v ≡ ok (marked p i (is_null v))
mark_null-marked p i v h = unfold mark_null in by_null (is_null v)
  where
    by_null :
        (b : Bool)
        → (if not b
            then ok p
            else (peek p (1 + i / 8) >>= λ c. poke p (1 + i / 8) (bit_or c (2 ^ (i % 8) % 256))))
          ≡ ok (marked p i b)
    by_null false = unfold marked in refl
    by_null true = rw (peek-get p (1 + i / 8) h) (unfold marked in poke-set p (1 + i / 8) _ h)

marked-other :
    (p : Bytes) (i : ℕ) (b : Bool) (k : ℕ)
    → k ≢ 1 + i / 8
    → get_or (marked p i b) k 0 ≡ get_or p k 0
unfolding marked
marked-other p i false k ne = refl
marked-other p i true k ne = get_or-set_ne p (1 + i / 8) k _ 0 (λ e. ne (sym e))

-- Another bit stays, in the same byte or in another one.
bit_at-marked_ne :
    (p : Bytes) (i : ℕ) (b : Bool) (j : ℕ)
    → AreBytes p
    → 1 + i / 8 < length p
    → j ≢ i
    → bit_at (marked p i b) j ≡ bit_at p j
unfolding bit_at marked
bit_at-marked_ne p i false j bs h ne = refl
bit_at-marked_ne p i true j bs h ne = elim (byte_cases (j / 8) (i / 8)) [
  | inl same ↦
      rw
        (
          same,
          get_or-set_self p (1 + i / 8) (bit_or (get_or p (1 + i / 8) 0) (2 ^ (i % 8) % 256)) 0 h,
        )
        (set_bit_ne _ (i % 8) (j % 8) (bs _) (omega arith) (omega arith) (omega arith))
  | inr other ↦
      ap (λ b. bit_of b (j % 8)) (get_or-set_ne p (1 + i / 8) (1 + j / 8) _ 0 (omega arith))
]
  where
    byte_cases : (a c : ℕ) → (a ≡ c) ⊎ (a ≢ c)
    byte_cases a c = omega arith

bit_at-marked_self :
    (p : Bytes) (i : ℕ) (b : Bool)
    → AreBytes p
    → 1 + i / 8 < length p
    → bit_at p i ≡ 0
    → bit_at (marked p i b) i ≡ null_bit b
unfolding bit_at marked
bit_at-marked_self p i false bs h z = z
bit_at-marked_self p i true bs h z =
    rw (get_or-set_self p (1 + i / 8) (bit_or (get_or p (1 + i / 8) 0) (2 ^ (i % 8) % 256)) 0 h)
      (set_bit_self _ (i % 8) (bs _) (omega arith))

-- What the loop leaves, from value i on.
pub record Marked (p q : Bytes) (i : ℕ) (vals : List Value) : Type 0 where
  pub size : length q ≡ length p
  pub bytes : AreBytes q
  pub first : get_or q 0 0 ≡ get_or p 0 0
  pub behind : (k : ℕ) → 1 + (i + length vals + 7) / 8 ≤ k → get_or q k 0 ≡ get_or p k 0
  pub earlier : (j : ℕ) → j < i → bit_at q j ≡ bit_at p j
  pub flags : (j : ℕ) → bit_at q (i + j) ≡ flag vals j

flags_of :
    (i : ℕ) (v : Value) (vals : List Value) (q : Bytes)
    → bit_at q i ≡ null_bit (is_null v)
    → ((j : ℕ) → bit_at q (suc i + j) ≡ flag vals j)
    → (j : ℕ) → bit_at q (i + j) ≡ flag (v ∷ vals) j
flags_of i v vals q here later zero = let e : i + 0 ≡ i = omega arith in rw e here
flags_of i v vals q here later (suc j) =
    let e : i + suc j ≡ suc i + j = omega arith in rw e (later j)

-- Where the bits from i on are clear, the loop sets those of the null values, and no others.
pub mark_nulls-Marked :
    (p : Bytes) (i : ℕ) (vals : List Value)
    → AreBytes p
    → 1 + (i + length vals + 7) / 8 ≤ length p
    → ((j : ℕ) → i ≤ j → bit_at p j ≡ 0)
    → (q : Bytes) × (mark_nulls p 1 i vals ≡ ok q) × Marked p q i vals
unfolding mark_nulls
mark_nulls-Marked p i [] bs h z = (
  p,
  refl,
  record {
    size = refl;
    bytes = bs;
    first = refl;
    behind = λ k l. refl;
    earlier = λ j l. refl;
    flags = λ j. z (i + j) (omega arith);
  },
)
mark_nulls-Marked p i (v ∷ vals) bs h z =
    let m = marked p i (is_null v) in
    let room : 1 + i / 8 < length p = omega arith in
    let here : bit_at p i ≡ 0 = z i (omega arith) in
    let (q, e, rest) =
      mark_nulls-Marked m (suc i) vals (AreBytes-marked p i (is_null v) bs)
        (omega (arith, length-marked p i (is_null v)))
        (λ j l. bit_at-marked_ne p i (is_null v) j bs room (omega arith) ∙ z j (omega arith)) in
    (
      q,
      rw (mark_null-marked p i v room) e,
      record {
        size = rest.size ∙ length-marked p i (is_null v);
        bytes = rest.bytes;
        first = rest.first ∙ marked-other p i (is_null v) 0 (omega arith);
        behind = λ k l. rest.behind k (omega arith) ∙ marked-other p i (is_null v) k (omega arith);
        earlier = λ j l.
            rest.earlier j (omega arith) ∙ bit_at-marked_ne p i (is_null v) j bs room (omega arith);
        flags =
            flags_of i v vals q
              (rest.earlier i (omega arith) ∙ bit_at-marked_self p i (is_null v) bs room here)
              rest.flags;
      },
    )
