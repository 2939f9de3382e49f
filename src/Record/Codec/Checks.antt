-- ===== src/Record/Codec/Checks.antt =====
-- The checks of encode, and values that fit their columns.
use relational_db_engine.Common.{
  suc, ◌≡◌, refl, ap, sym, ◌⊎◌, inl, inr, List, [], ◌∷◌, Bool, true, false, not, ◌&&◌, length,
  arith, Bool-cases,
}
use relational_db_engine.Core.Status.{ok, err, invalid_argument}
use relational_db_engine.Record.LogicalType.{LogicalType, same_type}
use relational_db_engine.Record.Schema.{Column}
use relational_db_engine.Record.Value.{Value, type, is_null}
use relational_db_engine.Record.Codec.{too_long, check_value, check_values}
use relational_db_engine.Record.Codec.Values.{Fits, AllFit}

same_type_sound : (t u : LogicalType) → same_type t u ≡ true → t ≡ u
same_type_sound t u h = ground arith

same_type_refl : (t : LogicalType) → same_type t t ≡ true
same_type_refl t = ground arith

-- A value that fits passes; any other is an invalid argument.
check_value-Fits :
    (c : Column) (v : Value)
    → (Fits c v × (check_value c v ≡ ok tt))
      ⊎ ((¬ Fits c v) × (check_value c v ≡ err invalid_argument))
unfolding check_value
check_value-Fits c v = elim (Bool-cases (same_type (type v) c.type)) [
  | inr other ↦ inr (
    λ f. cc (other, sym (ap (λ t. same_type (type v) t) f.typed), same_type_refl (type v)),
    rw other,
  )
  | inl same ↦ elim (Bool-cases (is_null v && not c.nullable)) [
    | inl bad ↦ inr (λ f. null_clash (is_null v) c.nullable bad f.nulls, rw (same, bad))
    | inr fine ↦ elim (Bool-cases (too_long v c.string_capacity)) [
      | inl long ↦ inr (λ f. cc (long, f.short), rw (same, fine, long))
      | inr short ↦ inl (
        record {
          typed = same_type_sound (type v) c.type same;
          nulls = nulls_ok (is_null v) c.nullable fine;
          short = short;
        },
        rw (same, fine, short),
      )
    ]
  ]
]
  where
    null_clash : (n m : Bool) → (n && not m) ≡ true → (n ≡ true → m ≡ true) → ⊥
    null_clash true true bad f = cc
    null_clash true false bad f = cc (f refl)
    null_clash false m bad f = cc

    nulls_ok : (n m : Bool) → (n && not m) ≡ false → n ≡ true → m ≡ true
    nulls_ok true true fine e = refl
    nulls_ok true false fine e = cc
    nulls_ok false m fine e = cc

pub check_values-AllFit :
    (cs : List Column) (vs : List Value)
    → length vs ≡ length cs
    → (AllFit cs vs × (check_values cs vs ≡ ok tt))
      ⊎ ((¬ AllFit cs vs) × (check_values cs vs ≡ err invalid_argument))
unfolding check_values
check_values-AllFit [] [] e = inl (tt, refl)
check_values-AllFit [] (v ∷ vs) e = absurd (omega arith)
check_values-AllFit (c ∷ cs) [] e = absurd (omega arith)
check_values-AllFit (c ∷ cs) (v ∷ vs) e = elim (check_value-Fits c v) [
  | inr (bad, r) ↦ inr (λ f. bad f.0, rw r)
  | inl (fit, r) ↦ elim (check_values-AllFit cs vs (omega arith)) [
    | inl (fits, rs) ↦ inl ((fit, fits), rw (r, rs))
    | inr (bad, rs) ↦ inr (λ f. bad f.1, rw (r, rs))
  ]
]

pub AllFit-length : (cs : List Column) (vs : List Value) → AllFit cs vs → length vs ≡ length cs
AllFit-length [] [] f = refl
AllFit-length [] (v ∷ vs) f = absurd f
AllFit-length (c ∷ cs) [] f = absurd f
AllFit-length (c ∷ cs) (v ∷ vs) f = ap suc (AllFit-length cs vs f.1)
