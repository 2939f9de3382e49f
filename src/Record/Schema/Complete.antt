-- ===== src/Record/Schema/Complete.antt =====
-- create on a valid list of columns.
use relational_db_engine.Common.{
  ℕ, ◌+◌, ◌≤◌, ◌<◌, ◌≡◌, ◌≢◌, refl, sym, subst, ◌⊎◌, inl, inr, List, [], ◌∷◌, length, Bool, true,
  false, ◌&&◌, ◌||◌, not, ltb, ◌==◌, arith, if◌then◌else◌, Bool-cases,
}
use relational_db_engine.Core.Status.{ok}
use relational_db_engine.Core.Memory.{Bytes}
use relational_db_engine.Record.LogicalType.{LogicalType, same_type}
use relational_db_engine.Record.Schema.{
  Column, same_name, seen, empty, check_column, check_columns, create,
}
use relational_db_engine.Record.Schema.Valid.{IsColumn, AreColumns, Fresh, AreDistinct, keys}

pub same_name_sound : (a b : Bytes) → same_name a b ≡ true → a ≡ b
same_name_sound [] [] e = refl
same_name_sound [] (y ∷ b) e = cc
same_name_sound (x ∷ a) [] e = cc
same_name_sound (x ∷ a) (y ∷ b) e = ground (arith, same_name_sound a b)

non_empty : (n : Bytes) → 0 < length n → empty n ≡ false
non_empty [] h = absurd (omega arith)
non_empty (x ∷ n) h = refl

string_ok :
    (t : LogicalType) (k : ℕ)
    → (t ≡ LogicalType.string → 0 < k)
    → (same_type t LogicalType.string && (k == 0)) ≡ false
string_ok LogicalType.string k h = let pos : 0 < k = h refl in ground arith
string_ok LogicalType.boolean k h = refl
string_ok LogicalType.byte k h = refl
string_ok LogicalType.int32 k h = refl
string_ok LogicalType.int64 k h = refl
string_ok LogicalType.double k h = refl

other_ok :
    (t : LogicalType) (k : ℕ)
    → (t ≢ LogicalType.string → k ≡ 0)
    → (not (same_type t LogicalType.string) && not (k == 0)) ≡ false
other_ok LogicalType.string k h = refl
other_ok LogicalType.boolean k h = rw (h (λ e. cc)) refl
other_ok LogicalType.byte k h = rw (h (λ e. cc)) refl
other_ok LogicalType.int32 k h = rw (h (λ e. cc)) refl
other_ok LogicalType.int64 k h = rw (h (λ e. cc)) refl
other_ok LogicalType.double k h = rw (h (λ e. cc)) refl

and_false : (a b : Bool) → (a ≡ true → b ≡ false) → (a && b) ≡ false
and_false true b h = h refl
and_false false b h = refl

fits : (n : ℕ) (m : ℕ) → n ≤ m → ltb m n ≡ false
fits n m h = ground arith

column_passes :
    (names : List Bytes) (pk : Bool) (col : Column)
    → IsColumn col
    → seen col.name names ≡ false
    → (col.primary_key && pk) ≡ false
    → check_column names pk col ≡ ok tt
unfolding check_column
column_passes names pk col c new one =
    rw
      (
        non_empty col.name c.named,
        new,
        fits (length col.name) 0xffff c.name_fits,
        one,
        and_false col.primary_key col.nullable c.key,
        string_ok col.type col.string_capacity c.string,
        other_ok col.type col.string_capacity c.other,
      )
      refl

no_repeat : (names : List Bytes) (n : Bytes) → (seen n names ≡ true → n ≢ n) → seen n names ≡ false
no_repeat names n h = elim (Bool-cases (seen n names)) [
  | inl found ↦ absurd (h found refl)
  | inr new ↦ new
]

in_front :
    (names : List Bytes) (n m : Bytes) → seen n (m ∷ names) ≡ true → (n ≡ m) ⊎ (seen n names ≡ true)
in_front names n m e = elim (Bool-cases (same_name n m)) [
  | inl same ↦ inl (same_name_sound n m same)
  | inr differ ↦ inr (ground (arith, e, differ))
]

key_alone : (b pk : Bool) (k : ℕ) → (pk ≡ true → (if b then 1 else 0) + k ≡ 0) → (b && pk) ≡ false
key_alone b pk k h = ground (arith, h)

keys_after :
    (b pk : Bool) (k : ℕ)
    → (if b then 1 else 0) + k ≤ 1
    → (pk ≡ true → (if b then 1 else 0) + k ≡ 0)
    → (pk || b) ≡ true
    → k ≡ 0
keys_after b true k l h e = omega (arith, h refl)
keys_after true false k l h e = omega arith
keys_after false false k l h e = cc

fewer : (b : Bool) (k : ℕ) → (if b then 1 else 0) + k ≤ 1 → k ≤ 1
fewer true k l = omega arith
fewer false k l = omega arith

columns_pass :
    (names : List Bytes) (pk : Bool) (cols : List Column)
    → AreColumns cols
    → ((n : Bytes) → seen n names ≡ true → Fresh n cols)
    → AreDistinct cols
    → keys cols ≤ 1
    → (pk ≡ true → keys cols ≡ 0)
    → check_columns names pk cols ≡ ok tt
unfolding check_columns
columns_pass names pk [] c fresh d one no_more = refl
columns_pass names pk (col ∷ cols) c fresh d one no_more =
    let new = no_repeat names col.name (λ s. (fresh col.name s).0) in
    let alone = key_alone col.primary_key pk (keys cols) no_more in
    rw (column_passes names pk col c.0 new alone) (
      columns_pass (col.name ∷ names) (pk || col.primary_key) cols c.1
        (λ n s. still_fresh n (in_front names n col.name s)) d.1
        (fewer col.primary_key (keys cols) one)
        (keys_after col.primary_key pk (keys cols) one no_more))
  where
    still_fresh : (n : Bytes) → (n ≡ col.name) ⊎ (seen n names ≡ true) → Fresh n cols
    still_fresh n (inl e) = subst (λ m. Fresh m cols) (sym e) d.0
    still_fresh n (inr s) = (fresh n s).1

some_columns : (cols : List Column) → 0 < length cols → empty cols ≡ false
some_columns [] h = absurd (omega arith)
some_columns (col ∷ cols) h = refl

-- From 1 to 255 columns that are valid by themselves, have distinct names, and of which at most one
-- is a primary key, create makes the schema.
pub create_complete :
    (columns : List Column)
    → 0 < length columns
    → length columns ≤ 255
    → AreColumns columns
    → AreDistinct columns
    → keys columns ≤ 1
    → create columns ≡ ok (record { columns = columns })
unfolding create
create_complete columns some few c d one =
    rw
      (
        some_columns columns some,
        fits (length columns) 255 few,
        columns_pass [] false columns c (λ n s. cc) d one (λ e. cc),
      )
      refl
