-- ===== src/Record/Schema/Valid.antt =====
-- What create has checked.
use relational_db_engine.Common.{
  ℕ, ◌+◌, ◌≤◌, ◌<◌, ◌≡◌, ◌≢◌, refl, subst, List, [], ◌∷◌, length, Bool, true, false, ◌&&◌, ◌||◌,
  not, ltb, ◌==◌, arith, if◌then◌else◌,
}
use relational_db_engine.Core.Status.{
  Result, ok, err, fault, StatusCode, refuse, invalid_argument, ◌>>◌,
}
use relational_db_engine.Core.Memory.{Bytes}
use relational_db_engine.Record.LogicalType.{LogicalType, same_type}
use relational_db_engine.Record.Schema.{
  Column, Schema, same_name, seen, empty, check_column, check_columns, create,
}

-- A column by itself: a name of 1 to 65535 bytes, no nullable primary key, and a string capacity
-- just for strings.
pub record IsColumn (col : Column) : Type 0 where
  pub named : 0 < length col.name
  pub name_fits : length col.name ≤ 0xffff
  pub key : col.primary_key ≡ true → col.nullable ≡ false
  pub string : col.type ≡ LogicalType.string → 0 < col.string_capacity
  pub other : col.type ≢ LogicalType.string → col.string_capacity ≡ 0

abbrev pub AreColumns : List Column → Type 0
AreColumns [] = Unit {0}
AreColumns (col ∷ cols) = IsColumn col × AreColumns cols

abbrev pub Fresh : Bytes → List Column → Type 0
Fresh name [] = Unit {0}
Fresh name (col ∷ cols) = (col.name ≢ name) × Fresh name cols

-- No two columns have the same name.
abbrev pub AreDistinct : List Column → Type 0
AreDistinct [] = Unit {0}
AreDistinct (col ∷ cols) = Fresh col.name cols × AreDistinct cols

abbrev pub keys : List Column → ℕ
keys [] = 0
keys (col ∷ cols) = (if col.primary_key then 1 else 0) + keys cols

passed :
    {A : Type 0} (b : Bool) (c : StatusCode) (k : Result A) (a : A)
    → (refuse b c >> k) ≡ ok a
    → (b ≡ false) × (k ≡ ok a)
passed false c k a e = (refl, e)
passed true c k a e = cc

both_passed :
    {A : Type 0} (m : Result (Unit {0})) (k : Result A) {a : A}
    → (m >> k) ≡ ok a
    → (m ≡ ok tt) × (k ≡ ok a)
both_passed (ok u) k e = (refl, e)
both_passed (err c) k e = cc
both_passed fault k e = cc

last_passed : (b : Bool) (c : StatusCode) → refuse b c ≡ ok tt → b ≡ false
last_passed false c e = refl
last_passed true c e = cc

pub same_name_refl : (n : Bytes) → same_name n n ≡ true
same_name_refl [] = refl
same_name_refl (x ∷ n) = ground (arith, same_name_refl n)

pub nonempty : (n : Bytes) → empty n ≡ false → 0 < length n
nonempty [] e = cc
nonempty (x ∷ n) e = omega arith

string_sized :
    (t : LogicalType) (k : ℕ)
    → (same_type t LogicalType.string && (k == 0)) ≡ false
    → t ≡ LogicalType.string
    → 0 < k
string_sized t k e r =
    let at : (same_type LogicalType.string LogicalType.string && (k == 0)) ≡ false = rw r at e in
    ground arith

other_unsized :
    (t : LogicalType) (k : ℕ)
    → (not (same_type t LogicalType.string) && not (k == 0)) ≡ false
    → t ≢ LogicalType.string
    → k ≡ 0
other_unsized LogicalType.boolean k e ne = ground arith
other_unsized LogicalType.byte k e ne = ground arith
other_unsized LogicalType.int32 k e ne = ground arith
other_unsized LogicalType.int64 k e ne = ground arith
other_unsized LogicalType.double k e ne = ground arith
other_unsized LogicalType.string k e ne = absurd (ne refl)

column_checked :
    (names : List Bytes) (pk : Bool) (col : Column)
    → check_column names pk col ≡ ok tt
    → IsColumn col × (seen col.name names ≡ false) × ((col.primary_key && pk) ≡ false)
unfolding check_column
column_checked names pk col e =
    let (named, e1) = passed (empty col.name) invalid_argument _ tt e in
    let (fresh, e2) = passed (seen col.name names) invalid_argument _ tt e1 in
    let (fits, e3) = passed (ltb 0xffff (length col.name)) invalid_argument _ tt e2 in
    let (one, e4) = passed (col.primary_key && pk) invalid_argument _ tt e3 in
    let (key, e5) = passed (col.primary_key && col.nullable) invalid_argument _ tt e4 in
    let (str, e6) =
      passed (same_type col.type LogicalType.string && (col.string_capacity == 0)) invalid_argument
        _ tt e5 in
    let other = last_passed _ invalid_argument e6 in
    (
      record {
        named = nonempty col.name named;
        name_fits = ground arith;
        key = λ k. ground arith;
        string = λ t. string_sized col.type col.string_capacity str t;
        other = λ t. other_unsized col.type col.string_capacity other t;
      },
      fresh,
      one,
    )

seen_later : (names : List Bytes) (n m : Bytes) → seen n names ≡ true → seen n (m ∷ names) ≡ true
seen_later names n m e = ground (arith, e)

-- What the loop knows: no later column has a name that was seen, and after a primary key no later
-- column is one.
record Checked (names : List Bytes) (pk : Bool) (cols : List Column) : Type 0 where
  columns : AreColumns cols
  fresh : (n : Bytes) → seen n names ≡ true → Fresh n cols
  distinct : AreDistinct cols
  one_key : keys cols ≤ 1
  no_more : pk ≡ true → keys cols ≡ 0

or_true : (b : Bool) → (b || true) ≡ true
or_true true = refl
or_true false = refl

key_counted :
    (b pk : Bool) (k : ℕ) → k ≤ 1 → ((pk || b) ≡ true → k ≡ 0) → (if b then 1 else 0) + k ≤ 1
key_counted true pk k l h = omega (arith, h (or_true pk))
key_counted false pk k l h = omega arith

no_key :
    (b pk : Bool) (k : ℕ)
    → (b && pk) ≡ false
    → pk ≡ true
    → ((pk || b) ≡ true → k ≡ 0)
    → (if b then 1 else 0) + k ≡ 0
no_key true true k e p h = cc
no_key true false k e p h = cc
no_key false true k e p h = omega (arith, h refl)
no_key false false k e p h = cc

columns-Checked :
    (names : List Bytes) (pk : Bool) (cols : List Column)
    → check_columns names pk cols ≡ ok tt
    → Checked names pk cols
unfolding check_columns
columns-Checked names pk [] e = record {
  columns = tt;
  fresh = λ n s. tt;
  distinct = tt;
  one_key = omega arith;
  no_more = λ p. refl;
}
columns-Checked names pk (col ∷ cols) e =
    let (here, later) =
      both_passed (check_column names pk col)
        (check_columns (col.name ∷ names) (pk || col.primary_key) cols) e in
    let (c, new, one) = column_checked names pk col here in
    let rest = columns-Checked (col.name ∷ names) (pk || col.primary_key) cols later in
    record {
      columns = (c, rest.columns);
      fresh = λ n s. (
        (λ r. let at : seen n names ≡ false = subst (λ m. seen m names ≡ false) r new in cc),
        rest.fresh n (seen_later names n col.name s),
      );
      distinct = (rest.fresh col.name (rw (same_name_refl col.name) refl), rest.distinct);
      one_key = key_counted col.primary_key pk (keys cols) rest.one_key rest.no_more;
      no_more = λ p. no_key col.primary_key pk (keys cols) one p rest.no_more;
    }

nonempty_list : (cols : List Column) → empty cols ≡ false → 0 < length cols
nonempty_list [] e = cc
nonempty_list (col ∷ cols) e = omega arith

-- A schema that create returns holds the given columns, 1 to 255 of them; each is valid by itself,
-- their names are distinct, and at most one is a primary key.
pub create-AreColumns :
    (columns : List Column) (s : Schema)
    → create columns ≡ ok s
    → (s.columns ≡ columns)
      × (0 < length columns)
      × (length columns ≤ 255)
      × AreColumns columns
      × AreDistinct columns
      × (keys columns ≤ 1)
unfolding create
create-AreColumns columns s e =
    let (some_columns, e1) = passed (empty columns) invalid_argument _ s e in
    let (few, e2) = passed (ltb 255 (length columns)) invalid_argument _ s e1 in
    let (checked, made) = both_passed (check_columns [] false columns) _ e2 in
    let c = columns-Checked [] false columns checked in
    (
      ground arith,
      nonempty_list columns some_columns,
      ground arith,
      c.columns,
      c.distinct,
      c.one_key,
    )
