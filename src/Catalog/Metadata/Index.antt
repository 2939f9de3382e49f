-- ===== src/Catalog/Metadata/Index.antt =====
-- What the tables, the index by name and the next table id are to each other.
use relational_db_engine.Common.{
  ℕ, suc, ◌+◌, ◌≤◌, ◌<◌, ◌≡◌, ◌≢◌, refl, sym, ◌∙◌, subst, inl, inr, List, [], ◌∷◌, ◌++◌, length,
  get_elem?, true, false, Option, none, some, if◌then◌else◌, Bool-cases, arith,
}
use relational_db_engine.Core.Memory.{Bytes}
use relational_db_engine.Record.Schema.{same_name}
use relational_db_engine.Record.Schema.Valid.{same_name_refl}
use relational_db_engine.Record.Schema.Complete.{same_name_sound}
use relational_db_engine.Catalog.Metadata.{TableMetadata, find_name, is_known}

abbrev pub All : (TableMetadata → Type 0) → List TableMetadata → Type 0
All P [] = Unit {0}
All P (table ∷ tables) = P table × All P tables

-- No two tables have the same key.
abbrev pub AreDistinctBy : {K : Type 0} → (TableMetadata → K) → List TableMetadata → Type 0
AreDistinctBy key [] = Unit {0}
AreDistinctBy key (table ∷ tables) = All (λ t. key t ≢ key table) tables × AreDistinctBy key tables

-- The place of the first table of a name, where the first of the list has place i.
abbrev pub position : ℕ → Bytes → List TableMetadata → Option ℕ
position i name [] = none
position i name (table ∷ tables) =
    if same_name table.name name then some i else position (suc i) name tables

-- Table ids and names are distinct, no table has the next id or a later one, and the index gives for
-- each name the place of its table.
pub record IsCatalog (next : ℕ) (tables : List TableMetadata) (index : List (Bytes × ℕ))
    : Type 0 where
  pub ids : AreDistinctBy (λ t. t.table_id) tables
  pub names : AreDistinctBy (λ t. t.name) tables
  pub below : All (λ t. t.table_id < next) tables
  pub places : (name : Bytes) → find_name name index ≡ position 0 name tables

pub All-map :
    {P Q : TableMetadata → Type 0} (tables : List TableMetadata)
    → ((t : TableMetadata) → P t → Q t)
    → All P tables
    → All Q tables
All-map [] f a = tt
All-map (table ∷ tables) f a = (f table a.0, All-map tables f a.1)

pub All-append :
    (P : TableMetadata → Type 0) (tables : List TableMetadata) (t : TableMetadata)
    → All P tables
    → P t
    → All P (tables ++ (t ∷ []))
All-append P [] t a p = (p, tt)
All-append P (table ∷ tables) t a p = (a.0, All-append P tables t a.1 p)

AreDistinctBy-append :
    {K : Type 0} (key : TableMetadata → K) (tables : List TableMetadata) (t : TableMetadata)
    → AreDistinctBy key tables
    → All (λ other. key other ≢ key t) tables
    → AreDistinctBy key (tables ++ (t ∷ []))
AreDistinctBy-append key [] t d new = (tt, tt)
AreDistinctBy-append key (table ∷ tables) t d new =
    (All-append _ tables t d.0 (λ e. new.0 (sym e)), AreDistinctBy-append key tables t d.1 new.1)

-- A name that is at no place is no table's.
pub position-none :
    (tables : List TableMetadata) (i : ℕ) (name : Bytes)
    → position i name tables ≡ none
    → All (λ t. t.name ≢ name) tables
position-none [] i name e = tt
position-none (table ∷ tables) i name e = elim (Bool-cases (same_name table.name name)) [
  | inl same ↦ let at : some i ≡ none = rw same at e in cc
  | inr differ ↦
      let at : position (suc i) name tables ≡ none = rw differ at e in
      (
        (λ r.
            let yes : same_name table.name name ≡ true =
              subst (λ n. same_name table.name n ≡ true) r (same_name_refl table.name) in
            cc),
        position-none tables (suc i) name at,
      )
]

-- The place of a name is that of a table of the name.
pub position-some :
    (tables : List TableMetadata) (i j : ℕ) (name : Bytes)
    → position i name tables ≡ some j
    → (k : ℕ) × (t : TableMetadata) × (i + k ≡ j) × (get_elem? tables k ≡ some t) × (t.name ≡ name)
position-some [] i j name e = cc
position-some (table ∷ tables) i j name e = elim (Bool-cases (same_name table.name name)) [
  | inl same ↦
      let at : some i ≡ some j = rw same at e in
      let here : i ≡ j = cc in (0, table, omega arith, refl, same_name_sound table.name name same)
  | inr differ ↦
      let at : position (suc i) name tables ≡ some j = rw differ at e in
      let (k, t, l, found, named) = position-some tables (suc i) j name at in
      (suc k, t, omega arith, found, named)
]

pub none-position :
    (tables : List TableMetadata) (i : ℕ) (name : Bytes)
    → All (λ t. t.name ≢ name) tables
    → position i name tables ≡ none
none-position [] i name a = refl
none-position (table ∷ tables) i name a = elim (Bool-cases (same_name table.name name)) [
  | inl same ↦ absurd (a.0 (same_name_sound table.name name same))
  | inr differ ↦ rw differ (none-position tables (suc i) name a.1)
]

pub unknown_none : (o : Option ℕ) → is_known o ≡ false → o ≡ none
unknown_none none e = refl
unknown_none (some i) e = cc

or_else : Option ℕ → Option ℕ → Option ℕ
or_else none b = b
or_else (some a) b = some a

position-append :
    (tables : List TableMetadata) (t : TableMetadata) (i : ℕ) (name : Bytes)
    → position i name (tables ++ (t ∷ []))
      ≡ or_else
          (position i name tables)
          (if same_name t.name name then some (i + length tables) else none)
unfolding or_else
position-append [] t i name = let e : i + 0 ≡ i = omega arith in rw e refl
position-append (table ∷ tables) t i name = elim (Bool-cases (same_name table.name name)) [
  | inl same ↦ rw same refl
  | inr differ ↦
      let e : i + suc (length tables) ≡ suc i + length tables = omega arith in
      rw (differ, e) (position-append tables t (suc i) name)
]

-- A table of a new id and a new name, put behind the others and into the index.
pub IsCatalog-append :
    {next next' : ℕ} {tables : List TableMetadata} {index : List (Bytes × ℕ)} (t : TableMetadata)
    → IsCatalog next tables index
    → All (λ other. other.table_id ≢ t.table_id) tables
    → find_name t.name index ≡ none
    → t.table_id < next'
    → next ≤ next'
    → IsCatalog next' (tables ++ (t ∷ [])) ((t.name, length tables) ∷ index)
unfolding or_else
IsCatalog-append {next} {next'} {tables} {index} t c other new below grown =
    let absent : position 0 t.name tables ≡ none = sym (c.places t.name) ∙ new in
    record {
      ids = AreDistinctBy-append (λ u. u.table_id) tables t c.ids other;
      names =
          AreDistinctBy-append (λ u. u.name) tables t c.names
            (position-none tables 0 t.name absent);
      below = All-append _ tables t (All-map tables (λ u l. omega arith) c.below) below;
      places = λ name. elim (Bool-cases (same_name t.name name)) [
        | inl same ↦
            let gone : position 0 name tables ≡ none =
              subst (λ n. position 0 n tables ≡ none) (same_name_sound t.name name same) absent in
            let e : 0 + length tables ≡ length tables = omega arith in
            rw (position-append tables t 0 name, same, gone, e) refl
        | inr differ ↦
            rw (position-append tables t 0 name, differ, c.places name)
              (sym (or_none (position 0 name tables)))
      ];
    }
  where
    or_none : (o : Option ℕ) → or_else o none ≡ o
    or_none none = refl
    or_none (some a) = refl
