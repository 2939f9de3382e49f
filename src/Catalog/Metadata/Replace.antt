-- ===== src/Catalog/Metadata/Replace.antt =====
-- A table of the vector that gets another last page.
use relational_db_engine.Common.{
  ℕ, zero, suc, ◌<◌, ◌≡◌, ◌≢◌, refl, sym, ap, ◌∙◌, subst, List, [], ◌∷◌, some, get_elem?, set,
  if◌then◌else◌,
}
use relational_db_engine.Core.Memory.{Bytes}
use relational_db_engine.Record.Schema.{same_name}
use relational_db_engine.Catalog.Metadata.{TableMetadata}
use relational_db_engine.Catalog.Metadata.Index.{All, AreDistinctBy, position, IsCatalog}

All-set :
    (P : TableMetadata → Type 0) (tables : List TableMetadata) (i : ℕ) (t u : TableMetadata)
    → get_elem? tables i ≡ some t
    → (P t → P u)
    → All P tables
    → All P (set tables i u)
All-set P [] i t u e f a = tt
All-set P (b ∷ tables) zero t u e f a = let same : b ≡ t = cc in (f (subst P same a.0), a.1)
All-set P (b ∷ tables) (suc i) t u e f a = (a.0, All-set P tables i t u e f a.1)

AreDistinctBy-set :
    {K : Type 0} (key : TableMetadata → K) (tables : List TableMetadata) (i : ℕ)
    (t u : TableMetadata)
    → get_elem? tables i ≡ some t
    → key u ≡ key t
    → AreDistinctBy key tables
    → AreDistinctBy key (set tables i u)
AreDistinctBy-set key [] i t u e k d = tt
AreDistinctBy-set key (b ∷ tables) zero t u e k d =
    let same : b ≡ t = cc in
    let all : key b ≡ key u = ap key same ∙ sym k in
    (subst (λ x. All (λ v. key v ≢ x) tables) all d.0, d.1)
AreDistinctBy-set key (b ∷ tables) (suc i) t u e k d = (
  All-set (λ v. key v ≢ key b) tables i t u e (λ ne r. ne (sym k ∙ r)) d.0,
  AreDistinctBy-set key tables i t u e k d.1,
)

position-set :
    (tables : List TableMetadata) (j i : ℕ) (name : Bytes) (t u : TableMetadata)
    → get_elem? tables i ≡ some t
    → u.name ≡ t.name
    → position j name (set tables i u) ≡ position j name tables
position-set [] j i name t u e k = refl
position-set (b ∷ tables) j zero name t u e k =
    let same : b ≡ t = cc in let n : u.name ≡ b.name = k ∙ sym (ap (λ v. v.name) same) in rw n refl
position-set (b ∷ tables) j (suc i) name t u e k =
    ap (λ o. if same_name b.name name then some j else o)
      (position-set tables (suc j) i name t u e k)

-- The other table has the same id and the same name.
pub IsCatalog-set :
    {next : ℕ} {tables : List TableMetadata} {index : List (Bytes × ℕ)} (i : ℕ)
    (t u : TableMetadata)
    → IsCatalog next tables index
    → get_elem? tables i ≡ some t
    → u.table_id ≡ t.table_id
    → u.name ≡ t.name
    → IsCatalog next (set tables i u) index
IsCatalog-set {next} {tables} {index} i t u c e id name = record {
  ids = AreDistinctBy-set (λ v. v.table_id) tables i t u e id c.ids;
  names = AreDistinctBy-set (λ v. v.name) tables i t u e name c.names;
  below = All-set (λ v. v.table_id < next) tables i t u e (λ l. rw id l) c.below;
  places = λ n. c.places n ∙ sym (position-set tables 0 i n t u e name);
}
