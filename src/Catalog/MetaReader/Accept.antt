-- ===== src/Catalog/MetaReader/Accept.antt =====
-- What the loop of load keeps of the tables it has read, and which tables it takes.
use relational_db_engine.Common.{
  ℕ, suc, ◌≤◌, ◌<◌, ◌≡◌, ◌≢◌, refl, sym, ap, ◌∙◌, subst, inl, inr, List, [], ◌∷◌, ◌++◌, length,
  false, ltb, none, if◌then◌else◌, Bool-cases, arith,
}
use relational_db_engine.Core.Status.{ok, err, corruption}
use relational_db_engine.Catalog.Metadata.{TableMetadata, find_name, is_known}
use relational_db_engine.Catalog.Metadata.Index.{
  All, IsCatalog, none-position, unknown_none, IsCatalog-append,
}
use relational_db_engine.Catalog.MetaReader.{Loaded, has_id, accept, nothing_loaded}

abbrev pub IsLoaded : Loaded → Type 0
IsLoaded l = IsCatalog (suc l.max_id) l.tables l.index

pub nothing-IsLoaded : IsLoaded nothing_loaded
nothing-IsLoaded = record { ids = tt; names = tt; below = tt; places = λ name. refl }

has_id_all :
    (tables : List TableMetadata) (id : ℕ)
    → has_id id tables ≡ false
    → All (λ t. t.table_id ≢ id) tables
has_id_all [] id e = tt
has_id_all (table ∷ tables) id e = ((λ r. ground (arith, r)), has_id_all tables id (ground arith))

all_has_id :
    (tables : List TableMetadata) (id : ℕ)
    → All (λ t. t.table_id ≢ id) tables
    → has_id id tables ≡ false
all_has_id [] id a = refl
all_has_id (table ∷ tables) id a = ground (arith, a.0, all_has_id tables id a.1)

-- What accept makes of a table that it takes.
abbrev pub extended : Loaded → TableMetadata → Loaded
extended l meta = record {
  tables = l.tables ++ (meta ∷ []);
  index = (meta.name, length l.tables) ∷ l.index;
  max_id = if ltb l.max_id meta.table_id then meta.table_id else l.max_id;
}

higher : (m i : ℕ) → suc m ≤ suc (if ltb m i then i else m)
higher m i = ground arith

at_least : (m i : ℕ) → i < suc (if ltb m i then i else m)
at_least m i = ground arith

extended-IsLoaded :
    (l : Loaded) (meta : TableMetadata)
    → IsLoaded l
    → All (λ t. t.table_id ≢ meta.table_id) l.tables
    → find_name meta.name l.index ≡ none
    → IsLoaded (extended l meta)
extended-IsLoaded l meta c other new =
    IsCatalog-append meta c other new (at_least l.max_id meta.table_id)
      (higher l.max_id meta.table_id)

-- A table that is taken has a new id and a new name.
pub accept-IsLoaded :
    (l l' : Loaded) (meta : TableMetadata)
    → IsLoaded l
    → accept l meta ≡ ok l'
    → IsLoaded l' × (l'.tables ≡ l.tables ++ (meta ∷ []))
unfolding accept
accept-IsLoaded l l' meta c e = elim (Bool-cases (has_id meta.table_id l.tables)) [
  | inl old ↦ let no : err corruption ≡ ok l' = rw old at e in cc
  | inr new ↦ elim (Bool-cases (is_known (find_name meta.name l.index))) [
    | inl known ↦ let no : err corruption ≡ ok l' = rw (new, known) at e in cc
    | inr unknown ↦
        let made : ok (extended l meta) ≡ ok l' = rw (new, unknown) at e in
        let same : extended l meta ≡ l' = cc in
        (
          subst IsLoaded same (
              extended-IsLoaded l meta c (has_id_all l.tables meta.table_id new)
                (unknown_none _ unknown)),
          sym (ap (λ k. k.tables) same),
        )
  ]
]

-- A table of a new id and a new name is taken.
pub accept_new :
    (l : Loaded) (meta : TableMetadata)
    → IsLoaded l
    → All (λ t. t.table_id ≢ meta.table_id) l.tables
    → All (λ t. t.name ≢ meta.name) l.tables
    → (accept l meta ≡ ok (extended l meta)) × IsLoaded (extended l meta)
unfolding accept
accept_new l meta c other named =
    let new : find_name meta.name l.index ≡ none =
      c.places meta.name ∙ none-position l.tables 0 meta.name named in
    (rw (all_has_id l.tables meta.table_id other, new) refl, extended-IsLoaded l meta c other new)
