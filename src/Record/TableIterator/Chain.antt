-- ===== src/Record/TableIterator/Chain.antt =====
-- A chain of pages that are in the pool, and the rows in it.
use relational_db_engine.Common.{
  ℕ, suc, ◌+◌, ◌<◌, ◌≡◌, ◌≢◌, List, [], ◌∷◌, ◌++◌, Option, none, some, length,
}
use relational_db_engine.Core.Constants.{invalid_page_id, invalid_slot_id}
use relational_db_engine.Core.Status.{ok, err, not_found}
use relational_db_engine.Core.Memory.{Bytes}
use relational_db_engine.Buffer.Disk.{DiskApi}
use relational_db_engine.Buffer.Page.{Page}
use relational_db_engine.Buffer.BufferPool.{Pool}
use relational_db_engine.Buffer.BufferPool.Resident.{IsResident, Same, IsResident-Same}
use relational_db_engine.Record.Schema.{Schema}
use relational_db_engine.Record.Value.{Row}
use relational_db_engine.Record.Codec.{decode}
use relational_db_engine.Record.SlottedPage
use relational_db_engine.Record.TableIterator.{TableIteratorEntry}

-- A page of a table: where it is, the page that comes behind it, and what its slots hold, a row or
-- nothing.
pub record ChainPage : Type 0 where
  pub page : Page
  pub slot : ℕ
  pub next : ℕ
  pub rows : List (Option Row)

-- The slots from k on hold the rows: readRow does not find a row that is nothing, and what it reads
-- of another one decode turns into it.
abbrev pub RowsAt : Schema → Bytes → ℕ → List (Option Row) → Type 0
RowsAt schema bytes k [] = Unit {0}
RowsAt schema bytes k (none ∷ rows) =
    (SlottedPage.read_row bytes k ≡ err not_found) × RowsAt schema bytes (suc k) rows
RowsAt schema bytes k (some row ∷ rows) =
    ((raw : Bytes) × (SlottedPage.read_row bytes k ≡ ok raw) × (decode schema raw ≡ ok row))
    × RowsAt schema bytes (suc k) rows

abbrev pub row_entries : ℕ → ℕ → List (Option Row) → List TableIteratorEntry
row_entries id k [] = []
row_entries id k (none ∷ rows) = row_entries id (suc k) rows
row_entries id k (some row ∷ rows) =
    record { rid = record { page_id = id; slot_id = k }; row = row } ∷ row_entries id (suc k) rows

-- The rows of the pages, in the order of the chain and of the slots.
abbrev pub chain_entries : List ChainPage → List TableIteratorEntry
chain_entries [] = []
chain_entries (c ∷ chain) = row_entries c.page.id 0 c.rows ++ chain_entries chain

-- The rounds of the loop: one for each slot, one for the end of each page, and one for the end.
abbrev pub rounds : List ChainPage → ℕ
rounds [] = 1
rounds (c ∷ chain) = length c.rows + 1 + rounds chain

module _ (api : DiskApi) where
  pub record IsChainPage (pool : Pool api) (schema : Schema) (c : ChainPage) : Type 0 where
    pub resident : IsResident api pool c.page c.slot
    pub valid : c.page.id ≢ invalid_page_id
    pub count : SlottedPage.slot_count c.page.bytes ≡ ok (length c.rows)
    pub few : length c.rows < invalid_slot_id
    pub link : SlottedPage.next_page_id c.page.bytes ≡ ok c.next
    pub rows : RowsAt schema c.page.bytes 0 c.rows

  -- The pages are in the pool, each names the next one, and the last one names none.
  abbrev pub IsChain : Pool api → Schema → ℕ → List ChainPage → Type 0
  IsChain pool schema id [] = id ≡ invalid_page_id
  IsChain pool schema id (c ∷ chain) =
      (id ≡ c.page.id) × IsChainPage pool schema c × IsChain pool schema c.next chain

  pub IsChainPage-Same :
      (p q : Pool api) (schema : Schema) (c : ChainPage)
      → Same api p q
      → IsChainPage p schema c
      → IsChainPage q schema c
  IsChainPage-Same p q schema c s i = record {
    resident = IsResident-Same api p q c.page c.slot s i.resident;
    valid = i.valid;
    count = i.count;
    few = i.few;
    link = i.link;
    rows = i.rows;
  }

  pub IsChain-Same :
      (p q : Pool api) (schema : Schema) (id : ℕ) (chain : List ChainPage)
      → Same api p q
      → IsChain p schema id chain
      → IsChain q schema id chain
  IsChain-Same p q schema id [] s i = i
  IsChain-Same p q schema id (c ∷ chain) s (e, i, rest) =
      (e, IsChainPage-Same p q schema c s i, IsChain-Same p q schema c.next chain s rest)
