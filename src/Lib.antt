-- ===== src/Lib.antt =====
-- A relational database engine (dandb): rows in pages, pages in a file, a cache of pages between.
--
-- The parts, from the bottom up.
--   Core      include/dandb/core: Status.h and Result.h (Core/Status), Constants.h, and Helper.h, the
--             fixed-width integers in little-endian bytes (Core/Helper). Core/Memory models buffers
--             of bytes, Core/Exec a method that changes an object and returns a Result.
--   Storage   src/storage/DiskManager.cpp: pages in a file with a header page and a list of free
--             pages. The stream is a parameter (Storage/File, record FileApi).
--   Buffer    src/buffer: Page.cpp, LRUReplacer.cpp, and BufferPoolManager.cpp, which keeps pages in
--             memory, pins them, and evicts the one that was unpinned first. What it uses of the
--             disk manager is a parameter (Buffer/Disk, record DiskApi), which disk_manager fills.
--   Record    include/dandb/record and src/record: LogicalType.h, Schema.cpp, Value.h and Row.h,
--             Layout.cpp (offsets and sizes of an encoded row), Codec.cpp (encode and decode a row),
--             SlottedPage.cpp (rows in the bytes of one page), PagedTable.cpp (a table as a chain
--             of pages of the pool), and TableIterator.cpp (a scan of such a chain).
--   Catalog   include/dandb/catalog/TableManager.h and src/catalog/TableManager.cpp: the tables of a
--             database by name, and the file that lists them. Its bytes are written and read through
--             a buffer and an offset (Catalog/Cursor, MetaWriter, MetaReader); the file is a
--             parameter (Catalog/MetaFile, record MetaFileApi). Catalog/TableManager has open, load
--             and save, and Catalog/TableManager/Tables createTable and the calls on rows.
--   Tests     the theorems at concrete inputs.
-- Functions keep the names of the source in lower case with underscores: insertRow is insert_row.
--
-- How the code is modelled.
--   * A call returns a Result: ok with a value, err with a status code, or fault, an access outside
--     of a buffer, which C++ leaves undefined. The messages of a Status are left out.
--   * A buffer is a list of numbers, its bytes; AreBytes says that they are below 256. size_t sums
--     are natural numbers; where a result is stored in 8, 16 or 32 bits, the cut is written out.
--     Shifts are products and quotients by powers of two. A signed integer is stored in two's
--     complement (Common/Int). A double is its eight bytes.
--   * A method of a class takes the object and returns it changed beside the result (Exec): what is
--     written before an early return stays written. A Page* is the index of the page in the pool.
--   * A std::list node has an identity, which stands for the iterators kept in a map.
--   * Loops are recursion on the list or the count that they run over. Only the loop of
--     TableIterator::loadNext runs on fuel, since nothing bounds a chain of pages in a file; a unit
--     of fuel is a round of the loop. For a chain of pages that are in the pool
--     (Record/TableIterator/Chain) the number of rounds is enough.
-- A page is well formed (Record/SlottedPage/Invariant) if its directory ends where the free space
-- starts and its rows lie apart, later ones before earlier ones. Its rows (Record/SlottedPage/Rows)
-- are a list in which a deleted row leaves a gap, and Record/SlottedPage/RowList says what the
-- operations do to that list. The replacer is seen as a queue of slots (Buffer/LruReplacer/Queue).
--
-- The metadata file is seen as pieces (Catalog/Cursor/Pieces): the bytes that stand at an offset. The
-- index of the tables by name is an association list, of which find takes the first entry.
--
-- Not modelled: src/core/Version.cpp and src/main.cpp, which print a version; and tests and third_party.
pub mod Common
pub mod Core
pub mod Storage
pub mod Record
pub mod Buffer
pub mod Catalog
pub mod Tests
