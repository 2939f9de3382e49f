-- ===== src/Tests/Pool.antt =====
-- The theorems at concrete inputs: the replacer and the buffer pool.
use relational_db_engine.Common.{
  ℕ, ◌<◌, ◌≡◌, refl, [], ◌∷◌, none, some, true, false, get_elem?, arith,
}
use relational_db_engine.Core.Status.{ok, err, io_error}
use relational_db_engine.Buffer.Disk.{DiskApi}
use relational_db_engine.Buffer.BufferPool.{
  Pool, fetch_page, unpin_page, new_page_in_pool, get_available_slot, restore_available_slot,
  save_page_to_disk,
}
use relational_db_engine.Buffer.Page.{Page}
use relational_db_engine.Buffer.BufferPool.Resident.{IsResident, Same}
use relational_db_engine.Buffer.BufferPool.Held.{fetch_page-unpin_page}
use relational_db_engine.Buffer.BufferPool.Pages.{view}
use relational_db_engine.Buffer.BufferPool.Failing.{fetch_page-pages, new_page_in_pool-pages}
use relational_db_engine.Buffer.LruReplacer
use relational_db_engine.Buffer.LruReplacer.{LruReplacer, new_replacer, get_victim}
use relational_db_engine.Buffer.LruReplacer.Queue.{
  IsLinked, queue, contains, pin_queue, unpin_queue, victim_queue,
}
use relational_db_engine.Buffer.LruReplacer.Refinement.{
  Implements, new_replacer-IsLinked, pin-unpin_lem, get_victim_lem,
}

abbrev three : LruReplacer
three = new_replacer 3

-- Slot 1 has been unpinned.
abbrev held : LruReplacer
held = (LruReplacer.unpin 1 three).1

held-IsLinked : IsLinked held
held-IsLinked = (pin-unpin_lem three 1 (new_replacer-IsLinked 3)).1.0

pin-unpin_lem_example :
    Implements held.capacity (LruReplacer.pin 1 held) (pin_queue held.capacity 1 (queue held))
    × Implements held.capacity (LruReplacer.unpin 1 held) (unpin_queue held.capacity 1 (queue held))
pin-unpin_lem_example = pin-unpin_lem held 1 held-IsLinked

get_victim_lem_example : Implements held.capacity (get_victim held) (victim_queue (queue held))
get_victim_lem_example = get_victim_lem held held-IsLinked

-- A disk that takes pages and gives none, and a pool of one slot whose page was changed and unpinned.
abbrev write_only : DiskApi
write_only = record {
  State = Unit {0};
  allocate_page = λ d. (err io_error, d);
  read_page = λ id d. (err io_error, d);
  write_page = λ id bytes d. (ok tt, d);
}

abbrev one_unpinned : Pool write_only
one_unpinned = record {
  disk = tt;
  pages = record { id = 5; bytes = 1 ∷ 2 ∷ []; pin_count = 0; is_dirty = true } ∷ [];
  free_slots = [];
  page_slot = (5, 0) ∷ [];
  replacer = record {
    capacity = 1;
    lru_list = record { node = 0; slot = 0 } ∷ [];
    slot_positions = (0, 0) ∷ [];
    next_node = 1;
  };
}

abbrev after_fetch : Pool write_only
after_fetch = (fetch_page write_only 6 one_unpinned).1

fetch_fails : fetch_page write_only 6 one_unpinned ≡ (err io_error, after_fetch)
unfolding fetch_page get_available_slot restore_available_slot save_page_to_disk get_victim
    LruReplacer.unpin
fetch_fails = refl

not_loaded : (slot : ℕ) → none ≡ some slot → slot < 1
not_loaded slot e = ground arith

fetch_page-pages_example : view write_only after_fetch ≡ view write_only one_unpinned
fetch_page-pages_example =
    fetch_page-pages write_only one_unpinned after_fetch 6 io_error not_loaded fetch_fails

abbrev after_new : Pool write_only
after_new = (new_page_in_pool write_only one_unpinned).1

new_page_fails : new_page_in_pool write_only one_unpinned ≡ (err io_error, after_new)
unfolding new_page_in_pool get_available_slot restore_available_slot save_page_to_disk get_victim
    LruReplacer.unpin
new_page_fails = refl

new_page_in_pool-pages_example : view write_only after_new ≡ view write_only one_unpinned
new_page_in_pool-pages_example =
    new_page_in_pool-pages write_only one_unpinned after_new io_error new_page_fails

abbrev five : Page
five = record { id = 5; bytes = 1 ∷ 2 ∷ []; pin_count = 0; is_dirty = true }

five-IsResident : IsResident write_only one_unpinned five 0
five-IsResident = record { found = refl; at = refl; below = omega arith; room = omega arith }

one_unpinned-IsLinked : IsLinked one_unpinned.replacer
unfolding new_replacer LruReplacer.unpin
one_unpinned-IsLinked = (pin-unpin_lem (new_replacer 1) 0 (new_replacer-IsLinked 1)).1.0

-- The page is not pinned before: it leaves the queue while it is fetched, and comes back.
fetch_page-unpin_page_example :
    (q : Pool write_only) × (held : Page) × (t : Pool write_only) × (fetch_page write_only 5
        one_unpinned
      ≡ (ok 0, q))
    × (get_elem? q.pages 0 ≡ some held)
    × (held.id ≡ 5)
    × (held.bytes ≡ 1 ∷ 2 ∷ [])
    × (held.pin_count ≡ 1)
    × IsLinked q.replacer
    × (queue q.replacer ≡ [])
    × (contains 0 (queue q.replacer) ≡ false)
    × (unpin_page write_only 5 false q ≡ (ok tt, t))
    × Same write_only one_unpinned t
    × IsLinked t.replacer
    × (queue t.replacer ≡ 0 ∷ [])
fetch_page-unpin_page_example =
    fetch_page-unpin_page write_only one_unpinned five 0 five-IsResident one_unpinned-IsLinked
