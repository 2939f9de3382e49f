-- ===== src/Buffer/BufferPool.antt =====
-- src/buffer/BufferPoolManager.cpp. A Page* that a call returns is the index of the page in the pool.
pub mod Pages
pub mod Failing
pub mod Resident
pub mod Changed
pub mod Held
use relational_db_engine.Common.{
  ℕ, zero, suc, List, [], ◌∷◌, Option, none, some, Bool, true, false, length, get_elem?, set,
  replicate, ◌==◌, if◌then◌else◌,
}
use relational_db_engine.Common.Assoc
use relational_db_engine.Core.Constants.{invalid_page_id}
use relational_db_engine.Core.Status.{ok, not_found, internal}
use relational_db_engine.Core.Memory.{Bytes, or_fault}
use relational_db_engine.Core.Exec.{
  Exec, Tried, done, failed, return, fail, lift, attempt, modify, zoom, ◌>>=◌, ◌>>◌,
}
use relational_db_engine.Buffer.Page
use relational_db_engine.Buffer.Page.{Page, new_page, reset, set_page_id, set_dirty}
use relational_db_engine.Buffer.LruReplacer
use relational_db_engine.Buffer.LruReplacer.{LruReplacer, new_replacer, get_victim}
use relational_db_engine.Buffer.Disk.{DiskApi}

pub record BufferPool (D : Type 0) : Type 0 where
  pub disk : D
  pub pages : List Page
  -- The head of the list is the back of the vector.
  pub free_slots : List ℕ
  pub page_slot : List (ℕ × ℕ)
  pub replacer : LruReplacer

pub record AvailableSlot : Type 0 where
  pub slot_id : ℕ
  pub evicted_page : Bool
  pub evicted_page_id : ℕ

-- n - 1, ..., 0: the vector 0, ..., n - 1 from its back.
abbrev all_slots : ℕ → List ℕ
all_slots zero = []
all_slots (suc n) = n ∷ all_slots n

module _ (api : DiskApi) where
  open api use {State, allocate_page, read_page, write_page}

  abbrev pub Pool : Type 0
  Pool = BufferPool State

  unfoldable pub new_pool : ℕ → State → Pool
  unfolding new_page new_replacer
  new_pool pool_size disk = record {
    disk = disk;
    pages = replicate pool_size new_page;
    free_slots = all_slots pool_size;
    page_slot = [];
    replacer = new_replacer pool_size;
  }

  unfoldable pub get_pool_size : Pool → ℕ
  get_pool_size p = length p.pages

  abbrev on_disk : {A : Type 0} → Exec State A → Exec Pool A
  on_disk = zoom (λ p. p.disk) (λ d p. record p { disk = d })

  abbrev on_replacer : {A : Type 0} → Exec LruReplacer A → Exec Pool A
  on_replacer = zoom (λ p. p.replacer) (λ r p. record p { replacer = r })

  -- pages_[slot]
  abbrev pub page_at : ℕ → Exec Pool Page
  page_at slot p = (or_fault (get_elem? p.pages slot), p)

  abbrev pub put_page : ℕ → Page → Exec Pool (Unit {0})
  put_page slot page p = (ok tt, record p { pages = set p.pages slot page })

  -- A write through the Page* of a slot.
  abbrev pub write_bytes : ℕ → Bytes → Exec Pool (Unit {0})
  write_bytes slot bytes = do page ← page_at slot; put_page slot (record page { bytes = bytes })

  abbrev pub find_slot : ℕ → Exec Pool (Option ℕ)
  find_slot page_id p = (ok (Assoc.find page_id p.page_slot), p)

  save_if_dirty : ℕ → ℕ → Page → Exec Pool (Unit {0})
  save_if_dirty page_id slot page =
      if page.is_dirty
      then (do on_disk (write_page page_id page.bytes); put_page slot (set_dirty page false))
      else return tt

  save_slot : ℕ → Option ℕ → Exec Pool (Unit {0})
  unfolding save_if_dirty set_dirty
  save_slot page_id none = fail not_found
  save_slot page_id (some slot) = do page ← page_at slot; save_if_dirty page_id slot page

  unfoldable pub save_page_to_disk : ℕ → Exec Pool (Unit {0})
  unfolding save_slot
  save_page_to_disk page_id = do slot ← find_slot page_id; save_slot page_id slot

  save_loaded : Page → Exec Pool (Unit {0})
  unfolding save_page_to_disk
  save_loaded page = if page.id == invalid_page_id then return tt else save_page_to_disk page.id

  -- The loop over the pages from slot i on, with n to go.
  save_from : ℕ → ℕ → Exec Pool (Unit {0})
  unfolding save_loaded
  save_from zero i = return tt
  save_from (suc n) i = do page ← page_at i; save_loaded page; save_from n (suc i)

  unfoldable pub save_all_pages_to_disk : Exec Pool (Unit {0})
  unfolding save_from
  save_all_pages_to_disk p = save_from (length p.pages) 0 p

  victim_or_fail : Tried ℕ → Exec Pool ℕ
  victim_or_fail (done slot) = return slot
  victim_or_fail (failed c) = fail internal

  -- A victim that cannot be saved goes back to the replacer.
  keep_victim : ℕ → Tried (Unit {0}) → Exec Pool (Unit {0})
  keep_victim slot (done u) = return tt
  keep_victim slot (failed c) = do on_replacer (LruReplacer.unpin slot); fail c

  save_victim : ℕ → Page → Exec Pool (Unit {0})
  unfolding keep_victim save_page_to_disk
  save_victim slot page =
      if page.is_dirty
      then (do saved ← attempt (save_page_to_disk page.id); keep_victim slot saved)
      else return tt

  evict : Exec Pool AvailableSlot
  unfolding victim_or_fail save_victim
  evict = do
    victim ← attempt (on_replacer get_victim)
    slot ← victim_or_fail victim
    page ← page_at slot
    save_victim slot page
    modify (λ p. record p { page_slot = Assoc.erase page.id p.page_slot })
    return (record { slot_id = slot; evicted_page = true; evicted_page_id = page.id })

  take_slot : List ℕ → Exec Pool AvailableSlot
  unfolding evict
  take_slot [] = evict
  take_slot (slot ∷ rest) = do
    modify (λ p. record p { free_slots = rest })
    return (record { slot_id = slot; evicted_page = false; evicted_page_id = invalid_page_id })

  unfoldable pub get_available_slot : Exec Pool AvailableSlot
  unfolding take_slot
  get_available_slot p = take_slot p.free_slots p

  unfoldable pub restore_available_slot : AvailableSlot → Exec Pool (Unit {0})
  restore_available_slot s =
      if s.evicted_page
      then (do
        modify (λ p. record p { page_slot = Assoc.assign s.evicted_page_id s.slot_id p.page_slot })
        on_replacer (LruReplacer.unpin s.slot_id))
      else modify (λ p. record p { free_slots = s.slot_id ∷ p.free_slots })

  -- The page of the disk, or the slot is put back and the call fails.
  or_restore : {A : Type 0} → AvailableSlot → Tried A → Exec Pool A
  unfolding restore_available_slot
  or_restore s (done a) = return a
  or_restore s (failed c) = do restore_available_slot s; fail c

  unfoldable pub new_page_in_pool : Exec Pool ℕ
  unfolding get_available_slot or_restore reset set_page_id Page.pin
  new_page_in_pool = do
    available ← get_available_slot
    allocated ← attempt (on_disk allocate_page)
    page_id ← or_restore available allocated
    page ← page_at available.slot_id
    put_page available.slot_id (Page.pin (set_page_id (reset page) page_id))
    modify (λ p. record p { page_slot = Assoc.assign page_id available.slot_id p.page_slot })
    return available.slot_id

  load_page : ℕ → Exec Pool ℕ
  unfolding get_available_slot or_restore reset set_page_id Page.pin
  load_page page_id = do
    available ← get_available_slot
    read ← attempt (on_disk (read_page page_id))
    bytes ← or_restore available read
    page ← page_at available.slot_id
    put_page available.slot_id
        (Page.pin (set_page_id (record (reset page) { bytes = bytes }) page_id))
    modify (λ p. record p { page_slot = Assoc.insert page_id available.slot_id p.page_slot })
    return available.slot_id

  fetch_from : ℕ → Option ℕ → Exec Pool ℕ
  unfolding load_page
  fetch_from page_id none = load_page page_id
  fetch_from page_id (some slot) = do
    page ← page_at slot
    put_page slot (Page.pin page)
    on_replacer (LruReplacer.pin slot)
    return slot

  unfoldable pub fetch_page : ℕ → Exec Pool ℕ
  unfolding fetch_from
  fetch_page page_id = do slot ← find_slot page_id; fetch_from page_id slot

  release_slot : ℕ → Page → Exec Pool (Unit {0})
  release_slot slot page =
      if page.pin_count == 0 then on_replacer (LruReplacer.unpin slot) else return tt

  unpin_slot : ℕ → Bool → Option ℕ → Exec Pool (Unit {0})
  unfolding release_slot Page.unpin set_dirty
  unpin_slot page_id dirty none = fail not_found
  unpin_slot page_id dirty (some slot) = do
    page ← page_at slot
    unpinned ← lift (Page.unpin page)
    let marked = if dirty then set_dirty unpinned true else unpinned
    put_page slot marked
    release_slot slot marked

  unfoldable pub unpin_page : ℕ → Bool → Exec Pool (Unit {0})
  unfolding unpin_slot
  unpin_page page_id dirty = do slot ← find_slot page_id; unpin_slot page_id dirty slot
