-- ===== src/Buffer/BufferPool/Resident.antt =====
-- fetchPage and unpinPage of a page that is in the pool.
use relational_db_engine.Common.{
  ℕ, ◌+◌, ◌-◌, ◌^◌, ◌%◌, ◌<◌, ◌≡◌, refl, ◌∙◌, false, some, get_elem?, set, set_back,
  get_elem?-set_self, sym, ap, if◌then◌else◌, ◌==◌, Bool-cases, inl, inr, arith,
}
use relational_db_engine.Common.Assoc
use relational_db_engine.Core.Constants.{u32_mod}
use relational_db_engine.Core.Status.{ok}
use relational_db_engine.Buffer.Page
use relational_db_engine.Buffer.Page.{Page, set_dirty}
use relational_db_engine.Buffer.LruReplacer
use relational_db_engine.Buffer.LruReplacer.Accepted.{pin_accepted, unpin_accepted}
use relational_db_engine.Buffer.Disk.{DiskApi}
use relational_db_engine.Buffer.BufferPool.{
  Pool, fetch_page, fetch_from, unpin_page, unpin_slot, release_slot,
}

module _ (api : DiskApi) where
  -- The page of an id is in a slot of the pool, and its pin count is not the last of 32 bits.
  pub record IsResident (p : Pool api) (page : Page) (slot : ℕ) : Type 0 where
    pub found : Assoc.find page.id p.page_slot ≡ some slot
    pub at : get_elem? p.pages slot ≡ some page
    pub below : slot < p.replacer.capacity
    pub room : page.pin_count + 1 < 2 ^ 32

  -- Nothing but what the replacer holds is changed.
  pub record Same (p q : Pool api) : Type 0 where
    pub disk : q.disk ≡ p.disk
    pub pages : q.pages ≡ p.pages
    pub free : q.free_slots ≡ p.free_slots
    pub slots : q.page_slot ≡ p.page_slot
    pub capacity : q.replacer.capacity ≡ p.replacer.capacity

  pub IsResident-Same :
      (p q : Pool api) (page : Page) (slot : ℕ)
      → Same p q
      → IsResident p page slot
      → IsResident q page slot
  IsResident-Same p q page slot s r = record {
    found = rw s.slots r.found;
    at = rw s.pages r.at;
    below = rw s.capacity r.below;
    room = r.room;
  }

  module _ (p : Pool api) (page : Page) (slot : ℕ) (r : IsResident p page slot) where
    -- The page is pinned once more.
    pub pinned :
        (q : Pool api) × (fetch_page api page.id p ≡ (ok slot, q))
        × (q.pages ≡ set p.pages slot (Page.pin page))
        × (q.disk ≡ p.disk)
        × (q.free_slots ≡ p.free_slots)
        × (q.page_slot ≡ p.page_slot)
        × (q.replacer ≡ (LruReplacer.pin slot p.replacer).1)
        × (q.replacer.capacity ≡ p.replacer.capacity)
    unfolding fetch_page fetch_from Page.pin
    pinned =
        let (l, e, c) = pin_accepted p.replacer slot r.below in
        (
          record p { pages = set p.pages slot (Page.pin page); replacer = l },
          rw (r.found, r.at, e) refl,
          refl,
          refl,
          refl,
          refl,
          ap (λ r. r.1) (sym e),
          c,
        )

    -- unpinPage where the page was pinned once more: the pool is as before, but for the
    -- replacer, which gets the slot if nobody holds the page.
    unpinned :
        (q : Pool api)
        → q.pages ≡ set p.pages slot (Page.pin page)
        → q.disk ≡ p.disk
        → q.free_slots ≡ p.free_slots
        → q.page_slot ≡ p.page_slot
        → q.replacer.capacity ≡ p.replacer.capacity
        → (t : Pool api) × (unpin_page api page.id false q ≡ (ok tt, t))
          × Same p t
          × (t.replacer
              ≡ (if page.pin_count == 0 then (LruReplacer.unpin slot q.replacer).1 else q.replacer))
    unfolding unpin_page unpin_slot release_slot Page.pin Page.unpin set_dirty
    unpinned q pages disk free slots capacity =
        let found : Assoc.find page.id q.page_slot ≡ some slot = rw slots r.found in
        let at : get_elem? q.pages slot ≡ some (Page.pin page) =
          rw pages (get_elem?-set_self p.pages slot page (Page.pin page) r.at) in
        let once : (page.pin_count + 1) % u32_mod ≡ page.pin_count + 1 = omega (arith, r.room) in
        let positive : (page.pin_count + 1 == 0) ≡ false = ground arith in
        let less : page.pin_count + 1 - 1 ≡ page.pin_count = omega arith in
        let back : set q.pages slot page ≡ p.pages =
          rw pages (set_back p.pages slot page (Page.pin page) r.at) in
        let (l, e, c) = unpin_accepted q.replacer slot (rw capacity r.below) in
        elim (Bool-cases (page.pin_count == 0)) [
          | inl last ↦ (
            record q { pages = p.pages; replacer = l },
            rw (found, at, once, positive, less, last, e, back) refl,
            record {
              disk = disk;
              pages = refl;
              free = free;
              slots = slots;
              capacity = c ∙ capacity;
            },
            rw (last, e) refl,
          )
          | inr more ↦ (
            record q { pages = p.pages },
            rw (found, at, once, positive, less, more, back) refl,
            record { disk = disk; pages = refl; free = free; slots = slots; capacity = capacity },
            rw more refl,
          )
        ]

    -- fetchPage of a page in the pool, and unpinPage after it.
    pub fetched_unpinned :
        (q : Pool api) × (t : Pool api) × (fetch_page api page.id p ≡ (ok slot, q))
        × (get_elem? q.pages slot ≡ some (Page.pin page))
        × (unpin_page api page.id false q ≡ (ok tt, t))
        × Same p t
        × (q.replacer ≡ (LruReplacer.pin slot p.replacer).1)
        × (t.replacer
            ≡ (if page.pin_count == 0 then (LruReplacer.unpin slot q.replacer).1 else q.replacer))
    fetched_unpinned =
        let (q, fetched, pages, disk, free, slots, replacer, capacity) = pinned in
        let (t, done, same, left) = unpinned q pages disk free slots capacity in
        let at : get_elem? q.pages slot ≡ some (Page.pin page) =
          rw pages (get_elem?-set_self p.pages slot page (Page.pin page) r.at) in
        (q, t, fetched, at, done, same, replacer, left)

    pub fetched_as_before :
        (q : Pool api) × (held : Page) × (t : Pool api) × (fetch_page api page.id p ≡ (ok slot, q))
        × (get_elem? q.pages slot ≡ some held)
        × (held.id ≡ page.id)
        × (held.bytes ≡ page.bytes)
        × (unpin_page api page.id false q ≡ (ok tt, t))
        × Same p t
    unfolding Page.pin
    fetched_as_before =
        let (q, t, fetched, at, done, same, replacer, left) = fetched_unpinned in
        (q, Page.pin page, t, fetched, at, refl, refl, done, same)
