-- ===== src/Buffer/BufferPool/Changed.antt =====
-- A page of the pool that is fetched, written and unpinned as changed.
use relational_db_engine.Common.{
  ℕ, ◌+◌, ◌-◌, ◌%◌, ◌≡◌, refl, true, false, some, get_elem?, set, set-set, get_elem?-set_self, ◌==◌,
  Bool-cases, inl, inr, arith,
}
use relational_db_engine.Common.Assoc
use relational_db_engine.Core.Constants.{u32_mod}
use relational_db_engine.Core.Status.{ok}
use relational_db_engine.Core.Memory.{Bytes}
use relational_db_engine.Buffer.Page
use relational_db_engine.Buffer.Page.{Page, set_dirty}
use relational_db_engine.Buffer.LruReplacer.Accepted.{unpin_accepted}
use relational_db_engine.Buffer.Disk.{DiskApi}
use relational_db_engine.Buffer.BufferPool.{
  Pool, fetch_page, write_bytes, unpin_page, unpin_slot, release_slot,
}
use relational_db_engine.Buffer.BufferPool.Resident.{IsResident, pinned}

-- The page with other bytes, which the disk does not have yet.
abbrev pub rewritten : Page → Bytes → Page
rewritten page bytes = record page { bytes = bytes; is_dirty = true }

module _ (api : DiskApi) (p : Pool api) (page : Page) (slot : ℕ) (r : IsResident api p page slot)
    (bytes : Bytes) where
  unpinned :
      (q : Pool api)
      → q.pages ≡ set p.pages slot (record (Page.pin page) { bytes = bytes })
      → q.page_slot ≡ p.page_slot
      → q.replacer.capacity ≡ p.replacer.capacity
      → (t : Pool api) × (unpin_page api page.id true q ≡ (ok tt, t))
        × IsResident api t (rewritten page bytes) slot
  unfolding unpin_page unpin_slot release_slot Page.pin Page.unpin set_dirty
  unpinned q pages slots capacity =
      let mine = record (Page.pin page) { bytes = bytes } in
      let found : Assoc.find page.id q.page_slot ≡ some slot = rw slots r.found in
      let at : get_elem? q.pages slot ≡ some mine =
        rw pages (get_elem?-set_self p.pages slot page mine r.at) in
      let once : (page.pin_count + 1) % u32_mod ≡ page.pin_count + 1 = omega (arith, r.room) in
      let positive : (page.pin_count + 1 == 0) ≡ false = ground arith in
      let less : page.pin_count + 1 - 1 ≡ page.pin_count = omega arith in
      let back : set q.pages slot (rewritten page bytes) ≡ set p.pages slot (rewritten page bytes) =
        rw pages (set-set p.pages slot mine (rewritten page bytes)) in
      let there = get_elem?-set_self p.pages slot page (rewritten page bytes) r.at in
      let (l, e, c) = unpin_accepted q.replacer slot (rw capacity r.below) in
      elim (Bool-cases (page.pin_count == 0)) [
        | inl last ↦ (
          record q { pages = set p.pages slot (rewritten page bytes); replacer = l },
          rw (found, at, once, positive, less, last, e, back) refl,
          record { found = found; at = there; below = rw (c, capacity) r.below; room = r.room },
        )
        | inr more ↦ (
          record q { pages = set p.pages slot (rewritten page bytes) },
          rw (found, at, once, positive, less, more, back) refl,
          record { found = found; at = there; below = rw capacity r.below; room = r.room },
        )
      ]

  -- What happens to the page between fetchPage and unpinPage: the pools after the calls, the page
  -- that is fetched and the page that is written through it.
  pub record Visit : Type 0 where
    pub fetched : Pool api
    pub wrote : Pool api
    pub left : Pool api
    pub old : Page
    pub new : Page
    pub fetch : fetch_page api page.id p ≡ (ok slot, fetched)
    pub old_at : get_elem? fetched.pages slot ≡ some old
    pub old_bytes : old.bytes ≡ page.bytes
    pub write : write_bytes api slot bytes fetched ≡ (ok tt, wrote)
    pub new_at : get_elem? wrote.pages slot ≡ some new
    pub new_id : new.id ≡ page.id
    pub unpin : unpin_page api page.id true wrote ≡ (ok tt, left)
    pub here : IsResident api left (rewritten page bytes) slot

  -- The page that is fetched has the bytes of the page, a write through it succeeds, and so does
  -- unpinPage after it; then the page is in the slot with the bytes that were written.
  pub visit : Visit
  unfolding Page.pin
  visit =
      let (q, fetched, pages, disk, free, slots, replacer, capacity) = pinned api p page slot r in
      let at : get_elem? q.pages slot ≡ some (Page.pin page) =
        rw pages (get_elem?-set_self p.pages slot page (Page.pin page) r.at) in
      let mine = record (Page.pin page) { bytes = bytes } in
      let u : Pool api = record q { pages = set q.pages slot mine } in
      let once : u.pages ≡ set p.pages slot mine =
        rw pages (set-set p.pages slot (Page.pin page) mine) in
      let (t, done, here) = unpinned u once slots capacity in
      record {
        fetched = q;
        wrote = u;
        left = t;
        old = Page.pin page;
        new = mine;
        fetch = fetched;
        old_at = at;
        old_bytes = refl;
        write = rw at refl;
        new_at = get_elem?-set_self q.pages slot (Page.pin page) mine at;
        new_id = refl;
        unpin = done;
        here = here;
      }
