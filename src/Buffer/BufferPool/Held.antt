-- ===== src/Buffer/BufferPool/Held.antt =====
-- What the replacer holds while a page of the pool is fetched, and after it is unpinned.
use relational_db_engine.Common.{
  ℕ, ◌+◌, ◌%◌, ◌≡◌, refl, sym, ap, subst, ◌∙◌, [], ◌∷◌, ◌++◌, some, false, get_elem?, ◌==◌,
  if◌then◌else◌, Bool-cases, inl, inr, leb, arith,
}
use relational_db_engine.Core.Constants.{u32_mod}
use relational_db_engine.Core.Status.{ok}
use relational_db_engine.Buffer.Page
use relational_db_engine.Buffer.Page.{Page}
use relational_db_engine.Buffer.Disk.{DiskApi}
use relational_db_engine.Buffer.LruReplacer
use relational_db_engine.Buffer.LruReplacer.{LruReplacer}
use relational_db_engine.Buffer.LruReplacer.Queue.{IsLinked, queue, remove, contains}
use relational_db_engine.Buffer.LruReplacer.Nodes.{contains-remove}
use relational_db_engine.Buffer.LruReplacer.Refinement.{pin-unpin_lem}
use relational_db_engine.Buffer.BufferPool.{Pool, fetch_page, unpin_page}
use relational_db_engine.Buffer.BufferPool.Resident.{IsResident, Same, fetched_unpinned}

module _ (l : LruReplacer) (s : ℕ) (w : IsLinked l) (h : leb l.capacity s ≡ false) where
  -- The slot is taken out of the queue.
  pin_removes :
      IsLinked (LruReplacer.pin s l).1
      × ((LruReplacer.pin s l).1.capacity ≡ l.capacity)
      × (queue (LruReplacer.pin s l).1 ≡ remove s (queue l))
  pin_removes =
      let (linked, capacity, seen) = (pin-unpin_lem l s w).0 in
      (linked, capacity, rw h at (ap (λ r. r.1) seen))

  -- A slot that is not in the queue gets to its end.
  unpin_appends :
      contains s (queue l) ≡ false
      → IsLinked (LruReplacer.unpin s l).1 × (queue (LruReplacer.unpin s l).1 ≡ queue l ++ (s ∷ []))
  unpin_appends absent =
      let (linked, capacity, seen) = (pin-unpin_lem l s w).1 in
      (linked, rw (h, absent) at (ap (λ r. r.1) seen))

-- fetchPage of a page in the pool, whose replacer is linked, succeeds with its slot. The page that is
-- then in the slot has the same id and bytes and is pinned once more, and the slot is out of the
-- queue of the replacer, so that it is no victim; the other slots keep their order. unpinPage after
-- it succeeds. Then the disk, the pages, the free slots and the page map are as before, and the slot
-- is at the end of the queue if the page was not pinned before, and not in it if it was.
pub fetch_page-unpin_page :
    (api : DiskApi) (p : Pool api) (page : Page) (slot : ℕ)
    → IsResident api p page slot
    → IsLinked p.replacer
    → (q : Pool api) × (held : Page) × (t : Pool api) × (fetch_page api page.id p ≡ (ok slot, q))
      × (get_elem? q.pages slot ≡ some held)
      × (held.id ≡ page.id)
      × (held.bytes ≡ page.bytes)
      × (held.pin_count ≡ page.pin_count + 1)
      × IsLinked q.replacer
      × (queue q.replacer ≡ remove slot (queue p.replacer))
      × (contains slot (queue q.replacer) ≡ false)
      × (unpin_page api page.id false q ≡ (ok tt, t))
      × Same api p t
      × IsLinked t.replacer
      × (queue t.replacer ≡ (
          if page.pin_count == 0
          then remove slot (queue p.replacer) ++ (slot ∷ [])
          else remove slot (queue p.replacer)))
unfolding Page.pin
fetch_page-unpin_page api p page slot r w =
    let (q, t, fetched, at, done, same, pinned, left) = fetched_unpinned api p page slot r in
    let inside : leb p.replacer.capacity slot ≡ false = ground (arith, r.below) in
    let (linked, capacity, removed) = pin_removes p.replacer slot w inside in
    let l : IsLinked q.replacer = subst IsLinked (sym pinned) linked in
    let out : queue q.replacer ≡ remove slot (queue p.replacer) = ap queue pinned ∙ removed in
    let gone : contains slot (queue q.replacer) ≡ false =
      rw out (contains-remove 0 _ _ slot p.replacer.lru_list w.ordered) in
    let fits : leb q.replacer.capacity slot ≡ false = rw (pinned, capacity) inside in
    let (linked_again, appended) = unpin_appends q.replacer slot l fits gone in
    let counted : (page.pin_count + 1) % u32_mod ≡ page.pin_count + 1 = omega (arith, r.room) in
    let returned : IsLinked t.replacer
        × (queue t.replacer ≡ (
            if page.pin_count == 0
            then remove slot (queue p.replacer) ++ (slot ∷ [])
            else remove slot (queue p.replacer))) =
      elim (Bool-cases (page.pin_count == 0)) [
        | inl last ↦
            let now : t.replacer ≡ (LruReplacer.unpin slot q.replacer).1 = rw last at left in
            (
              rw now linked_again,
              rw last (ap queue now ∙ appended ∙ ap (λ s. s ++ (slot ∷ [])) out),
            )
        | inr more ↦
            let now : t.replacer ≡ q.replacer = rw more at left in
            (rw now l, rw more (ap queue now ∙ out))
      ] in
    (
      q,
      Page.pin page,
      t,
      fetched,
      at,
      refl,
      refl,
      counted,
      l,
      out,
      gone,
      done,
      same,
      returned.0,
      returned.1,
    )
