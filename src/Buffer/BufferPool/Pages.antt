-- ===== src/Buffer/BufferPool/Pages.antt =====
-- What making room for a page leaves of the pages of the pool.
use relational_db_engine.Common.{
  ℕ, zero, suc, ◌≡◌, refl, ap, subst, List, [], ◌∷◌, map, Option, none, some, get_elem?, set,
  Option-cases, Bool-cases, inl, inr,
}
use relational_db_engine.Common.Assoc
use relational_db_engine.Core.Memory.{Bytes}
use relational_db_engine.Core.Exec.{Tried, done, failed}
use relational_db_engine.Core.Exec.Keeping.{KeepsAt, KeepsAt-bind, KeepsAt-attempt}
use relational_db_engine.Buffer.Page.{Page, set_dirty}
use relational_db_engine.Buffer.LruReplacer
use relational_db_engine.Buffer.LruReplacer.{get_victim}
use relational_db_engine.Buffer.Disk.{DiskApi}
use relational_db_engine.Buffer.BufferPool.{
  Pool, AvailableSlot, on_disk, on_replacer, page_at, save_if_dirty, save_slot, save_page_to_disk,
  victim_or_fail, keep_victim, save_victim, evict, take_slot, get_available_slot,
  restore_available_slot,
}

-- A page without its dirty flag.
abbrev pub seen : Page → ℕ × Bytes × ℕ
seen page = (page.id, page.bytes, page.pin_count)

map-set :
    {A B : Type 0} (f : A → B) (xs : List A) (i : ℕ) (x y : A)
    → get_elem? xs i ≡ some x
    → f y ≡ f x
    → map f (set xs i y) ≡ map f xs
map-set f [] i x y e h = refl
map-set f (z ∷ xs) zero x y e h = let at : some z ≡ some x = e in ap (λ b. b ∷ map f xs) (cc)
map-set f (z ∷ xs) (suc i) x y e h = ap (λ zs. f z ∷ zs) (map-set f xs i x y e h)

module _ (api : DiskApi) where
  -- The identities, the bytes and the pin counts of the pages.
  abbrev pub view : Pool api → List (ℕ × Bytes × ℕ)
  view p = map seen p.pages

  save_if_dirty-KeepsAt :
      (id slot : ℕ) (page : Page) (p : Pool api)
      → get_elem? p.pages slot ≡ some page
      → KeepsAt (view) (save_if_dirty api id slot page) p
  unfolding save_if_dirty set_dirty
  save_if_dirty-KeepsAt id slot page p e = elim (Bool-cases page.is_dirty) [
    | inl dirty ↦ rw dirty (
        KeepsAt-bind view p (on_disk api (api.write_page id page.bytes)) refl _ (λ a t q r.
          map-set seen t.pages slot page _
            (subst (λ ps. get_elem? ps slot ≡ some page) (ap (λ run. run.1.pages) r) e) refl))
    | inr clean ↦ rw clean refl
  ]

  save_slot-KeepsAt :
      (id : ℕ) (slot : Option ℕ) (p : Pool api) → KeepsAt view (save_slot api id slot) p
  unfolding save_slot
  save_slot-KeepsAt id none p = refl
  save_slot-KeepsAt id (some slot) p = elim (Option-cases (get_elem? p.pages slot)) [
    | inl gone ↦ rw gone refl
    | inr (page, e) ↦ rw e (save_if_dirty-KeepsAt id slot page p e)
  ]

  pub save_page_to_disk-KeepsAt :
      (id : ℕ) (p : Pool api) → KeepsAt view (save_page_to_disk api id) p
  unfolding save_page_to_disk
  save_page_to_disk-KeepsAt id p = save_slot-KeepsAt id (Assoc.find id p.page_slot) p

  keep_victim-KeepsAt :
      (slot : ℕ) (t : Tried (Unit {0})) (p : Pool api) → KeepsAt view (keep_victim api slot t) p
  unfolding keep_victim
  keep_victim-KeepsAt slot (done u) p = refl
  keep_victim-KeepsAt slot (failed c) p =
      KeepsAt-bind view p (on_replacer api (LruReplacer.unpin slot)) refl _ (λ a t q r. refl)

  save_victim-KeepsAt :
      (slot : ℕ) (page : Page) (p : Pool api) → KeepsAt view (save_victim api slot page) p
  unfolding save_victim
  save_victim-KeepsAt slot page p = elim (Bool-cases page.is_dirty) [
    | inl dirty ↦ rw dirty (
        KeepsAt-attempt view p (save_page_to_disk api page.id) (save_page_to_disk-KeepsAt page.id p)
          _ (λ r t q. keep_victim-KeepsAt slot r t))
    | inr clean ↦ rw clean refl
  ]

  page_at-KeepsAt : (slot : ℕ) (p : Pool api) → KeepsAt view (page_at api slot) p
  page_at-KeepsAt slot p = refl

  victim_or_fail-KeepsAt : (r : Tried ℕ) (p : Pool api) → KeepsAt view (victim_or_fail api r) p
  unfolding victim_or_fail
  victim_or_fail-KeepsAt (done slot) p = refl
  victim_or_fail-KeepsAt (failed c) p = refl

  evict-KeepsAt : (p : Pool api) → KeepsAt view (evict api) p
  unfolding evict
  evict-KeepsAt p = KeepsAt-attempt view p (on_replacer api get_victim) refl _ λ r p1 q1.
      KeepsAt-bind view p1 (victim_or_fail api r) (victim_or_fail-KeepsAt r p1) _ λ slot p2 q2 e2.
        KeepsAt-bind view p2 (page_at api slot) refl _ λ page p3 q3 e3.
          KeepsAt-bind view p3 (save_victim api slot page) (save_victim-KeepsAt slot page p3) _
            λ u p4 q4 e4. refl

  take_slot-KeepsAt : (free : List ℕ) (p : Pool api) → KeepsAt view (take_slot api free) p
  unfolding take_slot
  take_slot-KeepsAt [] p = evict-KeepsAt p
  take_slot-KeepsAt (slot ∷ rest) p = refl

  pub get_available_slot-KeepsAt : (p : Pool api) → KeepsAt view (get_available_slot api) p
  unfolding get_available_slot
  get_available_slot-KeepsAt p = take_slot-KeepsAt p.free_slots p

  pub restore_available_slot-KeepsAt :
      (s : AvailableSlot) (p : Pool api) → KeepsAt view (restore_available_slot api s) p
  unfolding restore_available_slot
  restore_available_slot-KeepsAt s p = elim (Bool-cases s.evicted_page) [
    | inl evicted ↦ rw evicted refl
    | inr free ↦ rw free refl
  ]
