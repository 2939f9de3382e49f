-- ===== src/Buffer/LruReplacer/Accepted.antt =====
-- What the replacer answers for a slot below its capacity.
use relational_db_engine.Common.{ℕ, ◌<◌, ◌≡◌, refl, Option, none, some, leb, arith, false}
use relational_db_engine.Common.Assoc
use relational_db_engine.Core.Status.{ok}
use relational_db_engine.Buffer.LruReplacer.{LruReplacer, pin, unpin, drop_position, add_position}

inside : (s c : ℕ) → s < c → leb c s ≡ false
inside s c h = ground arith

module _ (l : LruReplacer) (s : ℕ) (h : s < l.capacity) where
  pub pin_accepted : (l' : LruReplacer) × (pin s l ≡ (ok tt, l')) × (l'.capacity ≡ l.capacity)
  unfolding pin
  pin_accepted = (
    drop_position (Assoc.find s l.slot_positions) s l,
    rw (inside s l.capacity h) refl,
    kept (Assoc.find s l.slot_positions),
  )
    where
      kept : (o : Option ℕ) → (drop_position o s l).capacity ≡ l.capacity
      kept none = refl
      kept (some it) = refl

  pub unpin_accepted : (l' : LruReplacer) × (unpin s l ≡ (ok tt, l')) × (l'.capacity ≡ l.capacity)
  unfolding unpin
  unpin_accepted = (
    add_position (Assoc.find s l.slot_positions) s l,
    rw (inside s l.capacity h) refl,
    kept (Assoc.find s l.slot_positions),
  )
    where
      kept : (o : Option ℕ) → (add_position o s l).capacity ≡ l.capacity
      kept none = refl
      kept (some it) = refl
