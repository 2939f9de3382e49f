-- ===== src/Buffer/LruReplacer/Refinement.antt =====
-- The replacer against the queue.
use relational_db_engine.Common.{
  ℕ, suc, ◌≡◌, refl, ap, sym, ◌∙◌, inl, inr, List, [], ◌∷◌, none, some, Option-cases, Bool-cases,
  leb, true, false, arith,
}
use relational_db_engine.Common.Assoc.{find, find-erase, find-insert}
use relational_db_engine.Core.Status.{Result, ok, err, not_found}
use relational_db_engine.Buffer.LruReplacer.{
  Node, LruReplacer, new_replacer, pin, unpin, get_victim, take_front,
}
use relational_db_engine.Buffer.LruReplacer.Queue.{
  slots, queue, position, Ordered, IsLinked, pin_queue, unpin_queue, victim_queue,
}
use relational_db_engine.Buffer.LruReplacer.Nodes.{
  Ordered-mono, remove-absent, contains-absent, contains-present, slots-erase, position-erase,
  Ordered-erase, slots-append, position-append, Ordered-append,
}

-- The run seen from outside: its result and the queue that it leaves.
abbrev pub observed {ℓ} : {A : Type ℓ} → Result A × LruReplacer → Result A × List ℕ
observed (r, l) = (r, queue l)

pub new_replacer-IsLinked : (capacity : ℕ) → IsLinked (new_replacer capacity)
unfolding new_replacer
new_replacer-IsLinked c = record { ordered = omega arith; linked = λ s. refl }

-- The run ends in a linked replacer of the same capacity, and its result and queue are those given.
abbrev pub Implements {ℓ} : {A : Type ℓ} → ℕ → Result A × LruReplacer → Result A × List ℕ → Type ℓ
Implements capacity run q = IsLinked run.1 × (run.1.capacity ≡ capacity) × (observed run ≡ q)

module _ (l : LruReplacer) (w : IsLinked l) (s : ℕ) where
  refused :
      leb l.capacity s ≡ true → Implements l.capacity (pin s l) (pin_queue l.capacity s (queue l))
  unfolding pin
  refused b = rw b (w, refl, refl)

  pin_absent :
      leb l.capacity s ≡ false
      → find s l.slot_positions ≡ none
      → Implements l.capacity (pin s l) (pin_queue l.capacity s (queue l))
  unfolding pin
  pin_absent b e = rw (b, e, remove-absent s l.lru_list (sym (w.linked s) ∙ e)) (w, refl, refl)

  pin_present :
      (it : ℕ)
      → leb l.capacity s ≡ false
      → find s l.slot_positions ≡ some it
      → Implements l.capacity (pin s l) (pin_queue l.capacity s (queue l))
  unfolding pin
  pin_present it b e =
      let p : position s l.lru_list ≡ some it = sym (w.linked s) ∙ e in
      rw (b, e)
        (
          record {
            ordered = Ordered-erase 0 _ _ it l.lru_list w.ordered;
            linked = λ t. ground (
              arith,
              find-erase s t l.slot_positions,
              position-erase 0 l.next_node l.capacity s it t l.lru_list w.ordered,
              w.linked t,
            );
          },
          refl,
          ap (λ q. (ok tt, q)) (slots-erase 0 _ _ s it l.lru_list w.ordered p),
        )

  unpin_refused :
      leb l.capacity s ≡ true
      → Implements l.capacity (unpin s l) (unpin_queue l.capacity s (queue l))
  unfolding unpin
  unpin_refused b = rw b (w, refl, refl)

  unpin_present :
      (it : ℕ)
      → leb l.capacity s ≡ false
      → find s l.slot_positions ≡ some it
      → Implements l.capacity (unpin s l) (unpin_queue l.capacity s (queue l))
  unfolding unpin
  unpin_present it b e =
      rw (b, e, contains-present s it l.lru_list (sym (w.linked s) ∙ e)) (w, refl, refl)

  unpin_absent :
      leb l.capacity s ≡ false
      → find s l.slot_positions ≡ none
      → Implements l.capacity (unpin s l) (unpin_queue l.capacity s (queue l))
  unfolding unpin
  unpin_absent b e =
      let p : position s l.lru_list ≡ none = sym (w.linked s) ∙ e in
      let n : Node = record { node = l.next_node; slot = s } in
      rw (b, e, contains-absent s l.lru_list p)
        (
          record {
            ordered = Ordered-append 0 _ _ l.lru_list n w.ordered refl (ground arith) p;
            linked = λ t. ground (
              arith,
              find-insert s t l.next_node l.slot_positions e,
              position-append t l.lru_list n p,
              w.linked t,
            );
          },
          refl,
          ap (λ q. (ok tt, q)) (slots-append l.lru_list n),
        )

-- pin and unpin of a linked replacer are those of the queue: pin takes the slot out, unpin puts it
-- behind the others if it is not there, and a slot that is not below the capacity is refused.
pub pin-unpin_lem :
    (l : LruReplacer) (s : ℕ)
    → IsLinked l
    → Implements l.capacity (pin s l) (pin_queue l.capacity s (queue l))
      × Implements l.capacity (unpin s l) (unpin_queue l.capacity s (queue l))
pin-unpin_lem l s w = elim (Bool-cases (leb l.capacity s)) [
  | inl out ↦ (refused l w s out, unpin_refused l w s out)
  | inr b ↦ elim (Option-cases (find s l.slot_positions)) [
    | inl e ↦ (pin_absent l w s b e, unpin_absent l w s b e)
    | inr (it, e) ↦ (pin_present l w s it b e, unpin_present l w s it b e)
  ]
]

victim_of :
    (l : LruReplacer) (ns : List Node)
    → IsLinked l
    → l.lru_list ≡ ns
    → Implements l.capacity (take_front ns l) (victim_queue (slots ns))
unfolding take_front
victim_of l [] w e = (w, refl, ap (λ ns. (err not_found, slots ns)) e)
victim_of l (n ∷ ns) w e =
    let o : Ordered 0 l.next_node l.capacity (n ∷ ns) = rw e at w.ordered in
    let p : (t : ℕ) → find t l.slot_positions ≡ position t (n ∷ ns) =
      λ t. w.linked t ∙ ap (position t) e in
    (
      record {
        ordered = Ordered-mono 0 (suc n.node) _ _ ns (omega arith) o.3;
        linked = λ t. ground (arith, find-erase n.slot t l.slot_positions, p t);
      },
      refl,
      refl,
    )

-- getVictim of a linked replacer takes the oldest slot off the queue, or fails with NotFound on the
-- empty queue.
pub get_victim_lem :
    (l : LruReplacer) → IsLinked l → Implements l.capacity (get_victim l) (victim_queue (queue l))
unfolding get_victim
get_victim_lem l w = victim_of l l.lru_list w refl
