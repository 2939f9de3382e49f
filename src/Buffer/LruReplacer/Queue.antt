-- ===== src/Buffer/LruReplacer/Queue.antt =====
-- The replacer as a queue of distinct slots, oldest first.
use relational_db_engine.Common.{
  ℕ, suc, ◌≤◌, ◌<◌, ◌≡◌, List, [], ◌∷◌, ◌++◌, Option, none, some, leb, ◌==◌, if◌then◌else◌, Bool,
  false, ◌||◌,
}
use relational_db_engine.Common.Assoc.{find}
use relational_db_engine.Core.Status.{ok, err, invalid_argument, not_found}
use relational_db_engine.Core.Exec.{Exec}
use relational_db_engine.Buffer.LruReplacer.{Node, LruReplacer}

abbrev pub slots : List Node → List ℕ
slots [] = []
slots (n ∷ ns) = n.slot ∷ slots ns

abbrev pub queue : LruReplacer → List ℕ
queue l = slots l.lru_list

-- The promise of the replacer: what the operations do to the queue.
abbrev pub remove : ℕ → List ℕ → List ℕ
remove s [] = []
remove s (x ∷ q) = if x == s then q else (x ∷ remove s q)

abbrev pub contains : ℕ → List ℕ → Bool
contains s [] = false
contains s (x ∷ q) = x == s || contains s q

abbrev pub pin_queue : ℕ → ℕ → Exec (List ℕ) (Unit {0})
pin_queue capacity s q = if leb capacity s then (err invalid_argument, q) else (ok tt, remove s q)

abbrev pub unpin_queue : ℕ → ℕ → Exec (List ℕ) (Unit {0})
unpin_queue capacity s q =
    if leb capacity s
    then (err invalid_argument, q)
    else (ok tt, (if contains s q then q else (q ++ (s ∷ []))))

abbrev pub victim_queue : Exec (List ℕ) ℕ
victim_queue [] = (err not_found, [])
victim_queue (s ∷ q) = (ok s, q)

-- What the map should hold: the node of each slot.
abbrev pub position : ℕ → List Node → Option ℕ
position s [] = none
position s (n ∷ ns) = if n.slot == s then some n.node else position s ns

-- Nodes get their identities in order, from k on and below m; no slot stands twice; slots are below
-- the capacity.
abbrev pub Ordered : ℕ → ℕ → ℕ → List Node → Type 0
Ordered k m capacity [] = k ≤ m
Ordered k m capacity (n ∷ ns) =
    (k ≤ n.node)
    × (n.slot < capacity)
    × (position n.slot ns ≡ none)
    × Ordered (suc n.node) m capacity ns

pub record IsLinked (l : LruReplacer) : Type 0 where
  pub ordered : Ordered 0 l.next_node l.capacity l.lru_list
  pub linked : (s : ℕ) → find s l.slot_positions ≡ position s l.lru_list
