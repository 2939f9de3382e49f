-- ===== src/Buffer/LruReplacer.antt =====
-- src/buffer/LRUReplacer.cpp. A node of the std::list has an identity, which is what the iterators
-- in the map refer to; a new node gets a fresh one.
pub mod Queue
pub mod Nodes
pub mod Refinement
pub mod Accepted
use relational_db_engine.Common.{
  ℕ, suc, ◌+◌, List, [], ◌∷◌, ◌++◌, Option, none, some, length, leb, ◌==◌, if◌then◌else◌,
}
use relational_db_engine.Common.Assoc.{find, erase, insert}
use relational_db_engine.Core.Status.{Result, ok, err, invalid_argument, not_found}
use relational_db_engine.Core.Exec.{Exec}

pub record Node : Type 0 where
  pub node : ℕ
  pub slot : ℕ

pub record LruReplacer : Type 0 where
  pub capacity : ℕ
  pub lru_list : List Node
  pub slot_positions : List (ℕ × ℕ)
  pub next_node : ℕ

unfoldable pub new_replacer : ℕ → LruReplacer
new_replacer capacity = record {
  capacity = capacity;
  lru_list = [];
  slot_positions = [];
  next_node = 0;
}

unfoldable pub size : LruReplacer → ℕ
size l = length l.lru_list

-- lruList_.erase(it)
unfoldable pub erase_node : ℕ → List Node → List Node
erase_node it [] = []
erase_node it (n ∷ ns) = if n.node == it then ns else (n ∷ erase_node it ns)

drop_position : Option ℕ → ℕ → LruReplacer → LruReplacer
drop_position none slot_id l = l
drop_position (some it) slot_id l = record l {
  lru_list = erase_node it l.lru_list;
  slot_positions = erase slot_id l.slot_positions;
}

unfoldable pub pin : ℕ → Exec LruReplacer (Unit {0})
unfolding drop_position erase_node
pin slot_id l =
    if leb l.capacity slot_id
    then (err invalid_argument, l)
    else (ok tt, drop_position (find slot_id l.slot_positions) slot_id l)

add_position : Option ℕ → ℕ → LruReplacer → LruReplacer
add_position (some it) slot_id l = l
add_position none slot_id l = record l {
  lru_list = l.lru_list ++ (record { node = l.next_node; slot = slot_id } ∷ []);
  slot_positions = insert slot_id l.next_node l.slot_positions;
  next_node = suc l.next_node;
}

unfoldable pub unpin : ℕ → Exec LruReplacer (Unit {0})
unfolding add_position
unpin slot_id l =
    if leb l.capacity slot_id
    then (err invalid_argument, l)
    else (ok tt, add_position (find slot_id l.slot_positions) slot_id l)

take_front : List Node → Exec LruReplacer ℕ
take_front [] l = (err not_found, l)
take_front (n ∷ ns) l =
    (ok n.slot, record l { lru_list = ns; slot_positions = erase n.slot l.slot_positions })

unfoldable pub get_victim : Exec LruReplacer ℕ
unfolding take_front
get_victim l = take_front l.lru_list l
