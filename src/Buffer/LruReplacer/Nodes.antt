-- ===== src/Buffer/LruReplacer/Nodes.antt =====
-- Lists of nodes under the operations of the replacer.
use relational_db_engine.Common.{
  ℕ, suc, ◌≤◌, ◌<◌, ◌≡◌, refl, ap, List, [], ◌∷◌, ◌++◌, none, some, ◌==◌, if◌then◌else◌, true,
  false, arith, subst, Bool-cases, inl, inr,
}
use relational_db_engine.Buffer.LruReplacer.{Node, erase_node}
use relational_db_engine.Buffer.LruReplacer.Queue.{slots, position, Ordered, remove, contains}

pub position-ge :
    (k m c s it : ℕ) (ns : List Node) → Ordered k m c ns → position s ns ≡ some it → k ≤ it
position-ge k m c s it [] o e = cc
position-ge k m c s it (n ∷ ns) o e = ground (arith, position-ge (suc n.node) m c s it ns o.3)

pub Ordered-mono : (j k m c : ℕ) (ns : List Node) → j ≤ k → Ordered k m c ns → Ordered j m c ns
Ordered-mono j k m c [] h o = omega arith
Ordered-mono j k m c (n ∷ ns) h o = (omega arith, o.1, o.2, o.3)

pub remove-absent : (s : ℕ) (ns : List Node) → position s ns ≡ none → remove s (slots ns) ≡ slots ns
remove-absent s [] e = refl
remove-absent s (n ∷ ns) e = ground (arith, remove-absent s ns)

pub contains-absent :
    (s : ℕ) (ns : List Node) → position s ns ≡ none → contains s (slots ns) ≡ false
contains-absent s [] e = refl
contains-absent s (n ∷ ns) e = ground (arith, contains-absent s ns)

pub contains-present :
    (s it : ℕ) (ns : List Node) → position s ns ≡ some it → contains s (slots ns) ≡ true
contains-present s it [] e = cc
contains-present s it (n ∷ ns) e = ground (arith, contains-present s it ns)

-- No slot stands twice, so that it is gone when it is removed.
pub contains-remove :
    (k m c s : ℕ) (ns : List Node) → Ordered k m c ns → contains s (remove s (slots ns)) ≡ false
contains-remove k m c s [] o = refl
contains-remove k m c s (n ∷ ns) o = elim (Bool-cases (n.slot == s)) [
  | inl same ↦
      let here : n.slot ≡ s = ground arith in
      let gone : position s ns ≡ none = subst (λ i. position i ns ≡ none) here o.2 in
      rw same (contains-absent s ns gone)
  | inr other ↦ rw (other, other) (contains-remove (suc n.node) m c s ns o.3)
]

pub slots-erase :
    (k m c s it : ℕ) (ns : List Node)
    → Ordered k m c ns
    → position s ns ≡ some it
    → slots (erase_node it ns) ≡ remove s (slots ns)
unfolding erase_node
slots-erase k m c s it [] o e = cc
slots-erase k m c s it (n ∷ ns) o e =
    ground
      (arith, position-ge (suc n.node) m c s it ns o.3, slots-erase (suc n.node) m c s it ns o.3)

pub position-erase_absent :
    (t it : ℕ) (ns : List Node) → position t ns ≡ none → position t (erase_node it ns) ≡ none
unfolding erase_node
position-erase_absent t it [] e = refl
position-erase_absent t it (n ∷ ns) e = ground (arith, position-erase_absent t it ns)

pub position-erase :
    (k m c s it t : ℕ) (ns : List Node)
    → Ordered k m c ns
    → position s ns ≡ some it
    → position t (erase_node it ns) ≡ (if s == t then none else position t ns)
unfolding erase_node
position-erase k m c s it t [] o e = cc
position-erase k m c s it t (n ∷ ns) o e =
    ground (
      arith,
      position-ge (suc n.node) m c s it ns o.3,
      position-erase (suc n.node) m c s it t ns o.3,
    )

pub Ordered-erase :
    (k m c it : ℕ) (ns : List Node) → Ordered k m c ns → Ordered k m c (erase_node it ns)
unfolding erase_node
Ordered-erase k m c it [] o = o
Ordered-erase k m c it (n ∷ ns) o = ground (
  arith,
  Ordered-mono k (suc n.node) m c ns (omega arith) o.3,
  Ordered-erase (suc n.node) m c it ns o.3,
  position-erase_absent n.slot it ns o.2,
)

pub slots-append : (ns : List Node) (n : Node) → slots (ns ++ (n ∷ [])) ≡ slots ns ++ (n.slot ∷ [])
slots-append [] n = refl
slots-append (x ∷ ns) n = ap (◌∷◌ x.slot) (slots-append ns n)

pub position-append :
    (s : ℕ) (ns : List Node) (n : Node)
    → position n.slot ns ≡ none
    → position s (ns ++ (n ∷ [])) ≡ (if n.slot == s then some n.node else position s ns)
position-append s [] n e = refl
position-append s (x ∷ ns) n e = ground (arith, position-append s ns n)

pub Ordered-append :
    (k m c : ℕ) (ns : List Node) (n : Node)
    → Ordered k m c ns
    → n.node ≡ m
    → n.slot < c
    → position n.slot ns ≡ none
    → Ordered k (suc m) c (ns ++ (n ∷ []))
Ordered-append k m c [] n o e h p = (omega arith, h, refl, omega arith)
Ordered-append k m c (x ∷ ns) n o e h p =
    ground (arith, position-append x.slot ns n, Ordered-append (suc x.node) m c ns n o.3)
