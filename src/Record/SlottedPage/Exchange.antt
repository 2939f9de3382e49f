-- ===== src/Record/SlottedPage/Exchange.antt =====
-- Pages whose rows differ at one slot only.
use relational_db_engine.Common.{ℕ, ◌+◌, ◌<◌, ◌≡◌, ◌≢◌, ap, sym, ◌∙◌, set, arith}
use relational_db_engine.Common.Tabulate.{tabulate, set-tabulate}
use relational_db_engine.Core.Memory.{Bytes}
use relational_db_engine.Core.Memory.Splice.{slice}
use relational_db_engine.Record.SlottedPage.Invariant.{count, row_offset, row_size}
use relational_db_engine.Record.SlottedPage.Rows.{row_at, rows}

-- Two pages with the same directory length, whose rows differ at slot i only.
pub exchange :
    (p q : Bytes) (i : ℕ)
    → i < count p
    → count q ≡ count p
    → ((j : ℕ) → j ≢ i → j < count p → row_at p j ≡ row_at q j)
    → set (rows p) i (row_at q i) ≡ rows q
unfolding rows
exchange p q i h e same =
    let at : 0 + i ≡ i = omega arith in
    rw e (
      ap (λ j. set (tabulate (count p) 0 (row_at p)) i (row_at q j)) (sym at)
      ∙ set-tabulate (count p) 0 (row_at p) (row_at q) i h
          (λ j ne l. same j (λ r. ne (r ∙ sym at)) (omega arith)))

pub row_at_ext :
    (p q : Bytes) (j : ℕ)
    → row_size q j ≡ row_size p j
    → row_offset q j ≡ row_offset p j
    → slice q (row_offset p j) (row_size p j) ≡ slice p (row_offset p j) (row_size p j)
    → row_at p j ≡ row_at q j
unfolding row_at
row_at_ext p q j s o e = rw (s, o, e)
