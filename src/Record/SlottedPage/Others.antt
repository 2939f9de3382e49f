-- ===== src/Record/SlottedPage/Others.antt =====
-- The rows of a page that a call on another slot leaves as they are.
use relational_db_engine.Common.{
  sym, subst, ap, set, get_elem?-set_ne, Option-cases, Bool-cases, ℕ, ◌≡◌, ◌≢◌, inl, inr, List,
  Option, some, none, length, get_elem?, ◌==◌, ◌∙◌,
}
use relational_db_engine.Core.Status.{Result, ok, err, invalid_argument, not_found}
use relational_db_engine.Core.Memory.{Bytes, AreBytes}
use relational_db_engine.Record.SlottedPage.{delete_row, update_row, read_row}
use relational_db_engine.Record.SlottedPage.Invariant.{IsWellFormed}
use relational_db_engine.Record.SlottedPage.Rows.{rows}
use relational_db_engine.Record.SlottedPage.Delete.{delete_row-rows}
use relational_db_engine.Record.SlottedPage.Update.{update_row-rows}
use relational_db_engine.Record.SlottedPage.Operations.{PageCall, call, Keeps, call-Keeps}
use relational_db_engine.Record.SlottedPage.RowList
use relational_db_engine.Record.SlottedPage.Read.{read_row-rows}

module _ (rs : List (Option Bytes)) (i j : ℕ) (new : List (Option Bytes)) (h : i ≢ j) where
  delete_others : RowList.delete rs i ≡ ok new → get_elem? new j ≡ get_elem? rs j
  delete_others e = elim (Option-cases (get_elem? rs i)) [
    | inl out ↦
        let no : ◌≡◌ {A = Result (List (Option Bytes))} (err invalid_argument) (ok new) =
          rw out at e in
        cc
    | inr (none, at) ↦
        let no : ◌≡◌ {A = Result (List (Option Bytes))} (err not_found) (ok new) = rw at at e in cc
    | inr (some row, at) ↦
        let put : ◌≡◌ {A = Result (List (Option Bytes))} (ok (set rs i none)) (ok new) =
          rw at at e in
        let same : set rs i none ≡ new = cc in rw (← same) (get_elem?-set_ne rs i j none h)
  ]

  update_others :
      (row : Bytes) → RowList.update rs i row ≡ ok new → get_elem? new j ≡ get_elem? rs j
  update_others row e = elim (Option-cases (get_elem? rs i)) [
    | inl out ↦
        let no : ◌≡◌ {A = Result (List (Option Bytes))} (err invalid_argument) (ok new) =
          rw out at e in
        cc
    | inr (none, at) ↦
        let no : ◌≡◌ {A = Result (List (Option Bytes))} (err not_found) (ok new) = rw at at e in cc
    | inr (some old, at) ↦ elim (Bool-cases (length row == length old)) [
      | inr other ↦
          let no : ◌≡◌ {A = Result (List (Option Bytes))} (err invalid_argument) (ok new) =
            rw (at, other) at e in
          cc
      | inl fits ↦
          let put : ◌≡◌ {A = Result (List (Option Bytes))} (ok (set rs i (some row))) (ok new) =
            rw (at, fits) at e in
          let same : set rs i (some row) ≡ new = cc in
          rw (← same) (get_elem?-set_ne rs i j (some row) h)
    ]
  ]

module _ (p q : Bytes) (i j : ℕ) (w : IsWellFormed p) (h : i ≢ j) where
  -- What readRow gives for a slot whose row is the same on both pages.
  same_read :
      IsWellFormed q → get_elem? (rows q) j ≡ get_elem? (rows p) j → read_row q j ≡ read_row p j
  same_read good same = read_row-rows q j good ∙ ap RowList.present same ∙ sym (read_row-rows p j w)

  pub delete_row_others : delete_row p i ≡ ok q → (IsWellFormed q) × (read_row q j ≡ read_row p j)
  unfolding call
  delete_row_others e =
      let listed : ◌≡◌ {A = Result (List (Option Bytes))} (ok (rows q))
          (RowList.delete (rows p) i) =
        rw e at (delete_row-rows p i w) in
      let good : IsWellFormed q = subst Keeps e (call-Keeps p (PageCall.delete i) w tt) in
      (good, same_read good (delete_others (rows p) i j (rows q) h (sym listed)))

  pub update_row_others :
      (xs : Bytes)
      → AreBytes xs
      → update_row p i xs ≡ ok q
      → (IsWellFormed q) × (read_row q j ≡ read_row p j)
  unfolding call
  update_row_others xs xb e =
      let listed : ◌≡◌ {A = Result (List (Option Bytes))} (ok (rows q))
          (RowList.update (rows p) i xs) =
        rw e at (update_row-rows p i xs w xb) in
      let good : IsWellFormed q = subst Keeps e (call-Keeps p (PageCall.update i xs) w xb) in
      (good, same_read good (update_others (rows p) i j (rows q) h xs (sym listed)))
