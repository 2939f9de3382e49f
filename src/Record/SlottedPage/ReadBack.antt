-- ===== src/Record/SlottedPage/ReadBack.antt =====
-- Reading a row after it is inserted, deleted or updated.
use relational_db_engine.Common.{
  sym, subst, set, get_elem?-set_self, Option-cases, ℕ, ◌+◌, ◌-◌, ◌<◌, ◌≡◌, ◌≢◌, refl, inl, inr,
  List, [], ◌∷◌, ◌++◌, Option, some, none, length, get_elem?, ==_ne, ◌==◌, Bool-cases, arith,
}
use relational_db_engine.Core.Status.{Result, ok, err, invalid_argument, not_found}
use relational_db_engine.Core.Memory.{Bytes, AreBytes}
use relational_db_engine.Record.SlottedPage.{insert_row, delete_row, update_row, read_row}
use relational_db_engine.Record.SlottedPage.Invariant.{IsWellFormed, count, free_start, free_end}
use relational_db_engine.Record.SlottedPage.Rows.{rows}
use relational_db_engine.Record.SlottedPage.Insert.{inserted, insert_row-lem}
use relational_db_engine.Record.SlottedPage.Inserted.{inserted-IsWellFormed}
use relational_db_engine.Record.SlottedPage.Append.{
  rows-inserted, insert_refused, length-rows, space_cases,
}
use relational_db_engine.Record.SlottedPage.Delete.{delete_row-rows}
use relational_db_engine.Record.SlottedPage.Update.{update_row-rows}
use relational_db_engine.Record.SlottedPage.Operations.{PageCall, call, Keeps, call-Keeps}
use relational_db_engine.Record.SlottedPage.RowList
use relational_db_engine.Record.SlottedPage.Read.{read_row-rows}

at_end :
    (rs : List (Option Bytes)) (r : Option Bytes) → get_elem? (rs ++ (r ∷ [])) (length rs) ≡ some r
at_end [] r = refl
at_end (x ∷ rs) r = at_end rs r

-- On a well-formed page, readRow of the slot that insertRow returns gives the payload back, if that
-- is not empty.
pub read_row-insert_row :
    (p xs q : Bytes) (k : ℕ)
    → IsWellFormed p
    → AreBytes xs
    → 0 < length xs
    → insert_row p xs ≡ ok (k, q)
    → read_row q k ≡ ok xs
read_row-insert_row p xs q k w xb some_bytes e =
    elim (space_cases (length xs + 4) (free_end p - free_start p)) [
      | inr full ↦
          let no : ◌≡◌ {A = Result (ℕ × Bytes)} (err invalid_argument) (ok (k, q)) =
            rw (insert_refused w xs full) at e in
          cc
      | inl fits ↦
          let done : ◌≡◌ {A = Result (ℕ × Bytes)} (ok (count p, inserted p xs)) (ok (k, q)) =
            rw (insert_row-lem w xs xb fits) at e in
          let slot : count p ≡ k = cc in
          let page : inserted p xs ≡ q = cc in
          let there : length xs ≢ 0 = omega arith in
          let here : get_elem? (rows p ++ (some xs ∷ [])) (count p) ≡ some (some xs) =
            rw (← length-rows p) (at_end (rows p) (some xs)) in
          rw
            (
              ← slot,
              ← page,
              read_row-rows (inserted p xs) (count p) (inserted-IsWellFormed w xs xb fits),
              rows-inserted w xs xb fits,
              ==_ne (length xs) 0 there,
              here,
            )
            refl
    ]

gone :
    (rs : List (Option Bytes)) (i : ℕ) (new : List (Option Bytes))
    → RowList.delete rs i ≡ ok new
    → get_elem? new i ≡ some none
gone rs i new e = elim (Option-cases (get_elem? rs i)) [
  | inl out ↦
      let no : ◌≡◌ {A = Result (List (Option Bytes))} (err invalid_argument) (ok new) =
        rw out at e in
      cc
  | inr (none, at) ↦
      let no : ◌≡◌ {A = Result (List (Option Bytes))} (err not_found) (ok new) = rw at at e in cc
  | inr (some row, at) ↦
      let set_none : ◌≡◌ {A = Result (List (Option Bytes))} (ok (set rs i none)) (ok new) =
        rw at at e in
      let same : set rs i none ≡ new = cc in
      rw (← same) (get_elem?-set_self rs i (some row) none at)
]

-- On a well-formed page, readRow of a slot that deleteRow has emptied answers NotFound.
pub read_row-delete_row :
    (p q : Bytes) (k : ℕ) → IsWellFormed p → delete_row p k ≡ ok q → read_row q k ≡ err not_found
unfolding call
read_row-delete_row p q k w e =
    let listed : ◌≡◌ {A = Result (List (Option Bytes))} (ok (rows q)) (RowList.delete (rows p) k) =
      rw e at (delete_row-rows p k w) in
    let good : IsWellFormed q = subst Keeps e (call-Keeps p (PageCall.delete k) w tt) in
    let empty : get_elem? (rows q) k ≡ some none = gone (rows p) k (rows q) (sym listed) in
    rw (read_row-rows q k good, empty) refl

stored :
    (rs : List (Option Bytes)) (i : ℕ) (row : Bytes) (new : List (Option Bytes))
    → RowList.update rs i row ≡ ok new
    → get_elem? new i ≡ some (some row)
stored rs i row new e = elim (Option-cases (get_elem? rs i)) [
  | inl out ↦
      let no : ◌≡◌ {A = Result (List (Option Bytes))} (err invalid_argument) (ok new) =
        rw out at e in
      cc
  | inr (none, at) ↦
      let no : ◌≡◌ {A = Result (List (Option Bytes))} (err not_found) (ok new) = rw at at e in cc
  | inr (some old, at) ↦ elim (Bool-cases (length row == length old)) [
    | inr other ↦
        let no : ◌≡◌ {A = Result (List (Option Bytes))} (err invalid_argument) (ok new) =
          rw (at, other) at e in
        cc
    | inl fits ↦
        let put : ◌≡◌ {A = Result (List (Option Bytes))} (ok (set rs i (some row))) (ok new) =
          rw (at, fits) at e in
        let same : set rs i (some row) ≡ new = cc in
        rw (← same) (get_elem?-set_self rs i (some old) (some row) at)
  ]
]

-- On a well-formed page, readRow of a slot that updateRow has overwritten gives the payload back.
pub read_row-update_row :
    (p xs q : Bytes) (k : ℕ)
    → IsWellFormed p
    → AreBytes xs
    → update_row p k xs ≡ ok q
    → read_row q k ≡ ok xs
unfolding call
read_row-update_row p xs q k w xb e =
    let listed : ◌≡◌ {A = Result (List (Option Bytes))} (ok (rows q))
        (RowList.update (rows p) k xs) =
      rw e at (update_row-rows p k xs w xb) in
    let good : IsWellFormed q = subst Keeps e (call-Keeps p (PageCall.update k xs) w xb) in
    let here : get_elem? (rows q) k ≡ some (some xs) = stored (rows p) k xs (rows q) (sym listed) in
    rw (read_row-rows q k good, here) refl
