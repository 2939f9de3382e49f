-- ===== src/Record/SlottedPage/Initialize.antt =====
-- The page that initialize makes.
use relational_db_engine.Common.{
  ℕ, ◌+◌, ◌^◌, ◌≤◌, ◌<◌, ◌≡◌, ap, ◌∙◌, ◌⊎◌, inl, [], length, replicate, length-replicate, arith,
}
use relational_db_engine.Common.Tabulate.{tabulate}
use relational_db_engine.Core.Constants.{invalid_page_id}
use relational_db_engine.Record.SlottedPage.Rows.{row_at, rows}
use relational_db_engine.Core.Status.{ok}
use relational_db_engine.Core.Memory.{Bytes}
use relational_db_engine.Core.Memory.Splice.{splice, AreBytes-replicate}
use relational_db_engine.Core.Helper.{write_uint32}
use relational_db_engine.Core.Helper.LittleEndian.{
  uint, le_bytes, write_uint32-lem, read_uint32-lem, AreBytes-le_bytes, uint-splice_self,
  uint-splice_ne, length-le_bytes,
}
use relational_db_engine.Record.SlottedPage.{initialize, page_id, next_page_id}
use relational_db_engine.Record.SlottedPage.Invariant.{IsWellFormed, count, free_start, free_end}
use relational_db_engine.Record.SlottedPage.Pages.{
  IsPage, put16, put16-IsPage, splice-IsPage, write16, put16_self, put16_ne,
}

put32 : Bytes → ℕ → ℕ → Bytes
put32 p o v = splice p o (le_bytes 4 v)

put32-IsPage : {p : Bytes} (o v : ℕ) → IsPage p → IsPage (put32 p o v)
unfolding put32
put32-IsPage o v w = splice-IsPage o (le_bytes 4 v) w (AreBytes-le_bytes 4 v)

write32 :
    {p : Bytes} (w : IsPage p) (o v : ℕ) → o + 4 ≤ 4096 → write_uint32 p o v ≡ ok (put32 p o v)
unfolding put32
write32 {p} w o v h = write_uint32-lem p o v (omega (arith, w.size))

put16_ne32 :
    (p : Bytes) (o v r : ℕ) → (r + 4 ≤ o) ⊎ (o + 2 ≤ r) → uint 4 (put16 p o v) r ≡ uint 4 p r
unfolding put16
put16_ne32 p o v r h = uint-splice_ne 4 p o (le_bytes 2 v) r (rw (length-le_bytes 2 v) h)

module _ (page : Bytes) (h : length page ≡ 4096) (id : ℕ) where
  init1 : Bytes
  init1 = put32 (replicate (length page) 0) 0 id

  init2 : Bytes
  init2 = put16 init1 4 1

  init3 : Bytes
  init3 = put32 init2 8 0xffff_ffff

  init4 : Bytes
  init4 = put16 init3 12 0

  init5 : Bytes
  init5 = put16 init4 14 24

  pub initialized : Bytes
  initialized = put16 init5 16 4096

  is_init0 : IsPage (replicate (length page) 0)
  is_init0 = record {
    size = length-replicate (length page) 0 ∙ h;
    bytes = AreBytes-replicate (length page);
  }

  is_init1 : IsPage init1
  unfolding init1
  is_init1 = put32-IsPage 0 id is_init0

  is_init2 : IsPage init2
  unfolding init2
  is_init2 = put16-IsPage 4 1 is_init1

  is_init3 : IsPage init3
  unfolding init3
  is_init3 = put32-IsPage 8 0xffff_ffff is_init2

  is_init4 : IsPage init4
  unfolding init4
  is_init4 = put16-IsPage 12 0 is_init3

  is_init5 : IsPage init5
  unfolding init5
  is_init5 = put16-IsPage 14 24 is_init4

  is_initialized : IsPage initialized
  unfolding initialized
  is_initialized = put16-IsPage 16 4096 is_init5

  pub initialize-lem : initialize page id ≡ ok initialized
  unfolding initialize init1 init2 init3 init4 init5 initialized
  initialize-lem =
      rw
        (
          write32 is_init0 0 id (omega arith),
          write16 is_init1 4 1 (omega arith),
          write32 is_init2 8 0xffff_ffff (omega arith),
          write16 is_init3 12 0 (omega arith),
          write16 is_init4 14 24 (omega arith),
        )
        (write16 is_init5 16 4096 (omega arith))

  count_zero : count initialized ≡ 0
  unfolding initialized init5 init4
  count_zero =
      put16_ne _ 16 _ 12 (omega arith)
      ∙ put16_ne _ 14 _ 12 (omega arith)
      ∙ put16_self is_init3 12 0 (omega arith) (omega arith)

  pub start_after_header : free_start initialized ≡ 24
  unfolding initialized init5
  start_after_header =
      put16_ne _ 16 _ 14 (omega arith) ∙ put16_self is_init4 14 24 (omega arith) (omega arith)

  pub end_at_page : free_end initialized ≡ 4096
  unfolding initialized
  end_at_page = put16_self is_init5 16 4096 (omega arith) (omega arith)

  pub initialized-IsWellFormed : IsWellFormed initialized
  initialized-IsWellFormed = record {
    size = is_initialized.size;
    bytes = is_initialized.bytes;
    directory = omega (arith, count_zero, start_after_header);
    ordered = omega (arith, start_after_header, end_at_page);
    in_page = omega (arith, end_at_page);
    rows = λ i l. absurd (omega (arith, count_zero));
    apart = λ i j l m. absurd (omega (arith, count_zero));
  }

  rows_empty : rows initialized ≡ []
  unfolding rows tabulate
  rows_empty = ap (λ n. tabulate n 0 (row_at initialized)) count_zero

  next_none : uint 4 initialized 8 ≡ 0xffff_ffff
  unfolding initialized init5 init4 init3 put32
  next_none =
      put16_ne32 _ 16 _ 8 (omega arith)
      ∙ put16_ne32 _ 14 _ 8 (omega arith)
      ∙ put16_ne32 _ 12 _ 8 (omega arith)
      ∙ uint-splice_self _ 8 0xffff_ffff 4 (omega arith) (omega (arith, is_init2.size))

  own_id : id < 2 ^ 32 → uint 4 initialized 0 ≡ id
  unfolding initialized init5 init4 init3 init2 init1 put32
  own_id l =
      put16_ne32 _ 16 _ 0 (omega arith)
      ∙ put16_ne32 _ 14 _ 0 (omega arith)
      ∙ put16_ne32 _ 12 _ 0 (omega arith)
      ∙ uint-splice_ne 4 _ 8 _ 0 (inl (omega arith))
      ∙ put16_ne32 _ 4 _ 0 (omega arith)
      ∙ uint-splice_self _ 0 id 4 l (omega (arith, is_init0.size))

  pub read_ids :
      id < 2 ^ 32 → (page_id initialized ≡ ok id) × (next_page_id initialized ≡ ok 0xffff_ffff)
  unfolding page_id next_page_id
  read_ids l = (
    read_uint32-lem initialized 0 is_initialized.bytes (omega (arith, is_initialized.size))
        ∙ ap ok (own_id l),
    read_uint32-lem initialized 8 is_initialized.bytes (omega (arith, is_initialized.size))
        ∙ ap ok next_none,
  )

-- initialize turns any 4096 bytes into a well-formed page of no rows, which names its own id and
-- INVALID_PAGE_ID as the next page.
pub initialize-empty :
    (page : Bytes) (id : ℕ)
    → length page ≡ 4096
    → id < 2 ^ 32
    → (p : Bytes) × (initialize page id ≡ ok p)
      × IsWellFormed p
      × (rows p ≡ [])
      × (page_id p ≡ ok id)
      × (next_page_id p ≡ ok invalid_page_id)
initialize-empty page id h l = (
  initialized page h id,
  initialize-lem page h id,
  initialized-IsWellFormed page h id,
  rows_empty page h id,
  (read_ids page h id l).0,
  (read_ids page h id l).1,
)
