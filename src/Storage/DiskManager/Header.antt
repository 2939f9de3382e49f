-- ===== src/Storage/DiskManager/Header.antt =====
-- The bytes of the header page.
use relational_db_engine.Common.{
  ℕ, suc, ◌+◌, ◌^◌, ◌≤◌, ◌<◌, ◌≡◌, refl, ap, subst, ◌∙◌, inl, [], ◌∷◌, true, length, get_or,
  replicate, length-replicate, arith, ==_iff,
}
use relational_db_engine.Core.Constants.{page_size_bytes}
use relational_db_engine.Core.Status.{ok}
use relational_db_engine.Core.Memory.{Bytes, AreBytes}
use relational_db_engine.Core.Memory.Splice.{
  splice, length-splice, AreBytes-splice, AreBytes-replicate, copy_in-splice, get_or-splice_before,
  get_or-splice_inside,
}
use relational_db_engine.Core.Helper.{read_uint32}
use relational_db_engine.Core.Helper.LittleEndian.{
  uint, le_bytes, AreBytes-le_bytes, write_uint32-lem, read_uint32-lem, uint-splice_self,
  uint-splice_ne,
}
use relational_db_engine.Storage.DiskManager.{header_bytes, same_magic}

same_from :
    (p ms : Bytes) (i : ℕ)
    → ((k : ℕ) → k < length ms → get_or p (i + k) 0 ≡ get_or ms k 0)
    → same_magic p ms i ≡ true
same_from p [] i h = refl
same_from p (m ∷ ms) i h =
    let here : i + 0 ≡ i = omega arith in
    let first : get_or p i 0 ≡ m = subst (λ j. get_or p j 0 ≡ m) here (h 0 (omega arith)) in
    rw ((==_iff (get_or p i 0) m).1 first)
      (same_from p ms (i + 1) (λ k l. later k (h (suc k) (omega arith))))
  where
    later :
        (k : ℕ) → get_or p (i + suc k) 0 ≡ get_or ms k 0 → get_or p (i + 1 + k) 0 ≡ get_or ms k 0
    later k e = let at : i + 1 + k ≡ i + suc k = omega arith in rw at e

module _ (magic : Bytes) (magic_size : length magic ≡ 4) (magic_bytes : AreBytes magic)
    (pages first free : ℕ) where
  field : Bytes → ℕ → ℕ → Bytes
  field p o v = splice p o (le_bytes 4 v)

  length-field : (p : Bytes) (o v : ℕ) → length (field p o v) ≡ length p
  unfolding field
  length-field p o v = length-splice p o (le_bytes 4 v)

  header1 : Bytes
  header1 = splice (replicate page_size_bytes 0) 0 magic

  length-header1 : length header1 ≡ 4096
  unfolding header1
  length-header1 = length-splice _ 0 magic ∙ length-replicate 4096 0

  header2 : Bytes
  header2 = field header1 4 page_size_bytes

  header3 : Bytes
  header3 = field header2 8 pages

  header4 : Bytes
  header4 = field header3 12 first

  pub header : Bytes
  header = field header4 16 free

  length-header4 : (length header2 ≡ 4096) × (length header3 ≡ 4096) × (length header4 ≡ 4096)
  unfolding header2 header3 header4
  length-header4 =
      let two = length-field header1 4 page_size_bytes ∙ length-header1 in
      let three = length-field header2 8 pages ∙ two in
      (two, three, length-field header3 12 first ∙ three)

  pub length-header : length header ≡ 4096
  unfolding header
  length-header = length-field header4 16 free ∙ length-header4.2

  AreBytes-header : AreBytes header
  unfolding header header4 header3 header2 header1 field
  AreBytes-header =
      AreBytes-splice _ 16 _
        (AreBytes-splice _ 12 _
          (AreBytes-splice _ 8 _
            (AreBytes-splice _ 4 _ (AreBytes-splice _ 0 magic (AreBytes-replicate 4096) magic_bytes)
              (AreBytes-le_bytes 4 page_size_bytes))
            (AreBytes-le_bytes 4 pages))
          (AreBytes-le_bytes 4 first))
        (AreBytes-le_bytes 4 free)

  pub header_bytes-lem : header_bytes magic pages first free ≡ ok header
  unfolding header_bytes header header4 header3 header2 header1 field
  header_bytes-lem =
      rw
        (
          copy_in-splice (replicate page_size_bytes 0) 0 magic
              (omega (arith, magic_size, length-replicate {A = ℕ} 4096 0)),
          write_uint32-lem header1 4 page_size_bytes (omega (arith, length-header1)),
          write_uint32-lem header2 8 pages (omega (arith, length-header4)),
          write_uint32-lem header3 12 first (omega (arith, length-header4)),
        )
        (write_uint32-lem header4 16 free (omega (arith, length-header4)))

  field_before : (p : Bytes) (o v i : ℕ) → i < o → get_or (field p o v) i 0 ≡ get_or p i 0
  unfolding field
  field_before p o v i h = get_or-splice_before p o (le_bytes 4 v) i h

  magic_at : (k : ℕ) → k < 4 → get_or header k 0 ≡ get_or magic k 0
  unfolding header header4 header3 header2 header1
  magic_at k h =
      field_before header4 16 free k (omega arith)
      ∙ field_before header3 12 first k (omega arith)
      ∙ field_before header2 8 pages k (omega arith)
      ∙ field_before header1 4 page_size_bytes k (omega arith)
      ∙ subst (λ i. get_or header1 i 0 ≡ get_or magic k 0) from_start
          (get_or-splice_inside (replicate page_size_bytes 0) 0 magic k
            (omega (arith, magic_size, length-replicate {A = ℕ} 4096 0))
            (omega (arith, magic_size)))
    where
      from_start : 0 + k ≡ k
      from_start = omega arith

  pub same_magic-header : same_magic header magic 0 ≡ true
  same_magic-header = same_from header magic 0 (λ k l.
      subst (λ i. get_or header i 0 ≡ get_or magic k 0) (from_zero k)
        (magic_at k (omega (arith, magic_size))))
    where
      from_zero : (k : ℕ) → k ≡ 0 + k
      from_zero k = omega arith

  uint-field_after : (p : Bytes) (o v r : ℕ) → r + 4 ≤ o → uint 4 (field p o v) r ≡ uint 4 p r
  unfolding field
  uint-field_after p o v r h = uint-splice_ne 4 p o (le_bytes 4 v) r (inl h)

  uint-field_self :
      (p : Bytes) (o v : ℕ) → v < 2 ^ 32 → o + 4 ≤ length p → uint 4 (field p o v) o ≡ v
  unfolding field
  uint-field_self p o v h l = uint-splice_self p o v 4 h l

  pub read_fields :
      pages < 2 ^ 32
      → first < 2 ^ 32
      → free < 2 ^ 32
      → (read_uint32 header 8 ≡ ok pages)
        × (read_uint32 header 12 ≡ ok first)
        × (read_uint32 header 16 ≡ ok free)
  unfolding header header4 header3
  read_fields hp hf hn = (
    at 8 (omega arith)
        ∙ ap ok (
            uint-field_after header4 16 free 8 (omega arith)
            ∙ uint-field_after header3 12 first 8 (omega arith)
            ∙ uint-field_self header2 8 pages hp (omega (arith, length-header4))),
    at 12 (omega arith)
        ∙ ap ok (
            uint-field_after header4 16 free 12 (omega arith)
            ∙ uint-field_self header3 12 first hf (omega (arith, length-header4))),
    at 16 (omega arith)
        ∙ ap ok (uint-field_self header4 16 free hn (omega (arith, length-header4))),
  )
    where
      at : (o : ℕ) → o ≤ 16 → read_uint32 header o ≡ ok (uint 4 header o)
      at o h = read_uint32-lem header o AreBytes-header (omega (arith, length-header))
