-- ===== src/Record/TableIterator/Progress.antt =====
-- How far a scan of a chain is, and what loadNext makes of it.
use relational_db_engine.Common.{
  ℕ, zero, suc, ◌+◌, ◌%◌, ◌≤◌, ◌<◌, ◌≡◌, ◌≢◌, refl, ap, ◌∙◌, List, [], ◌∷◌, ◌++◌, true, false,
  Option, none, some, length, ◌==◌, ==_ne, arith,
}
use relational_db_engine.Core.Constants.{u16_mod, invalid_page_id, invalid_slot_id}
use relational_db_engine.Core.Status.{ok, err, not_found}
use relational_db_engine.Buffer.Disk.{DiskApi}
use relational_db_engine.Buffer.BufferPool.{Pool}
use relational_db_engine.Buffer.BufferPool.Resident.{Same}
use relational_db_engine.Record.Schema.{Schema}
use relational_db_engine.Record.Value.{Row}
use relational_db_engine.Record.TableIterator.{
  Iterator, TableIteratorEntry, new_iterator, exhausted, round, go_on, load_next,
}
use relational_db_engine.Record.TableIterator.Rounds.{leaves, skips, yields}
use relational_db_engine.Record.TableIterator.Chain.{
  ChainPage, RowsAt, row_entries, chain_entries, rounds, IsChainPage, IsChain, IsChainPage-Same,
  IsChain-Same,
}

module _ (api : DiskApi) where
  -- The iterator stands in front of slot k of a page, whose rows from there on are given.
  pub record At (t : Iterator api) (c : ChainPage) (k : ℕ) (rows : List (Option Row))
      (chain : List ChainPage) : Type 0 where
    pub page : t.next_page_id ≡ c.page.id
    pub slot : t.next_slot_id ≡ k
    pub empty : t.cached_entry ≡ none
    pub left : k + length rows ≡ length c.rows
    pub holds : RowsAt t.schema c.page.bytes k rows
    pub here : IsChainPage api t.pool t.schema c
    pub later : IsChain api t.pool t.schema c.next chain

  -- What is left of the scan, and the rounds that are left.
  pub data Left (t : Iterator api) : List TableIteratorEntry → ℕ → Type 0 where
    ended : t.next_page_id ≡ invalid_page_id → t.cached_entry ≡ none → Left t [] 1
    inside :
        (c : ChainPage) (k : ℕ) (rows : List (Option Row)) (chain : List ChainPage)
        → At t c k rows chain
        → Left t
            (row_entries c.page.id k rows ++ chain_entries chain)
            (length rows + 1 + rounds chain)

  pub start :
      (pool : Pool api) (schema : Schema) (id : ℕ) (chain : List ChainPage)
      → IsChain api pool schema id chain
      → Left (new_iterator pool schema id) (chain_entries chain) (rounds chain)
  unfolding new_iterator
  start pool schema id [] i = ended i refl
  start pool schema id (c ∷ chain) (e, i, rest) = inside c 0 c.rows chain (record {
    page = e;
    slot = refl;
    empty = refl;
    left = omega arith;
    holds = i.rows;
    here = i;
    later = rest;
  })

  -- One turn of the loop, by what its round does.
  module _ (t : Iterator api) (fuel : ℕ) where
    pub load_end :
        t.next_page_id ≡ invalid_page_id → load_next api (suc fuel) t ≡ (err not_found, t)
    unfolding load_next
    load_end e = let yes : (t.next_page_id == invalid_page_id) ≡ true = ground arith in rw yes refl

    load_on :
        (t' : Iterator api)
        → exhausted api t ≡ false
        → round api t ≡ (ok none, t')
        → load_next api (suc fuel) t ≡ load_next api fuel t'
    unfolding load_next go_on
    load_on t' x e = rw (x, e) refl

    load_found :
        (t' : Iterator api) (entry : TableIteratorEntry)
        → exhausted api t ≡ false
        → round api t ≡ (ok (some entry), t')
        → load_next api (suc fuel) t ≡ (ok entry, t')
    unfolding load_next go_on
    load_found t' entry x e = rw (x, e) refl

  open_page :
      (t : Iterator api) (c : ChainPage) (k : ℕ) (rows : List (Option Row)) (chain : List ChainPage)
      → At t c k rows chain
      → exhausted api t ≡ false
  open_page t c k rows chain a =
      let low : k ≢ invalid_slot_id = omega (arith, a.left, a.here.few) in
      rw (a.page, a.slot, ==_ne c.page.id invalid_page_id a.here.valid, ==_ne k invalid_slot_id low)
        refl

  -- What loadNext answers: the next entry, after which no more rounds are left than before, or
  -- NotFound.
  unfoldable pub Gives : ℕ → Iterator api → List TableIteratorEntry → ℕ → Type 0
  Gives fuel t [] n = (t' : Iterator api) × (load_next api fuel t ≡ (err not_found, t'))
  Gives fuel t (entry ∷ entries) n =
      (t' : Iterator api) × (m : ℕ) × (load_next api fuel t ≡ (ok entry, t'))
      × Left t' entries m
      × (m ≤ n)

  gives_on :
      (fuel : ℕ) (t t' : Iterator api) (entries : List TableIteratorEntry) (m n : ℕ)
      → load_next api (suc fuel) t ≡ load_next api fuel t'
      → m ≤ n
      → Gives fuel t' entries m
      → Gives (suc fuel) t entries n
  unfolding Gives
  gives_on fuel t t' [] m n e h (u, r) = (u, e ∙ r)
  gives_on fuel t t' (entry ∷ entries) m n e h (u, k, r, left, l) = (u, k, e ∙ r, left, omega arith)

  next_slot : (k : ℕ) → k + 1 < u16_mod → (k + 1) % u16_mod ≡ suc k
  next_slot k h = omega arith

  -- Past a slot the iterator stands in front of the next one.
  past_slot :
      (t : Iterator api) (pool : Pool api) (c : ChainPage) (k : ℕ) (row : Option Row)
      (rows : List (Option Row)) (chain : List ChainPage)
      → At t c k (row ∷ rows) chain
      → RowsAt t.schema c.page.bytes (suc k) rows
      → Same api t.pool pool
      → At
          (record t { pool = pool; next_slot_id = (t.next_slot_id + 1) % u16_mod })
          c
          (suc k)
          rows
          chain
  past_slot t pool c k row rows chain a holds s = record {
    page = a.page;
    slot = rw a.slot (next_slot k (omega (arith, a.left, a.here.few)));
    empty = a.empty;
    left = omega (arith, a.left);
    holds = holds;
    here = IsChainPage-Same api t.pool pool t.schema c s a.here;
    later = IsChain-Same api t.pool pool t.schema c.next chain s a.later;
  }

  pub load_inside :
      (fuel : ℕ) (t : Iterator api) (c : ChainPage) (k : ℕ) (rows : List (Option Row))
      (chain : List ChainPage)
      → At t c k rows chain
      → length rows + 1 + rounds chain ≤ fuel
      → Gives fuel t
          (row_entries c.page.id k rows ++ chain_entries chain)
          (length rows + 1 + rounds chain)
  unfolding Gives
  load_inside zero t c k rows chain a h = absurd (omega arith)
  load_inside (suc zero) t c k [] [] a h = absurd (omega arith)
  load_inside (suc (suc fuel)) t c k [] [] a h =
      let (pool, e, s) =
        leaves api t c.page c.slot (length c.rows) a.here.resident a.page a.here.count c.next
          a.here.link (omega (arith, a.left, a.slot)) in
      let on = load_on t (suc fuel) _ (open_page t c k [] [] a) e in
      (_, on ∙ load_end _ fuel a.later)
  load_inside (suc fuel) t c k [] (d ∷ chain) a h =
      let (pool, e, s) =
        leaves api t c.page c.slot (length c.rows) a.here.resident a.page a.here.count c.next
          a.here.link (omega (arith, a.left, a.slot)) in
      let (named, page, rest) = a.later in
      let at : At _ d 0 d.rows chain = record {
        page = named;
        slot = rw (named, ==_ne d.page.id invalid_page_id page.valid) refl;
        empty = a.empty;
        left = omega arith;
        holds = page.rows;
        here = IsChainPage-Same api t.pool pool t.schema d s page;
        later = IsChain-Same api t.pool pool t.schema d.next chain s rest;
      } in
      gives_on fuel t _ (chain_entries (d ∷ chain)) (rounds (d ∷ chain)) _
        (load_on t fuel _ (open_page t c k [] (d ∷ chain) a) e) (omega arith)
        (load_inside fuel _ d 0 d.rows chain at (omega arith))
  load_inside (suc fuel) t c k (none ∷ rows) chain a h =
      let (pool, e, s) =
        skips api t c.page c.slot (length c.rows) a.here.resident a.page a.here.count
          (omega (arith, a.left, a.slot)) (rw a.slot a.holds.0) in
      gives_on fuel t _ (row_entries c.page.id (suc k) rows ++ chain_entries chain)
        (length rows + 1 + rounds chain) _
        (load_on t fuel _ (open_page t c k (none ∷ rows) chain a) e) (omega arith)
        (load_inside fuel _ c (suc k) rows chain
          (past_slot t pool c k none rows chain a a.holds.1 s) (omega arith))
  load_inside (suc fuel) t c k (some row ∷ rows) chain a h =
      let ((raw, read, decoded), holds) = a.holds in
      let (pool, e, s) =
        yields api t c.page c.slot (length c.rows) a.here.resident a.page a.here.count raw row
          (omega (arith, a.left, a.slot)) (rw a.slot read) decoded in
      let t' : Iterator api = record t {
        pool = pool;
        next_slot_id = (t.next_slot_id + 1) % u16_mod;
      } in
      let found = load_found t fuel t' _ (open_page t c k (some row ∷ rows) chain a) e in
      (
        t',
        length rows + 1 + rounds chain,
        found
            ∙ ap
                (λ id. (
                  ok (record {
                    rid = record { page_id = id; slot_id = t.next_slot_id };
                    row = row;
                  }),
                  t',
                ))
                a.page
            ∙ ap
                (λ j. (
                  ok (record { rid = record { page_id = c.page.id; slot_id = j }; row = row }),
                  t',
                ))
                a.slot,
        inside c (suc k) rows chain (past_slot t pool c k (some row) rows chain a holds s),
        omega arith,
      )
