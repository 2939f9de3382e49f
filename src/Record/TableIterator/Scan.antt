-- ===== src/Record/TableIterator/Scan.antt =====
-- A scan of a chain of pages that are in the pool: which entries the calls of next give, and how many
-- rounds the loop of loadNext takes.
use relational_db_engine.Common.{
  ℕ, zero, suc, ◌≤◌, ◌≡◌, refl, ap, ◌∙◌, List, [], ◌∷◌, Bool, true, false, none, some, arith,
}
use relational_db_engine.Core.Status.{ok, err, not_found}
use relational_db_engine.Buffer.Disk.{DiskApi}
use relational_db_engine.Buffer.BufferPool.{Pool}
use relational_db_engine.Record.Schema.{Schema}
use relational_db_engine.Record.TableIterator.{
  Iterator, TableIteratorEntry, new_iterator, load_next, cache_loaded, load_if_empty, has_next,
  take_cached, next,
}
use relational_db_engine.Record.TableIterator.Chain.{ChainPage, chain_entries, rounds, IsChain}
use relational_db_engine.Record.TableIterator.Progress.{
  Left, ended, inside, start, load_end, Gives, load_inside,
}

module _ (api : DiskApi) where
  load :
      (fuel : ℕ) (t : Iterator api) (entries : List TableIteratorEntry) (n : ℕ)
      → Left api t entries n
      → n ≤ fuel
      → Gives api fuel t entries n
  unfolding Gives
  load zero t _ _ (ended e empty) h = absurd (omega arith)
  load (suc fuel) t _ _ (ended e empty) h = (t, load_end api t fuel e)
  load fuel t _ _ (inside c k rows chain a) h = load_inside api fuel t c k rows chain a h

  nothing_cached :
      (t : Iterator api) (entries : List TableIteratorEntry) (n : ℕ)
      → Left api t entries n
      → t.cached_entry ≡ none
  nothing_cached t _ _ (ended e empty) = empty
  nothing_cached t _ _ (inside c k rows chain a) = a.empty

  -- The cache is emptied.
  emptied :
      (t : Iterator api) (entries : List TableIteratorEntry) (n : ℕ)
      → Left api t entries n
      → Left api (record t { cached_entry = none }) entries n
  emptied t _ _ (ended e empty) = ended e refl
  emptied t _ _ (inside c k rows chain a) = inside c k rows chain (record {
    page = a.page;
    slot = a.slot;
    empty = refl;
    left = a.left;
    holds = a.holds;
    here = a.here;
    later = a.later;
  })

  module _ (fuel : ℕ) (t t' : Iterator api) (empty : t.cached_entry ≡ none) where
    answered :
        (u : Iterator api) (more : Bool)
        → load_if_empty api fuel none t ≡ (ok more, u)
        → has_next api fuel t ≡ (ok more, u)
    unfolding has_next
    answered u more e = ap (λ o. load_if_empty api fuel o t) empty ∙ e

    next_found :
        (entry : TableIteratorEntry)
        → load_next api fuel t ≡ (ok entry, t')
        → next api fuel t ≡ (ok entry, record t' { cached_entry = none })
    unfolding next load_if_empty cache_loaded take_cached
    next_found entry e =
        rw (answered (record t' { cached_entry = some entry }) true (rw e refl)) refl

    next_over : load_next api fuel t ≡ (err not_found, t') → next api fuel t ≡ (err not_found, t')
    unfolding next load_if_empty cache_loaded
    next_over e = rw (answered t' false (rw e refl)) refl

  -- Calls of next give the entries one after the other, and then NotFound.
  abbrev pub Scans : ℕ → Iterator api → List TableIteratorEntry → Type 0
  Scans fuel t [] = (t' : Iterator api) × (next api fuel t ≡ (err not_found, t'))
  Scans fuel t (entry ∷ entries) =
      (t' : Iterator api) × (next api fuel t ≡ (ok entry, t')) × Scans fuel t' entries

  Left-Scans :
      (fuel : ℕ) (t : Iterator api) (entries : List TableIteratorEntry) (n : ℕ)
      → Left api t entries n
      → n ≤ fuel
      → Scans fuel t entries
  unfolding Gives
  Left-Scans fuel t [] n left h =
      let (t', e) = load fuel t [] n left h in
      (t', next_over fuel t t' (nothing_cached t [] n left) e)
  Left-Scans fuel t (entry ∷ entries) n left h =
      let (t', m, e, rest, l) = load fuel t (entry ∷ entries) n left h in
      (
        record t' { cached_entry = none },
        next_found fuel t t' (nothing_cached t (entry ∷ entries) n left) entry e,
        Left-Scans fuel (record t' { cached_entry = none }) entries m (emptied t' entries m rest)
            (omega arith),
      )

  -- A scan of a chain of pages that are in the pool, each of which names the next one: the calls of
  -- next give the rows that are not deleted, with their row ids, in the order of the chain and of the
  -- slots, and then NotFound. The loop of loadNext ends: as many rounds are enough as the chain has
  -- slots and pages, and one.
  pub new_iterator-Scans :
      (pool : Pool api) (schema : Schema) (first_page_id : ℕ) (chain : List ChainPage) (fuel : ℕ)
      → IsChain api pool schema first_page_id chain
      → rounds chain ≤ fuel
      → Scans fuel (new_iterator pool schema first_page_id) (chain_entries chain)
  new_iterator-Scans pool schema id chain fuel i h =
      Left-Scans fuel (new_iterator pool schema id) (chain_entries chain) (rounds chain)
        (start api pool schema id chain i) h
