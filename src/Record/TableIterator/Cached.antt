-- ===== src/Record/TableIterator/Cached.antt =====
-- hasNext and next together.
use relational_db_engine.Common.{ℕ, ◌≡◌, refl, subst, Bool, true, false, Option, none, some}
use relational_db_engine.Core.Status.{
  StatusCode, Result, ok, err, fault, invalid_argument, not_found, already_exists, io_error,
  corruption, internal,
}
use relational_db_engine.Core.Exec.{done, failed}
use relational_db_engine.Core.Exec.Cases.{attempt_cases}
use relational_db_engine.Buffer.Disk.{DiskApi}
use relational_db_engine.Record.TableIterator.{
  TableIteratorEntry, Iterator, load_next, cache_loaded, load_if_empty, has_next, take_cached, next,
}

module _ (api : DiskApi) where
  -- An answer of true leaves an entry in the cache.
  abbrev HasCached : Result Bool × Iterator api → Type 0
  HasCached (ok true, t) = (entry : TableIteratorEntry) × (t.cached_entry ≡ some entry)
  HasCached (ok false, t) = Unit {0}
  HasCached (err c, t) = Unit {0}
  HasCached (fault, t) = Unit {0}

  failed-HasCached : (c : StatusCode) (t : Iterator api) → HasCached (cache_loaded api (failed c) t)
  unfolding cache_loaded
  failed-HasCached invalid_argument t = tt
  failed-HasCached not_found t = tt
  failed-HasCached already_exists t = tt
  failed-HasCached io_error t = tt
  failed-HasCached corruption t = tt
  failed-HasCached internal t = tt

  done-HasCached :
      (entry : TableIteratorEntry) (t : Iterator api) → HasCached (cache_loaded api (done entry) t)
  unfolding cache_loaded
  done-HasCached entry t = (entry, refl)

  load_if_empty-HasCached :
      (fuel : ℕ) (c : Option TableIteratorEntry) (t : Iterator api)
      → t.cached_entry ≡ c
      → HasCached (load_if_empty api fuel c t)
  unfolding load_if_empty
  load_if_empty-HasCached fuel (some entry) t e = (entry, e)
  load_if_empty-HasCached fuel none t e =
      attempt_cases HasCached (load_next api fuel) t (cache_loaded api)
        (λ entry s r. done-HasCached entry s) (λ c s r. failed-HasCached c s) (λ s r. tt)

  has_next-HasCached : (fuel : ℕ) (t : Iterator api) → HasCached (has_next api fuel t)
  unfolding has_next
  has_next-HasCached fuel t = load_if_empty-HasCached fuel t.cached_entry t refl

  next-cached :
      (f : ℕ) (u : Iterator api) (entry : TableIteratorEntry)
      → u.cached_entry ≡ some entry
      → (has_next api f u ≡ (ok true, u))
        × (next api f u ≡ (ok entry, record u { cached_entry = none }))
  unfolding has_next load_if_empty next take_cached
  next-cached f u entry e = (rw e refl, rw e refl)

  -- If hasNext answers true, then a second hasNext answers true and changes nothing, and next returns
  -- the loaded entry and only empties the cache; neither changes the pool, whatever fuel they get.
  pub next-has_next :
      (fuel f : ℕ) (t u : Iterator api)
      → has_next api fuel t ≡ (ok true, u)
      → (entry : TableIteratorEntry) × (u.cached_entry ≡ some entry)
        × (has_next api f u ≡ (ok true, u))
        × (next api f u ≡ (ok entry, record u { cached_entry = none }))
  next-has_next fuel f t u r =
      let (entry, e) = subst HasCached r (has_next-HasCached fuel t) in
      let (again, taken) = next-cached f u entry e in (entry, e, again, taken)
