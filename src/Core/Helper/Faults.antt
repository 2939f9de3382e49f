-- ===== src/Core/Helper/Faults.antt =====
-- Reads of numbers and the statuses that they return.
use relational_db_engine.Common.{ℕ, zero, suc, ◌+◌, ◌*◌, ◌^◌, Option, none, some, get_elem?, bit_or}
use relational_db_engine.Core.Status.{Result, ok, err, fault, ◌>>=◌}
use relational_db_engine.Core.Memory.{Bytes, or_fault, peek}
use relational_db_engine.Core.Helper.{read_loop, read_uint32}

abbrev pub IsNoError {ℓ} : {A : Type ℓ} → Result A → Type 0
IsNoError (ok a) = Unit {0}
IsNoError (err c) = ⊥
IsNoError fault = Unit {0}

IsNoError-bind :
    {A B : Type 0} (r : Result A) (f : A → Result B)
    → IsNoError r
    → ((a : A) → IsNoError (f a))
    → IsNoError (r >>= f)
IsNoError-bind (ok a) f h k = k a
IsNoError-bind (err c) f h k = h
IsNoError-bind fault f h k = tt

or_fault-IsNoError : (b : Option ℕ) → IsNoError (or_fault b)
or_fault-IsNoError none = tt
or_fault-IsNoError (some x) = tt

peek-IsNoError : (p : Bytes) (i : ℕ) → IsNoError (peek p i)
unfolding peek
peek-IsNoError p i = or_fault-IsNoError (get_elem? p i)

read_loop-IsNoError :
    (rounds i res : ℕ) (p : Bytes) (o : ℕ) → IsNoError (read_loop rounds i res p o)
unfolding read_loop
read_loop-IsNoError zero i res p o = tt
read_loop-IsNoError (suc rounds) i res p o =
    IsNoError-bind (peek p (o + i)) _ (peek-IsNoError p (o + i))
      (λ b. read_loop-IsNoError rounds (suc i) (bit_or res (b * 2 ^ (8 * i))) p o)

pub read_uint32-IsNoError : (p : Bytes) (o : ℕ) → IsNoError (read_uint32 p o)
unfolding read_uint32
read_uint32-IsNoError p o = read_loop-IsNoError 4 0 0 p o
