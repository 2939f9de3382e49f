-- ===== src/Core/Status.antt =====
-- include/dandb/core/Status.h and Result.h. The messages are not modelled: nothing but other
-- messages is computed from them.
use relational_db_engine.Common.{Bool, true, false}

-- The codes of a status that is not Ok; Ok is `ok` below.
pub data StatusCode : Type 0 where
  invalid_argument not_found already_exists io_error corruption internal : StatusCode

-- A call returns a value, or a status that is not Ok; `fault` marks undefined behaviour of C++,
-- an access outside of a buffer. A call that returns a bare Status is a `Result Unit`.
pub data Result {ℓ} (A : Type ℓ) : Type ℓ where
  ok : A → Result A
  err : StatusCode → Result A
  fault : Result A

infixl 5 ◌>>=◌ ◌>>◌
abbrev pub ◌>>=◌ {ℓ κ} : {A : Type ℓ} {B : Type κ} → Result A → (A → Result B) → Result B
ok a >>= f = f a
err c >>= f = err c
fault >>= f = fault

abbrev pub ◌>>◌ {ℓ} : {B : Type ℓ} → Result (Unit {0}) → Result B → Result B
m >> k = m >>= λ _. k

-- `if(!test) return Status::code(...)`
abbrev pub require : Bool → StatusCode → Result (Unit {0})
require true c = ok tt
require false c = err c

-- `if(test) return Status::code(...)`
abbrev pub refuse : Bool → StatusCode → Result (Unit {0})
refuse false c = ok tt
refuse true c = err c
