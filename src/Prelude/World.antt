-- ===== src/Prelude/World.antt =====
-- The world outside the program, with the clock that it reads.
use Prim.Native.Nat.{ℕ, suc}

-- The n-th call of time.Now() gives `clock n`; `outside` is
-- what responders and hooks change.
pub record World (E : Type 0) : Type 0 where
  pub clock : ℕ → ℕ
  pub reads : ℕ
  pub outside : E

-- time.Now()
unfoldable pub time_now : {E : Type 0} → World E → ℕ × World E
time_now w = (w.clock w.reads, record w { reads = suc w.reads })
