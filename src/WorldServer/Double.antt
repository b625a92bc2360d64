-- ===== src/WorldServer/Double.antt =====
-- The `double` of the code under services/worldserver: numbers of the platform, with the operations
-- that the code uses.
use fy_s.Common.{ℕ, Bool, Option}

-- `to_unsigned` is the conversion to an unsigned integer; `none` is a value that it cannot hold, which
-- C++ leaves undefined.
pub record Double (D : Type 0) : Type 0 where
  pub of_uint : ℕ → D
  pub add : D → D → D
  pub sub : D → D → D
  pub mul : D → D → D
  pub cos : D → D
  pub sin : D → D
  pub lt : D → D → Bool
  pub le : D → D → Bool
  pub to_unsigned : D → Option ℕ
