-- ===== src/WorldServer/Whole.antt =====
-- Whole numbers in the place of the `double`s of services/worldserver, to run the code on.
use fy_s.Common.{ℕ, ◌+◌, ◌-◌, ◌*◌, some, ltb, leb}
use fy_s.WorldServer.Double.{Double}

abbrev pub whole : Double ℕ
whole = record {
  of_uint = λ n. n;
  add = λ m n. m + n;
  sub = λ m n. m - n;
  mul = λ m n. m * n;
  cos = λ n. 1;
  sin = λ n. 1;
  lt = ltb;
  le = leb;
  to_unsigned = λ n. some n;
}
