-- ===== src/CommonTypes.antt =====
-- The data that the parts of a fighting pit share:
-- services/arena/include/fightingPit/data/CommonTypes.hh.
use fy_s.Common.{ℕ, Bool, List, ◌==◌}
use fy_s.Common.Int.{ℤ, ltb_ℤ}

pub record PriorityElem : Type 0 where
  pub id : ℕ
  pub speed : ℤ
  pub is_contender : Bool

-- `operator<`.
abbrev pub slower : PriorityElem → PriorityElem → Bool
slower e other = ltb_ℤ e.speed other.speed

pub record Life : Type 0 where
  pub current : ℕ
  pub total : ℕ

abbrev pub is_dead : Life → Bool
is_dead l = l.current == 0

pub record MagicPoint : Type 0 where
  pub current : ℕ
  pub total : ℕ

abbrev pub AlterationId : Type 0
AlterationId = ℕ

pub record Status : Type 0 where
  pub life : Life
  pub magic_point : MagicPoint
  pub initial_speed : ℕ
  pub alterations : List AlterationId

pub data MoveDirection : Type 0 where
  back right left : MoveDirection

pub data Targeting : Type 0 where
  self ennemy ally ennemies allies ally_and_ennemy ally_or_ennemy side : Targeting
