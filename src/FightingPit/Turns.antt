-- ===== src/FightingPit/Turns.antt =====
-- Who acts in the turn of a contender: services/arena/src/fightingPit/FightingPit.cpp enters the
-- contenders, services/arena/src/fightingPit/contender/PitContenders.cpp lets them act.
use fy_s.Common.{suc, length, gt→leb, arith, ◌≡◌, refl, true, List, [], ◌∷◌, ◌++◌, map}
use mathlib.Core.List.{Memᴰ}
use fy_s.CommonTypes.{PriorityElem}
use fy_s.HexagonSide.Sides.{Orientation}
use fy_s.Contenders.{FightingContender, get_contender_on_side}
use fy_s.Team.Allies.{get_members_by_side}
use fy_s.Scripting.{World, ScriptEngine}
use fy_s.Actions.{execute_contender_action}
use fy_s.FightingPit.{member_elem, contender_elems, participants_on_side, to_int}

some_member : (xs ys : List PriorityElem) (y : PriorityElem) → Memᴰ y (xs ++ y ∷ ys)
some_member [] ys y = Memᴰ.head refl
some_member (x ∷ xs) ys y = Memᴰ.tail (some_member xs ys y)

-- Whenever a side has a contender, one of its participants takes the turns at the speed of the first
-- contender of the side, but what acts in these turns is the first contender of the whole pit, wherever
-- it stands.
pub first_contender_acts {ℓ} :
    {S : Type ℓ} (engine : ScriptEngine S) (w : World S) (side : Orientation)
    (c d : FightingContender) (cs ds : List FightingContender)
    → w.contenders.contenders ≡ c ∷ cs
    → get_contender_on_side w.contenders side ≡ d ∷ ds
    → (e : PriorityElem) × Memᴰ e (participants_on_side w.contenders w.party_teams side)
      × (e.speed ≡ to_int d.status.initial_speed)
      × (execute_contender_action engine e w ≡ engine.run_scripted_action c.contender_scripting w)
unfolding participants_on_side contender_elems execute_contender_action
first_contender_acts engine w side c d cs ds all near = (
  record { id = 0; speed = to_int d.status.initial_speed; is_contender = true },
  rw near (some_member (map member_elem (get_members_by_side w.party_teams side)) _ _),
  refl,
  simp (all, gt→leb (suc (length cs)) 0 (omega arith)),
)
