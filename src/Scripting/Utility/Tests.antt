-- ===== src/Scripting/Utility/Tests.antt =====
-- A pit with one contender and two teams, asked as a script does.
use fy_s.Common.{◌≡◌, refl, true, false, [], ◌∷◌}
use fy_s.HexagonSide.Sides.{a_n, b_s, a_ne}
use fy_s.Contenders.{PitContenders}
use fy_s.Contenders.Tests.{monster}
use fy_s.Team.Tests.{fighter, two_teams}
use fy_s.Scripting.Utility.{answers, character_of, is_character_on_side, is_side_adjacent_side}
use fy_s.Scripting.Utility.Asked.{IsTold, characters-IsTold}

abbrev pit : PitContenders
pit = record { contenders = monster 0 9 b_s ∷ []; change_side_flags = [] }

characters-IsTold_example : IsTold pit two_teams
characters-IsTold_example = characters-IsTold pit two_teams refl (fighter 1 a_n, refl)

-- The third member, the last one, stands on A_N.
last_is_hidden : is_character_on_side pit two_teams false 3 a_n ≡ answers false
unfolding is_character_on_side character_of
last_is_hidden = refl

neighbours : is_side_adjacent_side a_n a_ne ≡ true
unfolding is_side_adjacent_side
neighbours = refl
