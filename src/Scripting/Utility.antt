-- ===== src/Scripting/Utility.antt =====
-- What the scripts can ask of a pit: `registerUtility` and `registerCommon` of
-- services/arena/src/ChaiRegister.cpp, the functions and the names of the enumerators.
pub mod Asked
pub mod Names
mod Tests
use Prim.Native.String.{String}
use fy_s.Common.{
  ℕ, Bool, true, false, not, ◌&&◌, Option, some, List, [], ◌∷◌, length, ltb, if◌then◌else◌,
}
use mathlib.Core.Option.{none}
use fy_s.CommonTypes.{
  Targeting, self, ennemy, ally, ennemies, allies, ally_and_ennemy, ally_or_ennemy, side,
}
use fy_s.HexagonSide.Sides.{
  Hexagon, a, b, c, Orientation, a_n, a_ne, a_se, a_s, a_sw, a_nw, b_n, b_ne, b_se, b_s, b_sw, b_nw,
  c_n, c_ne, c_se, c_s, c_sw, c_nw, none as no_side, ◌==◌,
}
use fy_s.HexagonSide.Moves.{HexagonSide, default_side, move, can_move}
use fy_s.Contenders.{PitContenders, get_fighting_contender}
use fy_s.Team.Allies.{AllyPartyTeams, select_member_by_id}

-- `getNumberAlly` and `getNumberContender`.
abbrev pub get_number_ally : AllyPartyTeams → ℕ
get_number_ally apt = apt.current_team_member_id

abbrev pub get_number_contender : PitContenders → ℕ
get_number_contender pc = length pc.contenders

-- An answer to a script, or a null pointer that was followed on the way to it.
pub data Answer : Type 0 where
  answers : Bool → Answer
  null_followed : Answer

-- The character that both questions below are about, by its position in the pit.
pub data Character : Type 0 where
  stands : HexagonSide → Character
  nobody : Character
  null_pointer : Character

unfoldable pub character_of : PitContenders → AllyPartyTeams → Bool → ℕ → Character
unfolding get_fighting_contender select_member_by_id
character_of pc apt is_contender id =
    let from_pit : Character = elim (get_fighting_contender pc id) [
      | none ↦ null_pointer
      | some contender ↦ stands contender.side
    ] in
    let from_teams : Character = elim (select_member_by_id apt id) [
      | none ↦ null_pointer
      | some member ↦ stands member.side
    ] in
    if is_contender && ltb id (get_number_contender pc)
    then from_pit
    else if not is_contender && ltb id (get_number_ally apt)
    then from_teams
    else nobody

unfoldable pub is_character_on_side :
    PitContenders → AllyPartyTeams → Bool → ℕ → Orientation → Answer
is_character_on_side pc apt is_contender id side' = elim (character_of pc apt is_contender id) [
  | stands h ↦ answers (side' == h.side)
  | nobody ↦ answers false
  | null_pointer ↦ null_followed
]

unfoldable pub is_character_on_adjacent_side :
    PitContenders → AllyPartyTeams → Bool → ℕ → Orientation → Answer
unfolding can_move
is_character_on_adjacent_side pc apt is_contender id side' =
    elim (character_of pc apt is_contender id) [
      | stands h ↦ answers (can_move h side')
      | nobody ↦ answers false
      | null_pointer ↦ null_followed
    ]

-- `HexagonSide{lhs}` is put on its side by a forced move.
unfoldable pub is_side_adjacent_side : Orientation → Orientation → Bool
unfolding move can_move
is_side_adjacent_side lhs rhs = can_move (move default_side lhs true).1 rhs

-- The names of the sides.
unfoldable pub orientation_names : List (Orientation × String)
orientation_names =
    (a_n, "A_N")
    ∷ (a_ne, "A_NE")
    ∷ (a_nw, "A_NW")
    ∷ (a_s, "A_S")
    ∷ (a_se, "A_SE")
    ∷ (a_sw, "A_SW")
    ∷ (b_n, "B_N")
    ∷ (b_ne, "B_NE")
    ∷ (b_nw, "B_NW")
    ∷ (b_s, "B_S")
    ∷ (b_se, "B_SE")
    ∷ (b_sw, "B_SW")
    ∷ (c_n, "C_N")
    ∷ (c_ne, "C_NE")
    ∷ (c_nw, "C_NW")
    ∷ (c_s, "C_S")
    ∷ (c_se, "C_SE")
    ∷ (c_sw, "C_SW")
    ∷ (no_side, "NONE")
    ∷ []
