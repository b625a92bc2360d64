-- ===== src/Scripting/Utility/Asked.antt =====
-- The answers of services/arena/src/ChaiRegister.cpp on the characters of a pit.
use fy_s.Common.{
  ℕ, ◌≤◌, ◌<◌, ◌≡◌, refl, Bool, true, false, some, get_elem?, arith, inl, lt→ltb, ge→ltb,
  lt_of_get_elem?,
}
use mathlib.Core.Option.{none}
use mathlib.Core.List.{Memᴰ}
use fy_s.HexagonSide.Sides.{Orientation, ◌==◌}
use fy_s.HexagonSide.Moves.{can_move}
use fy_s.Contenders.{PitContenders, FightingContender, get_fighting_contender}
use fy_s.Team.Member.{TeamMember}
use fy_s.Team.Allies.{AllyPartyTeams, select_member_by_id}
use fy_s.Team.Ids.{IsNumbered, StartsFull, select_member_by_id-exact, all_members}
use fy_s.Scripting.Utility.{
  answers, null_followed, Character, stands, nobody, null_pointer, character_of, get_number_ally,
  get_number_contender, is_character_on_side, is_character_on_adjacent_side,
}

module _ (pc : PitContenders) (apt : AllyPartyTeams) where
  -- The two questions at a character, on every side.
  pub record Asks (is_contender : Bool) (id : ℕ) (who : Character) : Type 0 where
    on_side :
        (o : Orientation)
        → is_character_on_side pc apt is_contender id o ≡ elim who [
          | stands h ↦ answers (o == h.side)
          | nobody ↦ answers false
          | null_pointer ↦ null_followed
        ]
    adjacent :
        (o : Orientation)
        → is_character_on_adjacent_side pc apt is_contender id o ≡ elim who [
          | stands h ↦ answers (can_move h o)
          | nobody ↦ answers false
          | null_pointer ↦ null_followed
        ]

  character_of-Asks :
      (is_contender : Bool) (id : ℕ) (who : Character)
      → character_of pc apt is_contender id ≡ who
      → Asks is_contender id who
  unfolding is_character_on_side is_character_on_adjacent_side
  character_of-Asks is_contender id who e = record {
    on_side = λ o. rw (is_character_on_side, e) refl;
    adjacent = λ o. rw (is_character_on_adjacent_side, e) refl;
  }

  contender_there :
      (id : ℕ) (c : FightingContender)
      → get_elem? pc.contenders id ≡ some c
      → character_of pc apt true id ≡ stands c.side
  unfolding character_of get_fighting_contender
  contender_there id c at = rw (lt→ltb _ _ (lt_of_get_elem? pc.contenders id c at), at) refl

  contender_beyond : (id : ℕ) → get_number_contender pc ≤ id → character_of pc apt true id ≡ nobody
  unfolding character_of
  contender_beyond id le = rw (ge→ltb _ _ le) refl

  ally_there :
      (id : ℕ) (m : TeamMember)
      → id < get_number_ally apt
      → select_member_by_id apt id ≡ some m
      → character_of pc apt false id ≡ stands m.side
  unfolding character_of
  ally_there id m lt found = rw (lt→ltb _ _ lt, found) refl

  ally_missing :
      (id : ℕ)
      → id < get_number_ally apt
      → select_member_by_id apt id ≡ none
      → character_of pc apt false id ≡ null_pointer
  unfolding character_of
  ally_missing id lt missing = rw (lt→ltb _ _ lt, missing) refl

  ally_beyond : (id : ℕ) → get_number_ally apt ≤ id → character_of pc apt false id ≡ nobody
  unfolding character_of
  ally_beyond id le = rw (ge→ltb _ _ le) refl

-- What the scripts are told of the characters, all branches.
pub record IsTold (pc : PitContenders) (apt : AllyPartyTeams) : Type 0 where
  contender :
      (id : ℕ) (c : FightingContender)
      → get_elem? pc.contenders id ≡ some c
      → Asks pc apt true id (stands c.side)
  no_contender : (id : ℕ) → get_number_contender pc ≤ id → Asks pc apt true id nobody
  member :
      (id : ℕ)
      → 0 < id
      → id < get_number_ally apt
      → (m : TeamMember) × (m.id ≡ id)
        × Memᴰ m (all_members apt.party_teams)
        × Asks pc apt false id (stands m.side)
  last_member : Asks pc apt false (get_number_ally apt) nobody
  member_0 : 0 < get_number_ally apt → Asks pc apt false 0 null_pointer

-- Among members numbered as `addPartyTeam` does, where the first team has a member: a script that asks
-- for the side of a contender, or whether a side is adjacent to it, is told so of the contender at that
-- position, and no beyond the last one; of an ally it is told so by the number, but of the last ally it
-- is always told no, and the question for number 0 follows a null pointer.
pub characters-IsTold :
    (pc : PitContenders) (apt : AllyPartyTeams) → IsNumbered apt → StartsFull apt → IsTold pc apt
characters-IsTold pc apt numbered full = record {
  contender =
      λ id c at. character_of-Asks pc apt true id (stands c.side) (contender_there pc apt id c at);
  no_contender = λ id le. character_of-Asks pc apt true id nobody (contender_beyond pc apt id le);
  member = λ id lo lt.
      let exact = select_member_by_id-exact apt id numbered full in
      let (m, found, named, inside) = exact.0 lo (omega (arith, lt)) in
      (
        m,
        named,
        inside,
        character_of-Asks pc apt false id (stands m.side) (ally_there pc apt id m lt found),
      );
  last_member =
      character_of-Asks pc apt false (get_number_ally apt) nobody
        (ally_beyond pc apt (get_number_ally apt) (omega arith));
  member_0 = λ lt.
      character_of-Asks pc apt false 0 null_pointer
        (ally_missing pc apt 0 lt ((select_member_by_id-exact apt 0 numbered full).1 (inl refl)));
}
