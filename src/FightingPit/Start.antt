-- ===== src/FightingPit/Start.antt =====
-- The side battles of a new pit, as `initializeSideBattles` of
-- services/arena/src/fightingPit/FightingPit.cpp fills them.
use fy_s.Common.{
  ℕ, suc, ◌-◌, ◌^◌, ◌≡◌, refl, ap₂, true, false, List, [], ◌∷◌, ◌++◌, map, filter, ltb,
  if◌then◌else◌,
}
use fy_s.Common.Int.{ℤ, pos, negsuc}
use mathlib.Core.List.{append-nil}
use fy_s.CommonTypes.{PriorityElem}
use fy_s.HexagonSide.Sides.{Orientation, ◌==◌}
use fy_s.Priority.State.{done}
use fy_s.Priority.Order.{SortLaws}
use fy_s.Contenders.{PitContenders, FightingContender, get_contender_on_side}
use fy_s.Team.Allies.{AllyPartyTeams, get_members_by_side}
use fy_s.Team.Member.{TeamMember}
use fy_s.Team.Select.{members_on_side-filter}
use fy_s.Team.Ids.{IsNumbered, StartsFull, all_members}
use fy_s.SideBattle.{SideBattle, new_side_battle}
use fy_s.SideBattle.Filling.{IsFilled, empty-IsFilled, fill-IsFilled}
use fy_s.FightingPit.{
  FightingPit, member_elem, contender_elems, side_order, participants_on_side, initialize_each,
  initialize_side_battles,
}
use fy_s.FightingPit.Distinct.{participants-Distinct}

-- A status has an unsigned speed, which a participant's speed takes as a signed one.
abbrev signed : ℕ → ℤ
signed n = if ltb n (2 ^ 31) then pos n else negsuc (2 ^ 32 - 1 - n)

-- The contenders by their place among those of a side.
abbrev ranked : ℕ → List FightingContender → List PriorityElem
ranked i [] = []
ranked i (c ∷ cs) =
    record { id = i; speed = signed c.status.initial_speed; is_contender = true }
    ∷ ranked (suc i) cs

-- Those of these members and contenders who stand on a side.
abbrev pub standing_on : List FightingContender → List TeamMember → Orientation → List PriorityElem
standing_on cs ms side =
    map
      (λ (m : TeamMember). record {
        id = m.id;
        speed = signed m.status.initial_speed;
        is_contender = false;
      })
      (filter (λ (m : TeamMember). m.side.side == side) ms)
    ++ ranked 0 (filter (λ (c : FightingContender). c.side.side == side) cs)

contender_elems-ranked : (i : ℕ) (cs : List FightingContender) → contender_elems i cs ≡ ranked i cs
unfolding contender_elems
contender_elems-ranked i [] = refl
contender_elems-ranked i (c ∷ cs) = ap₂ ◌∷◌ refl (contender_elems-ranked (suc i) cs)

participants_on_side-standing_on :
    (pc : PitContenders) (apt : AllyPartyTeams) (side : Orientation)
    → StartsFull apt
    → participants_on_side pc apt side
      ≡ standing_on pc.contenders (all_members apt.party_teams) side
unfolding participants_on_side member_elem get_members_by_side get_contender_on_side
participants_on_side-standing_on pc apt side (m, full) =
    rw (full, get_members_by_side, members_on_side-filter apt.party_teams side)
      (ap₂ ◌++◌ refl (contender_elems-ranked 0 (get_contender_on_side pc side)))

-- Each battle has not started, and its participants are those who stand on its side.
abbrev pub AllFilled : List FightingContender → List TeamMember → List SideBattle → Type 0
AllFilled cs ms [] = Unit
AllFilled cs ms (b ∷ bs) =
    (b.started ≡ false)
    × IsFilled b.priority_order_list (standing_on cs ms b.side)
    × AllFilled cs ms bs

module _ (sort : List PriorityElem → List PriorityElem) (fuel : ℕ) (laws : SortLaws sort) where
  initialize_each-AllFilled :
      (pc : PitContenders) (apt : AllyPartyTeams) (sides : List Orientation)
      → IsNumbered apt
      → StartsFull apt
      → (bs : List SideBattle) × (initialize_each sort fuel pc apt (map new_side_battle sides)
          ≡ done bs)
        × (map (λ (b : SideBattle). b.side) bs ≡ sides)
        × AllFilled pc.contenders (all_members apt.party_teams) bs
  unfolding initialize_each
  initialize_each-AllFilled pc apt [] numbered full = ([], refl, refl, tt)
  initialize_each-AllFilled pc apt (side ∷ sides) numbered full =
      let (s, fills, filled) =
        fill-IsFilled sort fuel laws (participants_on_side pc apt side) (new_side_battle side) []
          empty-IsFilled (participants-Distinct pc apt side numbered) in
      let (bs, rest, same, all) = initialize_each-AllFilled pc apt sides numbered full in
      (
        record (new_side_battle side) { priority_order_list = s } ∷ bs,
        rw (fills, rest) refl,
        ap₂ ◌∷◌ refl same,
        (
          refl,
          rw
              (
                append-nil (participants_on_side pc apt side),
                participants_on_side-standing_on pc apt side full,
              )
              at filled,
          all,
        ),
      )

-- With a `sort` that sorts, members numbered as `addPartyTeam` does, and a first team that has a
-- member, a pit that has no side battle yet gets one for each of the 18 sides, and nothing else of it
-- changes. No battle has started, and in each wait exactly the members and the contenders that stand
-- on its side, the fastest at the back.
pub sides_filled {ℓ} :
    {S : Type ℓ} (sort : List PriorityElem → List PriorityElem) (fuel : ℕ) (p : FightingPit S)
    → SortLaws sort
    → IsNumbered p.world.party_teams
    → StartsFull p.world.party_teams
    → p.side_battles ≡ []
    → (bs : List SideBattle) × (initialize_side_battles sort fuel p
        ≡ done (record p { side_battles = bs }))
      × (map (λ (b : SideBattle). b.side) bs ≡ side_order)
      × AllFilled p.world.contenders.contenders (all_members p.world.party_teams.party_teams) bs
unfolding initialize_side_battles
sides_filled sort fuel p laws numbered full fresh =
    let (bs, each, sides, all) =
      initialize_each-AllFilled sort fuel laws p.world.contenders p.world.party_teams side_order
        numbered full in
    (bs, rw (fresh, each) refl, sides, all)
