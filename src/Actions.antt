-- ===== src/Actions.antt =====
-- The actions of a turn: `executeAction` of services/arena/src/fightingPit/team/TeamMember.cpp,
-- `executeAllyAction` of services/arena/src/fightingPit/team/AllyPartyTeams.cpp and
-- `executeContenderAction` of services/arena/src/fightingPit/contender/PitContenders.cpp, over the
-- script engine as an interface.
pub mod Pending
pub mod Tests
use Prim.Native.String.{String, ◌++◌ as str_append}
use fy_s.Common.{
  ℕ, Bool, true, false, not, ◌||◌, Option, some, List, [], ◌∷◌, ◌++◌, length, get_elem?, leb,
  if◌then◌else◌, ◌==◌, find,
}
use mathlib.Core.Option.{none}
use fy_s.CommonTypes.{PriorityElem, Status, Targeting, ennemy, ally, ally_or_ennemy}
use fy_s.SizedQueue.{pop}
use fy_s.Contenders.{PitContenders, FightingContender, ContenderScripting, get_fighting_contender}
use fy_s.Team.Member.{
  TeamMember, PendingAction, TargetType, contender_target, contenders_targets, ally_target,
  allies_targets, side_target, size_pending,
}
use fy_s.Team.Party.{PartyTeam}
use fy_s.Scripting.{World, ScriptEngine, Attempt, setup_contender}
use fy_s.Team.Allies.{AllyPartyTeams, select_member_by_id}

-- `ally_actions["{}_{}"]["{}"]`.
abbrev pub ally_action : TeamMember → String → String
ally_action m action =
    str_append (str_append (str_append (str_append "ally_actions[\"" m.user_name) "_") m.name)
      (str_append (str_append "\"][\"" action) "\"]")

abbrev pub targets_ally : Targeting → Bool
targets_ally ally = true
targets_ally ally_or_ennemy = true
targets_ally _ = false

abbrev pub targets_contender : Targeting → Bool
targets_contender ennemy = true
targets_contender ally_or_ennemy = true
targets_contender _ = false

-- The members are shared, so a change shows wherever the member is found. `selectMemberById` finds the
-- first one of the number, and that one is changed.
unfoldable pub update_members : (TeamMember → TeamMember) → ℕ → List TeamMember → List TeamMember
update_members f id [] = []
update_members f id (m ∷ ms) =
    let rest = update_members f id ms in if id == m.id then f m ∷ ms else m ∷ rest

unfoldable pub update_teams : (TeamMember → TeamMember) → ℕ → List PartyTeam → List PartyTeam
unfolding update_members
update_teams f id [] = []
update_teams f id (t ∷ ts) =
    let rest = update_teams f id ts in
    elim (find (λ (m : TeamMember). id == m.id) t.members) [
      | none ↦ t ∷ rest
      | some m ↦ record t { members = update_members f id t.members } ∷ ts
    ]

abbrev pub update_member {ℓ} : {S : Type ℓ} → (TeamMember → TeamMember) → ℕ → World S → World S
update_member f id w = record w {
  party_teams = record w.party_teams { party_teams = update_teams f id w.party_teams.party_teams };
}

module _ {ℓ} {S : Type ℓ} (engine : ScriptEngine S) where
  -- The visitor of the target, and the action on the own status where there is none.
  unfoldable pub perform : TeamMember → String → Targeting → Option TargetType → World S → Attempt S
  perform m action targeting none w = engine.execute action m.status w
  perform m action targeting (some (ally_target v)) w =
      if targets_ally targeting
      then elim (select_member_by_id w.party_teams v) [
        | none ↦ none
        | some target ↦ engine.execute action target.status w
      ]
      else some w
  perform m action targeting (some (contender_target v)) w =
      if targets_contender targeting
      then elim (get_fighting_contender w.contenders v) [
        | none ↦ none
        | some target ↦ engine.execute action target.status w
      ]
      else some w
  perform m action targeting (some (contenders_targets vs)) w = some w
  perform m action targeting (some (allies_targets vs)) w = some w
  perform m action targeting (some (side_target o)) w = some w

  -- The part behind `pop`.
  unfoldable pub execute_popped : TeamMember → Option PendingAction → World S → Attempt S
  unfolding perform
  execute_popped m none w = some w
  execute_popped m (some pa) w = elim (get_elem? m.actions_doable pa.id_action) [
    | none ↦ some w
    | some doable ↦
        let action = ally_action m doable.0 in
        elim (engine.require_target action w) [
          | none ↦ none
          | some targeting ↦ perform m action targeting pa.target w
        ]
  ]

  unfoldable pub execute_action : TeamMember → World S → Attempt S
  unfolding execute_popped
  execute_action m w =
      let (pa, rest) = pop size_pending m.pending_actions in
      execute_popped m pa (update_member (λ m'. record m' { pending_actions = rest }) m.id w)

  unfoldable pub execute_ally_action : PriorityElem → World S → Attempt S
  unfolding execute_action
  execute_ally_action actor w =
      if actor.is_contender then some w else elim (select_member_by_id w.party_teams actor.id) [
        | none ↦ some w
        | some member ↦ execute_action member w
      ]

  unfoldable pub execute_contender_action : PriorityElem → World S → World S
  execute_contender_action contender w =
      if not contender.is_contender || leb (length w.contenders.contenders) contender.id
      then w
      else elim (get_elem? w.contenders.contenders contender.id) [
        | none ↦ w
        | some c ↦ engine.run_scripted_action c.contender_scripting w
      ]

  -- `PitContenders::addContender`.
  unfoldable pub add_contender : FightingContender → World S → Bool × World S
  unfolding setup_contender
  add_contender c w = setup_contender engine c.contender_scripting (record w {
    contenders = record {
      contenders = w.contenders.contenders ++ c ∷ [];
      change_side_flags = w.contenders.change_side_flags ++ false ∷ [];
    };
  })
