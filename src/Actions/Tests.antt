-- ===== src/Actions/Tests.antt =====
-- A knight of services/arena/src/fightingPit/team/TeamMember.cpp attacks.
use Prim.Native.String.{String}
use text.Mathlib.Text.{◌==◌ as str_eq}
use fy_s.Common.{◌≡◌, true, some, List, [], ◌∷◌, find, arith, replicate, length-replicate}
use mathlib.Core.Option.{none}
use fy_s.CommonTypes.{ennemy}
use fy_s.HexagonSide.Sides.{a_n}
use fy_s.SizedQueue.{SizedQueue, fresh}
use fy_s.SizedQueue.Refine.{Represents, fresh-Represents}
use fy_s.Contenders.Select.{pit_of}
use fy_s.Contenders.Tests.{monster}
use fy_s.Team.Member.{
  TeamMember, PendingAction, Doable, contender_target, add_pending_action, size_pending,
}
use fy_s.Team.Tests.{fighter, two_teams}
use fy_s.Scripting.{World, ScriptEngine}
use fy_s.Actions.{ally_action, update_member, execute_action}
use fy_s.Actions.Pending.{performed, pending_action_executed}

-- The log of what was run stands for the scripts' state.
abbrev ran : String → World (List String) → World (List String)
ran what w = record w { scripts = what ∷ w.scripts }

abbrev pub logging : ScriptEngine (List String)
logging = record {
  require_target = λ action w. some ennemy;
  execute = λ action status w. some (ran action w);
  run_scripted_action = λ c w. ran c.contender_name w;
  eval = λ text w. (true, ran text w);
}

abbrev no_action : PendingAction
no_action = record { id_action = 0; target = none }

abbrev nothing_pending : SizedQueue PendingAction
nothing_pending = fresh (replicate 100 no_action)

abbrev knight : TeamMember
knight = record (fighter 1 a_n) {
  actions_doable = ("parade", 1) ∷ ("slash", 2) ∷ [];
  pending_actions = nothing_pending;
}

abbrev arena : World (List String)
arena = record {
  contenders = pit_of (monster 0 9 a_n ∷ []) [];
  party_teams = two_teams;
  scripts = [];
}

pending_action_executed_example :
    (rest : SizedQueue PendingAction) × Represents size_pending rest []
    × (let w' : World (List String) =
          update_member (λ m'. record m' { pending_actions = rest }) 1 arena in
        execute_action logging (add_pending_action knight "slash" (contender_target 0)) arena
        ≡ elim (find (λ (action : Doable). str_eq "slash" action.0) knight.actions_doable) [
          | none ↦ some w'
          | some doable ↦ elim (logging.require_target (ally_action knight doable.0) w') [
            | none ↦ none
            | some targeting ↦
                performed logging (ally_action knight doable.0) targeting (contender_target 0) w'
          ]
        ])
pending_action_executed_example =
    pending_action_executed logging knight "slash" (contender_target 0) arena
      (fresh-Represents size_pending (omega arith) (omega arith) nothing_pending.queue
        (length-replicate 100 no_action))
      (omega arith)
