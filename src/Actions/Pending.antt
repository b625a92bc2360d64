-- ===== src/Actions/Pending.antt =====
-- The actions that wait: `addPendingAction` and `executeAction` of
-- services/arena/src/fightingPit/team/TeamMember.cpp.
use Prim.Native.String.{String}
use text.Mathlib.Text.{◌==◌ as str_eq}
use fy_s.Common.{
  Bool, true, false, Option, Option-cases, if◌then◌else◌, ◌+◌, ◌<◌, ◌≡◌, refl, some, List, [], ◌∷◌,
  arith, find, find_idx, get_elem?, uint_mod, Bool-cases, inl, inr,
}
use mathlib.Core.Option.{none}
use mathlib.Core.Option
use fy_s.CommonTypes.{Targeting, Status, ally, ennemy, ally_or_ennemy}
use fy_s.Contenders.{FightingContender, get_fighting_contender}
use fy_s.Team.Allies.{select_member_by_id}
use fy_s.SizedQueue.{SizedQueue, push, pop}
use fy_s.SizedQueue.Fifo
use fy_s.SizedQueue.Refine.{Represents, push_refines, pop_refines}
use fy_s.Team.Member.{
  TeamMember, PendingAction, Doable, TargetType, ally_target, contender_target, contenders_targets,
  allies_targets, side_target, add_pending_action, size_pending,
}
use fy_s.Scripting.{World, ScriptEngine, Attempt}
use fy_s.Actions.{ally_action, update_member, perform, execute_popped, execute_action}

get_elem?-find_idx {ℓ} :
    {A : Type ℓ} (p : A → Bool) (xs : List A) → get_elem? xs (find_idx p xs) ≡ find p xs
get_elem?-find_idx p [] = refl
get_elem?-find_idx p (x ∷ xs) = elim (Bool-cases (p x)) [
  | inl t ↦ rw t refl
  | inr f ↦ rw f (get_elem?-find_idx p xs)
]

pop_pushed :
    {A : Type 0} (q : SizedQueue A) (v : A)
    → q.tail + 1 < uint_mod
    → Represents size_pending q []
    → ((pop size_pending (push size_pending q v).1).0 ≡ some v)
      × Represents size_pending (pop size_pending (push size_pending q v).1).1 []
unfolding Fifo.push Fifo.pop
pop_pushed q v lt r =
    let pushed = push_refines size_pending (omega arith) (omega arith) q [] v lt r in
    pop_refines size_pending (omega arith) (omega arith) (push size_pending q v).1 (v ∷ []) pushed.1

-- Which targets an action can have, by what it asks for. Targets of several, or of a side, have none.
abbrev pub reaches : TargetType → Targeting → Bool
reaches (ally_target v) ally = true
reaches (ally_target v) ally_or_ennemy = true
reaches (ally_target v) t = false
reaches (contender_target v) ennemy = true
reaches (contender_target v) ally_or_ennemy = true
reaches (contender_target v) t = false
reaches (contenders_targets vs) t = false
reaches (allies_targets vs) t = false
reaches (side_target o) t = false

-- The status of a target: of the member of that number, or of the contender at that place.
abbrev pub status_at {ℓ} : {S : Type ℓ} → World S → TargetType → Option Status
status_at w (ally_target v) =
    Option.map (λ (m : TeamMember). m.status) (select_member_by_id w.party_teams v)
status_at w (contender_target v) =
    Option.map (λ (c : FightingContender). c.status) (get_elem? w.contenders.contenders v)
status_at w _ = none

-- The action is executed on the status of its target. One that cannot have the target does nothing; one
-- whose target is not there follows a null pointer.
abbrev pub performed {ℓ} :
    {S : Type ℓ} → ScriptEngine S → String → Targeting → TargetType → World S → Attempt S
performed engine action targeting target w =
    if reaches target targeting
    then elim (status_at w target) [ none ↦ none | some status ↦ engine.execute action status w ]
    else some w

perform-performed {ℓ} :
    {S : Type ℓ} (engine : ScriptEngine S) (m : TeamMember) (action : String)
    (targeting : Targeting) (target : TargetType) (w : World S)
    → perform engine m action targeting (some target) w ≡ performed engine action targeting target w
unfolding perform get_fighting_contender
perform-performed engine m action ally (ally_target v) w =
    elim (Option-cases (select_member_by_id w.party_teams v)) [
      | inl e ↦ rw e refl
      | inr (x, e) ↦ rw e refl
    ]
perform-performed engine m action ally_or_ennemy (ally_target v) w =
    elim (Option-cases (select_member_by_id w.party_teams v)) [
      | inl e ↦ rw e refl
      | inr (x, e) ↦ rw e refl
    ]
perform-performed engine m action ennemy (contender_target v) w =
    elim (Option-cases (get_elem? w.contenders.contenders v)) [
      | inl e ↦ rw e refl
      | inr (x, e) ↦ rw e refl
    ]
perform-performed engine m action ally_or_ennemy (contender_target v) w =
    elim (Option-cases (get_elem? w.contenders.contenders v)) [
      | inl e ↦ rw e refl
      | inr (x, e) ↦ rw e refl
    ]
perform-performed engine m action targeting (ally_target v) w = refl
perform-performed engine m action targeting (contender_target v) w = refl
perform-performed engine m action targeting (contenders_targets vs) w = refl
perform-performed engine m action targeting (allies_targets vs) w = refl
perform-performed engine m action targeting (side_target o) w = refl

outcome-performed {ℓ} :
    {S : Type ℓ} (engine : ScriptEngine S) (m actor : TeamMember) (target : TargetType)
    (w : World S) (o : Option Doable)
    → (elim o as (λ x. Attempt S) [
      | none ↦ some w
      | some doable ↦ elim (engine.require_target (ally_action m doable.0) w) [
        | none ↦ none
        | some targeting ↦ perform engine actor (ally_action m doable.0) targeting (some target) w
      ]
    ])
      ≡ (elim o as (λ x. Attempt S) [
        | none ↦ some w
        | some doable ↦ elim (engine.require_target (ally_action m doable.0) w) [
          | none ↦ none
          | some targeting ↦ performed engine (ally_action m doable.0) targeting target w
        ]
      ])
outcome-performed engine m actor target w none = refl
outcome-performed engine m actor target w (some doable) =
    elim (Option-cases (engine.require_target (ally_action m doable.0) w)) [
      | inl e ↦ rw e refl
      | inr (targeting, e) ↦
          rw e (perform-performed engine actor (ally_action m doable.0) targeting target w)
    ]

-- An action is added to a member that has nothing pending, and whose counters are not about to wrap;
-- then the member is on turn. The first action of that name among those that the member can do is
-- executed on the status of that target, if its script can be asked for what it targets: on the
-- member of that number if it targets allies, on the contender at that place if it targets ennemies,
-- and on nobody if it cannot have the target, or the target is a side or more than one. A target that
-- is not there is a null pointer that is followed. Without an action of that name nothing happens.
-- Nothing is pending any more.
pub pending_action_executed {ℓ} :
    {S : Type ℓ} (engine : ScriptEngine S) (m : TeamMember) (name : String) (target : TargetType)
    (w : World S)
    → Represents size_pending m.pending_actions []
    → m.pending_actions.tail + 1 < uint_mod
    → let added = add_pending_action m name target in
      (rest : SizedQueue PendingAction) × Represents size_pending rest []
      × (let w' : World S = update_member (λ m'. record m' { pending_actions = rest }) m.id w in
          execute_action engine added w
          ≡ elim (find (λ (action : Doable). str_eq name action.0) m.actions_doable) [
            | none ↦ some w'
            | some doable ↦ elim (engine.require_target (ally_action m doable.0) w') [
              | none ↦ none
              | some targeting ↦ performed engine (ally_action m doable.0) targeting target w'
            ]
          ])
unfolding execute_action execute_popped add_pending_action
pending_action_executed engine m name target w r lt =
    let known = λ (action : Doable). str_eq name action.0 in
    let pa : PendingAction = record {
      id_action = find_idx known m.actions_doable;
      target = some target;
    } in
    let (popped, empty) = pop_pushed m.pending_actions pa lt r in
    (
      (pop size_pending (push size_pending m.pending_actions pa).1).1,
      empty,
      rw (popped, execute_popped, get_elem?-find_idx known m.actions_doable)
          (outcome-performed engine m (add_pending_action m name target) target _
            (find known m.actions_doable)),
    )
