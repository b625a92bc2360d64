-- ===== src/Scripting.antt =====
-- The scripts of a pit: services/arena/include/fightingPit/contender/ContenderScripting.hh,
-- services/arena/src/fightingPit/contender/ContenderScripting.cpp and
-- services/arena/src/ChaiRegister.cpp. ChaiScript and the cache of scripts are interfaces; of the
-- table of C++ names that `registerChai` hands to ChaiScript, `Utility` has the functions of its own.
pub mod Texts
pub mod Utility
use Prim.Native.String.{String}
use text.Mathlib.Text.{◌==◌ as str_eq}
use fy_s.Common.{ℕ, Bool, true, false, Option, some, List, [], ◌∷◌, if◌then◌else◌}
use mathlib.Core.Option.{none}
use fy_s.CommonTypes.{Status, Targeting}
use fy_s.Contenders.{PitContenders, ContenderScripting}
use fy_s.Team.Member.{TeamMember, Doable}
use fy_s.Team.Party.{PartyTeam}
use fy_s.Team.Allies.{AllyPartyTeams}
use fy_s.Scripting.Texts.{concat, to_string, get_name_from_key}

-- What the scripts of a pit can read and change.
pub record World {ℓ} (S : Type ℓ) : Type ℓ where
  pub contenders : PitContenders
  pub party_teams : AllyPartyTeams
  pub scripts : S

-- ChaiScript, with the scripts it has loaded: `eval` of a text (`false` is an error that it throws,
-- beside what was done by then), `requireTarget()` of an action with the function that executes it
-- (`none` is such an error of one of them), the `execute` of an action on a status (`none` is an
-- exception other than the script errors, after which the world is what the script left), and the
-- scripted action of a contender.
pub record ScriptEngine {ℓ} (S : Type ℓ) : Type ℓ where
  pub eval : String → World S → Bool × World S
  pub require_target : String → World S → Option Targeting
  pub execute : String → Status → World S → Option (World S)
  pub run_scripted_action : ContenderScripting → World S → World S

-- The cache of scripts, by its lookup, which may fill it.
pub record ScriptCache (C : Type 0) : Type 0 where
  pub find_in_cache : String → C → String × C

-- `none` is an exception that leaves the method, or a null pointer that it follows.
abbrev pub Attempt {ℓ} : Type ℓ → Type ℓ
Attempt S = Option (World S)

abbrev pub get_chai_contender_id : ContenderScripting → String
get_chai_contender_id c = concat ("contender_" ∷ c.contender_name ∷ to_string c.contender_id ∷ [])

abbrev pub get_action_name_from_key : String → String
get_action_name_from_key = get_name_from_key

-- The scripts that every pit loads.
abbrev pub base_actions : List String
base_actions =
    "arena:actions:action.chai" ∷ "arena:actions:damage:damage.chai"
    ∷ "arena:actions:heal:heal.chai" ∷ "arena:actions:zone_damage:zone_damage.chai"
    ∷ "arena:actions:zone_heal:zone_heal.chai" ∷ "arena:contenders:contender_functions.chai" ∷ []

-- The script that instantiates a contender.
abbrev pub create_contender : ContenderScripting → String
create_contender c = concat (
    "global "
    ∷ get_chai_contender_id c
    ∷ "="
    ∷ c.contender_name
    ∷ "("
    ∷ to_string c.contender_id
    ∷ ","
    ∷ to_string c.level
    ∷ ");"
    ∷ [])

-- The script that sets it up.
abbrev pub call_setup : ContenderScripting → String
call_setup c = concat (get_chai_contender_id c ∷ ".setupContender();" ∷ [])

-- The script that adds an action of a member.
abbrev pub insert_action : String → String → ℕ → String
insert_action key_player name level = concat (
    "ally_actions.insert( [\""
    ∷ key_player
    ∷ "\":[ \""
    ∷ name
    ∷ "\":"
    ∷ name
    ∷ "("
    ∷ to_string level
    ∷ ") ] ] );"
    ∷ [])

module _ {ℓ} {S : Type ℓ} (engine : ScriptEngine S) where
  unfoldable pub setup_contender : ContenderScripting → World S → Bool × World S
  setup_contender c w = engine.eval (call_setup c) w

  -- A script whose error is caught; an empty one is not evaluated.
  abbrev pub eval_caught : String → World S → World S
  eval_caught script w = if str_eq script "" then w else (engine.eval script w).1

  -- An error in the script is caught, one in the instantiation is not.
  unfoldable pub load_contender_script : ContenderScripting → String → World S → Attempt S
  load_contender_script c script w =
      let (ok, w') = engine.eval (create_contender c) (eval_caught script w) in
      if ok then some w' else none

  module _ {C : Type 0} (cache : ScriptCache C) where
    -- `registerBaseActions`; errors are caught for each script.
    unfoldable pub register_each : List String → C → World S → C × World S
    register_each [] c w = (c, w)
    register_each (key ∷ keys) c w =
        let (script, c') = cache.find_in_cache key c in register_each keys c' (eval_caught script w)

    unfoldable pub register_base_actions : C → World S → C × World S
    unfolding register_each
    register_base_actions c w = register_each base_actions c w

    -- `loadAndRegisterAction`, over the actions of one member and then over the members; `false` is an
    -- error in an instantiation, which ends both loops.
    unfoldable pub load_actions : String → List Doable → C → World S → Bool × C × World S
    load_actions key_player [] c w = (true, c, w)
    load_actions key_player (doable ∷ rest) c w =
        let (script, c') = cache.find_in_cache doable.0 c in
        let w' = (engine.eval script w).1 in
        let name = get_action_name_from_key doable.0 in
        let create_var = insert_action key_player name doable.1 in
        let (ok, w'') = engine.eval create_var w' in
        let later = load_actions key_player rest c' w'' in if ok then later else (false, c', w'')

    unfoldable pub load_members : String → List TeamMember → C → World S → Bool × C × World S
    unfolding load_actions
    load_members user_name [] c w = (true, c, w)
    load_members user_name (tm ∷ tms) c w =
        let (ok, c', w') =
          load_actions (concat (user_name ∷ "_" ∷ tm.name ∷ [])) tm.actions_doable c w in
        let later = load_members user_name tms c' w' in if ok then later else (false, c', w')

    unfoldable pub load_and_register_action : PartyTeam → C → World S → Bool × C × World S
    unfolding load_members
    load_and_register_action pt c w = load_members pt.user_name pt.members c w
