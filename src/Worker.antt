-- ===== src/Worker.antt =====
-- The fighting pits of an arena server: services/arena/include/network/WorkerService.hh and
-- services/arena/src/network/WorkerService.cpp. The sockets and the waiting between two rounds of the
-- loop are left out.
pub mod Ids
pub mod Identifiers
pub mod Values
mod Tests
use Prim.Native.String.{String}
use text.Mathlib.Text.{◌==◌ as str_eq}
use fy_s.Common.{
  ℕ, zero, suc, ◌-◌, Bool, true, false, not, ◌&&◌, Option, some, List, [], ◌∷◌, ◌++◌, if◌then◌else◌,
  leb, length, find, add_uint, uint_mod, ◌==◌,
}
use mathlib.Core.Option.{none}
use fy_s.Team.Party.{PartyTeam}
use fy_s.Scripting.{ScriptEngine, ScriptCache}
use fy_s.CommonTypes.{PriorityElem}
use fy_s.Priority.State.{Outcome, done, ◌>>=◌}
use fy_s.SideBattle.{SideBattle}
use fy_s.FightingPit.{
  FightingPit, creation_error, is_player_participant, add_party_team_and_register_actions,
  continue_battle,
}

-- An `unordered_map` from `unsigned`, without its order: each key comes once.
abbrev pub Table {ℓ} : Type ℓ → Type ℓ
Table A = List (ℕ × A)

module _ {ℓ} {A : Type ℓ} where
  -- `find`.
  unfoldable pub lookup : Table A → ℕ → Option A
  lookup [] key = none
  lookup ((k, a) ∷ rest) key = let other = lookup rest key in if k == key then some a else other

  abbrev pub has : Table A → ℕ → Bool
  has table key = elim (lookup table key) [ none ↦ false | some a ↦ true ]

  -- The assignment to `operator[]`.
  unfoldable pub assign : Table A → ℕ → A → Table A
  assign [] key a = (key, a) ∷ []
  assign ((k, b) ∷ rest) key a =
      let others = assign rest key a in if k == key then (key, a) ∷ rest else (k, b) ∷ others

pub record PlayerIdentifier : Type 0 where
  pub user_name : String
  pub identifier : String

pub record WorkerService {ℓ} (S : Type ℓ) : Type ℓ where
  pub current_arena_id : ℕ
  pub arena_id_on_identifier : Table (List PlayerIdentifier)
  pub arena_instances : Table (FightingPit S)

-- The `while` of `addFightingPit`, whose body is its condition: the next id that is 0 or free. The
-- fuel bounds the rounds.
unfoldable pub next_id {ℓ} : {A : Type ℓ} → ℕ → Table A → ℕ → Option ℕ
next_id zero table current = none
next_id (suc fuel) table current =
    let next = add_uint current 1 in
    let further = next_id fuel table next in
    if not (next == 0) && has table next then further else some next

-- The numeric limit of `unsigned` is `uint_mod - 1`. `none` is the end of the fuel.
unfoldable pub add_fighting_pit {ℓ} :
    {S : Type ℓ} → ℕ → WorkerService S → Option (FightingPit S) → Option (ℕ × WorkerService S)
unfolding next_id
add_fighting_pit fuel ws none = some (creation_error, ws)
add_fighting_pit fuel ws (some fp) =
    if leb (uint_mod - 1) (length ws.arena_instances)
    then some (creation_error, ws)
    else elim (next_id fuel ws.arena_instances ws.current_arena_id) [
      | none ↦ none
      | some id ↦ some (
        id,
        record ws {
          current_arena_id = id;
          arena_instances = assign ws.arena_instances id (record fp { arena_id = id });
        },
      )
    ]

-- `sort` is that of `addPartyTeamAndRegisterActions`.
unfoldable pub player_join_fighting_pit {ℓ} :
    {S : Type ℓ} {C : Type 0}
    → ScriptEngine S
    → ScriptCache C
    → ((SideBattle → SideBattle → Bool) → List SideBattle → List SideBattle)
    → ℕ
    → PartyTeam
    → C
    → WorkerService S
    → C × WorkerService S
player_join_fighting_pit engine cache sort id pt c ws = elim (lookup ws.arena_instances id) [
  | none ↦ (c, ws)
  | some fp ↦
      let (c', fp') = add_party_team_and_register_actions engine cache sort pt c fp in
      (c', record ws { arena_instances = assign ws.arena_instances id fp' })
]

unfoldable pub get_authenticated_player_fighting_pit {ℓ} :
    {S : Type ℓ} → WorkerService S → String → String → ℕ → Option (FightingPit S)
get_authenticated_player_fighting_pit ws name token id = elim (lookup ws.arena_instances id) [
  | none ↦ none
  | some fp ↦ if is_player_participant fp name token then some fp else none
]

abbrev pub does_fighting_pit_exist {ℓ} : {S : Type ℓ} → WorkerService S → ℕ → Bool
does_fighting_pit_exist ws id = has ws.arena_instances id

-- The element that `find_if` finds is changed, or a new one comes to the end.
unfoldable pub set_identifier : List PlayerIdentifier → String → String → List PlayerIdentifier
set_identifier [] user_name identity = record { user_name = user_name; identifier = identity } ∷ []
set_identifier (p ∷ ps) user_name identity =
    let rest = set_identifier ps user_name identity in
    if str_eq p.user_name user_name then record p { identifier = identity } ∷ ps else p ∷ rest

unfoldable pub add_player_identifier {ℓ} :
    {S : Type ℓ} → WorkerService S → ℕ → String → String → WorkerService S
unfolding set_identifier
add_player_identifier ws id user_name identity =
    let identifiers : List PlayerIdentifier = elim (lookup ws.arena_id_on_identifier id) [
      | none ↦ []
      | some is ↦ is
    ] in
    record ws {
      arena_id_on_identifier =
          assign ws.arena_id_on_identifier id (set_identifier identifiers user_name identity);
    }

-- A player without an identifier is addressed by name.
unfoldable pub retrieve_player_identifier {ℓ} : {S : Type ℓ} → WorkerService S → ℕ → String → String
retrieve_player_identifier ws id user_name = elim (lookup ws.arena_id_on_identifier id) [
  | none ↦ user_name
  | some is ↦ elim (find (λ (p : PlayerIdentifier). str_eq p.user_name user_name) is) [
    | none ↦ user_name
    | some p ↦ p.identifier
  ]
]

-- A round of `startFightingPitsLoop` at the time `now`, over the pits in the order of the table, which
-- do not meet. The parameters are those of `continueBattle`.
module _ {ℓ} {S : Type ℓ} (engine : ScriptEngine S) (sort : List PriorityElem → List PriorityElem)
    (fuel calculation now : ℕ) where
  unfoldable pub continue_each : Table (FightingPit S) → Outcome (Table (FightingPit S))
  unfolding continue_battle
  continue_each [] = done []
  continue_each ((id, fp) ∷ rest) = continue_battle sort engine fuel calculation now fp >>= λ fp'.
      continue_each rest >>= λ rest'. done ((id, fp') ∷ rest')

  unfoldable pub fighting_pits_round : WorkerService S → Outcome (WorkerService S)
  unfolding continue_each
  fighting_pits_round ws =
      continue_each ws.arena_instances >>= λ pits. done (record ws { arena_instances = pits })
