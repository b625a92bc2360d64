-- ===== src/Arena/Enter.antt =====
-- A player is announced to services/arena/src/ArenaServerService.cpp and enters a new pit.
use Prim.Native.String.{String}
use text.Mathlib.Text.{◌==◌ as str_eq}
use fy_s.Common.{
  ℕ, ◌≡◌, ◌≢◌, ◌≤◌, ◌<◌, ◌-◌, refl, sym, ap, ◌∙◌, subst, Bool, true, false, Option, some, List, [],
  ◌∷◌, arith, leb, Bool-cases, Option-cases, inl, inr, some_eq, get_elem?, length, uint_mod,
}
use mathlib.Core.Option.{none}
use fy_s.Priority.State.{done, undefined}
use fy_s.Priority.Order.{SortLaws}
use fy_s.BoundaryMap.{EncounterDesc}
use fy_s.BoundaryMap.Draw.{Chances, total}
use fy_s.Encounters.{at_zone, validate_encounter_context}
use fy_s.Team.Party.{PartyTeam}
use fy_s.Team.Allies.{AllyPartyTeams, no_teams, add_party_team, get_party_team_of_player}
use fy_s.SideBattle.{SideBattle}
use fy_s.Database.{retrieve_party_team}
use fy_s.FightingPit.{FightingPit, creation_error, is_player_participant}
use fy_s.Announcer.{level_index}
use fy_s.Announcer.Built.{IsCalm, IsInRange, AllGenerated, standings}
use fy_s.Announcer.Pit.{pit_built}
use fy_s.Worker.{
  add_fighting_pit, next_id, WorkerService, lookup, has, add_player_identifier,
  retrieve_player_identifier, get_authenticated_player_fighting_pit,
}
use fy_s.Worker.Ids.{add_fighting_pit-has}
use fy_s.Worker.Identifiers.{retrieve-add_player_identifier}
use fy_s.Arena.{
  FightingPitEncounter, ArenaServerService, ArenaServerValidateAuth, Platform, new_team,
  create_awaiting_player, translate_level_from_flatbuffer, find_awaited, erase_awaited,
  announcer_for, build_awaited, on_authentication, on_dispatcher_message,
}
use fy_s.Arena.Steps.{
  used_up, announcer-difficulty, announcer-loaded_script, authentication-created, awaited-gen,
  awaited_generates, create_new-done, dispatcher_awaits, entered-done, find-erase_awaited,
  found_awaited, four_members, gen_of, level_named, log_in-done, same_text, team_of_player,
}

some_members : (name : String) → 0 < length (retrieve_party_team name).members
unfolding retrieve_party_team
some_members name = omega arith

-- A new pit leaves the identifiers alone.
add_fighting_pit-identifiers {ℓ} :
    {S : Type ℓ} (fuel : ℕ) (ws : WorkerService S) (fp : Option (FightingPit S)) (id : ℕ)
    (ws' : WorkerService S)
    → add_fighting_pit fuel ws fp ≡ some (id, ws')
    → ws'.arena_id_on_identifier ≡ ws.arena_id_on_identifier
unfolding add_fighting_pit
add_fighting_pit-identifiers {S = S} fuel ws none id ws' e =
    sym (ap (λ (r : ℕ × WorkerService S). r.1.arena_id_on_identifier) (some_eq e))
add_fighting_pit-identifiers {S = S} fuel ws (some fp) id ws' e =
    elim (Bool-cases (leb (uint_mod - 1) (length ws.arena_instances))) [
      | inl t ↦
          sym (ap (λ (r : ℕ × WorkerService S). r.1.arena_id_on_identifier) (some_eq (rw t at e)))
      | inr f ↦ elim (Option-cases (next_id fuel ws.arena_instances ws.current_arena_id)) [
        | inl n ↦ absurd (cc (rw (f, n) at e))
        | inr (i, n) ↦ sym (
            ap (λ (r : ℕ × WorkerService S). r.1.arena_id_on_identifier) (some_eq (rw (f, n) at e)))
      ]
    ]

team_of :
    (name : String) (teams : AllyPartyTeams)
    → teams ≡ add_party_team no_teams (retrieve_party_team name)
    → (t : PartyTeam) × (get_party_team_of_player teams name ≡ some t)
unfolding retrieve_party_team
team_of name teams e =
    (_, ap (λ t. get_party_team_of_player t name) e ∙ team_of_player (retrieve_party_team name))

participant_found {ℓ} :
    {S : Type ℓ} (ws : WorkerService S) (id : ℕ) (fp : FightingPit S) (name token : String)
    → lookup ws.arena_instances id ≡ some fp
    → fp.authenticated_players ≡ record { name = name; token = token } ∷ []
    → get_authenticated_player_fighting_pit ws name token id ≡ some fp
unfolding get_authenticated_player_fighting_pit is_player_participant
participant_found ws id fp name token found alone =
    rw (found, get_authenticated_player_fighting_pit, alone, same_text name, same_text token) refl

-- The message that authenticates the creator of a pit.
abbrev pub creator_auth : FightingPitEncounter → ArenaServerValidateAuth
creator_auth m = record { user_name = m.user_name; token_auth = m.token_auth; fighting_pit_id = 0 }

pub creator_enters {ℓ} :
    {S : Type ℓ} {C R : Type 0} (pf : Platform S C R) (identity_ws identity : String)
    (m : FightingPitEncounter) (s : ArenaServerService S C R) (ranges : List (ℕ × ℕ))
    (range : ℕ × ℕ) (zone : List EncounterDesc) (cs : List ℕ) (free : ℕ)
    → IsCalm pf.engine pf.cache zone
    → IsInRange pf.generator
    → ((before : SideBattle → SideBattle → Bool) → pf.sort_sides before [] ≡ [])
    → SortLaws pf.sort
    → str_eq m.user_name "" ≡ false
    → str_eq m.token_auth "" ≡ false
    → m.fighting_pit_id ≡ 0
    → find_awaited s.awaiting_arena m.token_auth ≡ none
    → validate_encounter_context pf.encounter_context ≡ true
    → at_zone pf.encounter_context.range_encounter_per_zone m.world_server_id ≡ some ranges
    → get_elem? ranges (level_index (translate_level_from_flatbuffer m.level_encounter))
      ≡ some range
    → range.0 ≤ range.1
    → at_zone pf.encounter_context.contenders_per_zone m.world_server_id ≡ some zone
    → Chances (level_index (translate_level_from_flatbuffer m.level_encounter)) cs zone
    → total (level_index (translate_level_from_flatbuffer m.level_encounter)) cs < uint_mod
    → length s.worker_service.arena_instances < uint_mod - 1
    → length s.worker_service.arena_instances < pf.id_fuel
    → s.worker_service.current_arena_id < free
    → free < uint_mod
    → has s.worker_service.arena_instances free ≡ false
    → ((id : ℕ)
        → has s.worker_service.arena_instances id ≡ false
        → lookup s.worker_service.arena_id_on_identifier id ≡ none)
    → (s' : ArenaServerService S C R) × (id : ℕ) × (fp : FightingPit S) × (on_authentication pf
          identity
          (creator_auth m)
          (on_dispatcher_message pf identity_ws m s).0
        ≡ done (s', new_team identity ∷ []))
      × (id ≢ creation_error)
      × (has s.worker_service.arena_instances id ≡ false)
      × (lookup s'.worker_service.arena_instances id ≡ some fp)
      × (range.0 ≤ length (standings fp.world))
      × (length (standings fp.world) ≤ range.1)
      × AllGenerated zone 0 (standings fp.world)
      × (fp.authenticated_players ≡ record { name = m.user_name; token = m.token_auth } ∷ [])
      × (get_authenticated_player_fighting_pit s'.worker_service m.user_name m.token_auth id
          ≡ some fp)
      × (retrieve_player_identifier s'.worker_service id m.user_name ≡ identity)
      × (on_authentication pf identity (creator_auth m) s' ≡ undefined)
      × ((other : ℕ)
          → other ≢ id
          → lookup s'.worker_service.arena_instances other
            ≡ lookup s.worker_service.arena_instances other)
unfolding add_player_identifier announcer_for create_awaiting_player build_awaited
creator_enters pf identity_ws identity m s ranges range zone cs free calm in_range empty laws name
      token creates new valid at_ranges at_level le at_contenders chances no_wrap room enough above
      small unused unnamed =
    let awaited = create_awaiting_player m in
    let awaiting = (m.token_auth, awaited) ∷ s.awaiting_arena in
    let s1 = record s { awaiting_arena = awaiting } in
    let announcer = announcer_for awaited (gen_of m) in
    let level = translate_level_from_flatbuffer m.level_encounter in
    let same : level ≡ announcer.difficulty = sym (announcer-difficulty awaited (gen_of m)) in
    let (fp, c, r, builds, lo, hi, gs, alone, teams, sides, all) =
      pit_built pf.cache pf.engine pf.generator pf.unset_speed pf.sort_sides pf.sort pf.fuel
        pf.encounter_context m.world_server_id pf.fresh_scripts pf.unset_arena_id announcer
        s.cache_state s.random (retrieve_party_team m.user_name) ranges range zone cs calm in_range
        empty laws name token refl (announcer-loaded_script awaited (gen_of m))
        (some_members m.user_name) (four_members m.user_name) valid
        (subst (λ l. level_index l < 3) same (level_named m.level_encounter)) at_ranges
        (subst (λ l. get_elem? ranges (level_index l) ≡ some range) same at_level) le at_contenders
        (subst (λ l. Chances (level_index l) cs zone) same chances)
        (subst (λ l. total (level_index l) cs < uint_mod) same no_wrap) in
    let (id, ws, adds, nonzero, fresh, last, stored, others) =
      add_fighting_pit-has pf.id_fuel s.worker_service fp free room enough above small unused in
    let s2 = record s1 { cache_state = c; random = r; worker_service = ws } in
    let entered = record s2 { awaiting_arena = erase_awaited m.token_auth awaiting } in
    let stored_pit = record fp { arena_id = id } in
    let (t, team) = team_of m.user_name fp.world.party_teams teams in
    let kept = add_fighting_pit-identifiers pf.id_fuel s.worker_service (some fp) id ws adds in
    let first : lookup ws.arena_id_on_identifier id ≡ none =
      ap (λ table. lookup table id) kept ∙ unnamed id fresh in
    let logs = log_in-done pf identity m.user_name id entered stored_pit t stored team first in
    (
      record entered { worker_service = add_player_identifier ws id m.user_name identity },
      id,
      stored_pit,
      ap (on_authentication pf identity (creator_auth m))
            (dispatcher_awaits pf identity_ws m s creates new)
          ∙ authentication-created pf identity (creator_auth m) s1 awaited (id, s2)
              (found_awaited m s.awaiting_arena creates) (awaited_generates m creates)
              (create_new-done pf awaited (gen_of m) s1 fp c r id ws (awaited-gen m creates) builds
                adds)
          ∙ entered-done pf identity (creator_auth m) id s2 nonzero
          ∙ logs,
      nonzero,
      fresh,
      stored,
      lo,
      hi,
      gs,
      alone,
      participant_found _ id stored_pit m.user_name m.token_auth stored alone,
      (retrieve-add_player_identifier ws id m.user_name identity).0,
      used_up pf identity (creator_auth m) _ (find-erase_awaited m.token_auth awaiting),
      others,
    )
