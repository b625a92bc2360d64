-- ===== src/Announcer.antt =====
-- The builder of the pits: services/arena/include/fightingPit/FightingPitAnnouncer.hh and
-- services/arena/src/fightingPit/FightingPitAnnouncer.cpp. Its logs are left out.
mod Builder
pub mod Built
pub mod Loads
pub mod Pit
pub mod Tests
unfoldable pub use Builder.*
use Prim.Native.String.{String}
use text.Mathlib.Text.{◌==◌ as str_eq}
use fy_s.Common.{
  ℕ, zero, suc, Bool, true, false, not, ◌&&◌, ◌||◌, Option, some, List, [], ◌∷◌, ◌++◌, get_elem?,
  set, find, any, length, if◌then◌else◌, ◌==◌ as nat_eq,
}
use fy_s.Common.Int.{pos}
use mathlib.Core.Option.{none}
use fy_s.CommonTypes.{PriorityElem}
use fy_s.HexagonSide.Sides.{Orientation, b_s, ◌==◌}
use fy_s.HexagonSide.Moves.{default_side}
use fy_s.Priority.State.{Outcome, done, undefined, ◌>>=◌}
use fy_s.BoundaryMap.{BoundaryMap, EncounterDesc, get, make_contender_rng_boundary_map}
use fy_s.Encounters.{EncounterContext, at_zone, zone_registered}
use fy_s.Contenders.{PitContenders, FightingContender, ContenderScripting}
use fy_s.Layout.{set_contender_initiate_position}
use fy_s.Team.Member.{add_doable_action}
use fy_s.Team.Party.{PartyTeam}
use fy_s.SideBattle.{SideBattle}
use fy_s.Database.{status_of}
use fy_s.Scripting.{World, ScriptEngine, ScriptCache, load_contender_script, register_base_actions}
use fy_s.Scripting.Texts.{get_name_from_key}
use fy_s.Actions.{add_contender}
use fy_s.FightingPit.{
  FightingPit, Level, easy, medium, hard, no_level, new_fighting_pit, add_authenticated_user,
  add_party_team_and_register_actions, initialize_side_battles,
}

-- The random numbers of `RandomGenerator::generateInRange`, on a lower and an upper bound.
pub record Generator (R : Type 0) : Type 0 where
  pub generate_in_range : ℕ → ℕ → R → ℕ × R

-- What the building of a pit changes.
pub record Building {ℓ} (S : Type ℓ) (C R : Type 0) : Type ℓ where
  pub loaded : List String
  pub scripts_cache : C
  pub random : R
  pub world : World S

-- The initial speed of a status is not initialised.
abbrev pub new_contender : ℕ → ContenderScripting → FightingContender
new_contender unset_speed scripting = record {
  contender_scripting = scripting;
  side = default_side;
  status = status_of 0 0 unset_speed;
}

-- The contender is shared with the pit, where it stands at the index.
unfoldable pub place_contender : ℕ → List FightingContender → List FightingContender
unfolding set_contender_initiate_position
place_contender index [] = []
place_contender zero (c ∷ cs) = set_contender_initiate_position c b_s ∷ cs
place_contender (suc index) (c ∷ cs) = c ∷ place_contender index cs

abbrev pub place_in {ℓ} : {S : Type ℓ} → ℕ → World S → World S
unfolding place_contender
place_in index w = record w {
  contenders = record w.contenders { contenders = place_contender index w.contenders.contenders };
}

module _ {C : Type 0} (cache : ScriptCache C) where
  -- The content, the names of the scripts that are loaded by then, and the cache.
  unfoldable pub get_script_content_string :
      String → EncounterDesc → List String → C → String × List String × C
  get_script_content_string name desc loaded c =
      if any (λ s. str_eq s name) loaded
      then ("", loaded, c)
      else (let (content, c') = cache.find_in_cache desc.key c in
          (content, loaded ++ name ∷ [], c'))

  module _ {ℓ} {S : Type ℓ} {R : Type 0} (engine : ScriptEngine S) (generator : Generator R)
      (unset_speed : ℕ) where
    -- The body of the loop of `generateContenders`. `undefined` is the end of the boundary map, or an
    -- error of the script that instantiates the contender, which nothing catches.
    unfoldable pub generate_contender :
        BoundaryMap EncounterDesc → ℕ → Building S C R → Outcome (Bool × Building S C R)
    unfolding get_script_content_string load_contender_script add_contender place_contender
    generate_contender bm i b =
        let (rng_monster, r1) = generator.generate_in_range 0 100 b.random in
        elim (get bm (pos rng_monster)) [
          | none ↦ undefined
          | some (upper, desc) ↦
              let (level, r2) = generator.generate_in_range 1 10 r1 in
              let name = get_name_from_key desc.key in
              let scripting : ContenderScripting = record {
                contender_name = name;
                level = level;
                contender_id = i;
              } in
              let (script, loaded, c) =
                get_script_content_string name desc b.loaded b.scripts_cache in
              elim (load_contender_script engine scripting script b.world) [
                | none ↦ undefined
                | some w ↦
                    let (ok, w') = add_contender engine (new_contender unset_speed scripting) w in
                    done (
                      ok,
                      record {
                        loaded = loaded;
                        scripts_cache = c;
                        random = r2;
                        world = if ok then place_in (length w.contenders.contenders) w' else w';
                      },
                    )
              ]
        ]

    -- The loop, from the contender `i` on.
    unfoldable pub generate_each :
        BoundaryMap EncounterDesc → ℕ → ℕ → Building S C R → Outcome (Bool × Building S C R)
    unfolding generate_contender
    generate_each bm zero i b = done (true, b)
    generate_each bm (suc n) i b = generate_contender bm i b >>= λ made.
        let rest = generate_each bm n (suc i) made.1 in
        if made.0 then rest else done (false, made.1)

    -- `undefined` is an exception of `at` as well.
    unfoldable pub generate_contenders :
        EncounterContext → String → Level → Building S C R → Outcome (Bool × Building S C R)
    unfolding generate_each
    generate_contenders ctx ws_id level b = elim (at_zone ctx.range_encounter_per_zone ws_id) [
      | none ↦ undefined
      | some ranges ↦ elim (get_elem? ranges (level_index level)) [
        | none ↦ undefined
        | some range ↦
            let (number, r) = generator.generate_in_range range.0 range.1 b.random in
            elim (at_zone ctx.contenders_per_zone ws_id) [
              | none ↦ undefined
              | some zone ↦ elim (make_contender_rng_boundary_map zone (level_index level)) [
                | none ↦ undefined
                | some bm ↦ generate_each bm number 0 (record b { random = r })
              ]
            ]
      ]
    ]

    -- `fresh` is the state of a new script engine, `arena_id` what the constructor leaves there,
    -- `sort_sides` and `sort` are `std::sort` for the battles and the participants, and the fuel
    -- bounds the loops of the turn order. What the builder keeps after the call is left out: its
    -- caller drops it.
    module _
        (sort_sides : (SideBattle → SideBattle → Bool) → List SideBattle → List SideBattle) where
      -- The part of `buildFightingPit` before the contenders.
      unfoldable pub prepare_fighting_pit :
          S → ℕ → FightingPitAnnouncer → PartyTeam → C → C × FightingPit S
      unfolding register_base_actions add_authenticated_user add_party_team_and_register_actions
      prepare_fighting_pit fresh arena_id a pt c =
          let created = new_fighting_pit a.creator_user_name a.difficulty fresh arena_id in
          let fp = add_authenticated_user created a.creator_user_name a.creator_user_token in
          let (c', w) = register_base_actions engine cache c fp.world in
          add_party_team_and_register_actions engine cache sort_sides pt c'
            (record fp { world = w })

      module _ (sort : List PriorityElem → List PriorityElem) (fuel : ℕ) where
        -- The part from the contenders on.
        unfoldable pub complete_fighting_pit :
            EncounterContext
            → String
            → FightingPitAnnouncer
            → C
            → R
            → FightingPit S
            → Outcome (Option (FightingPit S) × C × R)
        unfolding generate_contenders initialize_side_battles
        complete_fighting_pit ctx ws_id a c r fp =
            generate_contenders ctx ws_id a.difficulty
              (record { loaded = a.loaded_script; scripts_cache = c; random = r; world = fp.world })
            >>= λ made.
                if not made.0
                then done (none, made.1.scripts_cache, made.1.random)
                else initialize_side_battles sort fuel (record fp { world = made.1.world })
                  >>= λ fp'. done (some fp', made.1.scripts_cache, made.1.random)

        -- The pit, unless the builder gives none, with the cache and the generator after it.
        unfoldable pub build_fighting_pit :
            EncounterContext
            → String
            → S
            → ℕ
            → FightingPitAnnouncer
            → C
            → R
            → Outcome (Option (FightingPit S) × C × R)
        unfolding prepare_fighting_pit complete_fighting_pit
        build_fighting_pit ctx ws_id fresh arena_id a c r = elim a.creator_party_team [
          | none ↦ done (none, c, r)
          | some pt ↦
              let (c', fp) = prepare_fighting_pit fresh arena_id a pt c in
              let built = complete_fighting_pit ctx ws_id a c' r fp in
              if str_eq a.creator_user_name "" || str_eq a.creator_user_token ""
              then done (none, c, r)
              else if not (zone_registered ctx ws_id)
              then done (none, c, r)
              else built
        ]
