-- ===== src/Announcer/Pit.antt =====
-- A whole pit from `buildFightingPit` of services/arena/src/fightingPit/FightingPitAnnouncer.cpp.
use Prim.Native.String.{String}
use text.Mathlib.Text.{◌==◌ as str_eq}
use fy_s.Common.{
  ℕ, ◌≤◌, ◌<◌, ◌≡◌, refl, sym, ap, subst, ◌∙◌, Bool, true, false, some, List, [], ◌∷◌, ◌++◌, arith,
  map, length, get_elem?, uint_mod,
}
use fy_s.CommonTypes.{PriorityElem}
use fy_s.Priority.State.{done}
use fy_s.Priority.Order.{SortLaws}
use fy_s.BoundaryMap.{EncounterDesc}
use fy_s.BoundaryMap.Draw.{Chances, total}
use fy_s.Encounters.{EncounterContext, at_zone, zone_registered, validate_encounter_context}
use fy_s.Encounters.Valid.{at_zone-Mem}
use fy_s.Team.Party.{PartyTeam}
use fy_s.Team.Allies.{no_teams, add_party_team, number_members}
use fy_s.Team.Member.{TeamMember, set_id}
use fy_s.Team.Ids.{all_members, StartsFull, IsNumbered, add_party_team-IsNumbered}
use fy_s.SideBattle.{SideBattle}
use fy_s.Scripting.{
  World, ScriptEngine, ScriptCache, register_base_actions, load_and_register_action,
}
use fy_s.FightingPit.{
  FightingPit, Level, new_fighting_pit, side_order, add_authenticated_user,
  add_party_team_and_register_actions,
}
use fy_s.FightingPit.Start.{AllFilled, sides_filled}
use fy_s.Announcer.{
  FightingPitAnnouncer, Generator, Building, level_index, generate_contenders, prepare_fighting_pit,
  complete_fighting_pit, build_fighting_pit,
}
use fy_s.Announcer.Built.{
  Standing, standings, IsCalm, IsInRange, AllGenerated, AllDefined, Continues, Continues-trans,
  generate_each-Continues,
}
use fy_s.Announcer.Loads.{base-Continues, load_members-Continues, zone-Draws}

-- What a pit is when its contenders are to come.
record IsReady {ℓ} {S : Type ℓ} (a : FightingPitAnnouncer) (pt : PartyTeam) (fp : FightingPit S)
    : Type ℓ where
  creator :
      fp.authenticated_players
      ≡ record { name = a.creator_user_name; token = a.creator_user_token } ∷ []
  teams : fp.world.party_teams ≡ add_party_team no_teams pt
  nobody : standings fp.world ≡ []
  no_battle : fp.side_battles ≡ []

module _ {ℓ} {S : Type ℓ} {C R : Type 0} (cache : ScriptCache C) (engine : ScriptEngine S)
    (generator : Generator R) (unset_speed : ℕ) (zone : List EncounterDesc)
    (calm : IsCalm engine cache zone) where
  party-IsReady :
      (sort_sides : (SideBattle → SideBattle → Bool) → List SideBattle → List SideBattle)
      (fresh : S) (arena_id : ℕ) (a : FightingPitAnnouncer) (pt : PartyTeam) (c : C)
      → ((before : SideBattle → SideBattle → Bool) → sort_sides before [] ≡ [])
      → IsReady a pt
          (prepare_fighting_pit cache engine generator unset_speed sort_sides fresh arena_id a pt
            c).1
  unfolding prepare_fighting_pit add_party_team_and_register_actions add_authenticated_user
      load_and_register_action
  party-IsReady sort_sides fresh arena_id a pt c empty =
      let created : World S =
        (new_fighting_pit a.creator_user_name a.difficulty fresh arena_id).world in
      let f = base-Continues engine cache zone calm c created in
      let g =
        load_members-Continues engine cache zone calm pt.user_name pt.members
          (register_base_actions engine cache c created).0
          (register_base_actions engine cache c created).1 in
      record {
        creator = refl;
        teams = ap (λ t. add_party_team t pt) (g.teams ∙ f.teams);
        nobody = (Continues-trans engine cache zone calm f g).stand;
        no_battle = empty _;
      }

  module _ (in_range : IsInRange generator) where
    generate_contenders-Continues :
        (ctx : EncounterContext) (ws_id : String) (level : Level) (b : Building S C R)
        (ranges : List (ℕ × ℕ)) (range : ℕ × ℕ) (cs : List ℕ)
        → AllDefined calm.defined b.loaded b.world.scripts
        → validate_encounter_context ctx ≡ true
        → level_index level < 3
        → at_zone ctx.range_encounter_per_zone ws_id ≡ some ranges
        → get_elem? ranges (level_index level) ≡ some range
        → range.0 ≤ range.1
        → at_zone ctx.contenders_per_zone ws_id ≡ some zone
        → Chances (level_index level) cs zone
        → total (level_index level) cs < uint_mod
        → (b' : Building S C R) × (ss : List Standing) × (generate_contenders cache engine generator
              unset_speed ctx ws_id level b
            ≡ done (true, b'))
          × Continues calm.defined b.world b'.world ss
          × (range.0 ≤ length ss)
          × (length ss ≤ range.1)
          × AllGenerated zone 0 ss
    unfolding generate_contenders
    generate_contenders-Continues ctx ws_id level b ranges range cs known valid named at_ranges
          at_level le at_contenders chances small =
        let (key, inside) = at_zone-Mem ctx.contenders_per_zone ws_id zone at_contenders in
        let (bm, makes, draws) =
          zone-Draws ctx (key, zone) (level_index level) cs valid inside named chances small in
        let (number, r) = generator.generate_in_range range.0 range.1 b.random in
        let (lo, hi) = in_range.within range.0 range.1 b.random le in
        let (b', ss, made, f, counted, gs) =
          generate_each-Continues cache engine generator unset_speed zone calm in_range bm draws
            number 0 (record b { random = r }) known in
        (
          b',
          ss,
          rw
              (
                at_ranges, generate_contenders, at_level, generate_contenders, at_contenders,
                generate_contenders, makes, made,
              )
              refl,
          f,
          omega (arith, lo, counted),
          omega (arith, hi, counted),
          gs,
        )

-- A party with a member.
party-StartsFull :
    (pt : PartyTeam) → 0 < length pt.members → StartsFull (add_party_team no_teams pt)
unfolding add_party_team number_members
party-StartsFull pt lt = go pt.members refl
  where
    go : (ms : List TeamMember) → pt.members ≡ ms → StartsFull (add_party_team no_teams pt)
    go [] e = absurd (omega (arith, lt, ap length e))
    go (m ∷ ms) e = rw e (set_id m 1, refl)

none_loaded {ℓ} :
    {S : Type ℓ} (defined : S → String → Bool) (loaded : List String) (scripts : S)
    → loaded ≡ []
    → AllDefined defined loaded scripts
none_loaded defined loaded scripts e name h = absurd (cc (rw e at h))

registered :
    (ctx : EncounterContext) (ws_id : String) (zone : List EncounterDesc)
    → at_zone ctx.contenders_per_zone ws_id ≡ some zone
    → zone_registered ctx ws_id ≡ true
unfolding zone_registered
registered ctx ws_id zone e = rw (e, zone_registered) refl

-- The guards of the builder.
build_complete {ℓ} :
    {S : Type ℓ} {C R : Type 0} (cache : ScriptCache C) (engine : ScriptEngine S)
    (generator : Generator R) (unset_speed : ℕ)
    (sort_sides : (SideBattle → SideBattle → Bool) → List SideBattle → List SideBattle)
    (sort : List PriorityElem → List PriorityElem) (fuel : ℕ) (ctx : EncounterContext)
    (ws_id : String) (fresh : S) (arena_id : ℕ) (a : FightingPitAnnouncer) (c : C) (r : R)
    (pt : PartyTeam)
    → str_eq a.creator_user_name "" ≡ false
    → str_eq a.creator_user_token "" ≡ false
    → a.creator_party_team ≡ some pt
    → zone_registered ctx ws_id ≡ true
    → build_fighting_pit cache engine generator unset_speed sort_sides sort fuel ctx ws_id fresh
        arena_id a c r
      ≡ (let (c', fp) =
            prepare_fighting_pit cache engine generator unset_speed sort_sides fresh arena_id a pt
              c in
          complete_fighting_pit cache engine generator unset_speed sort_sides sort fuel ctx ws_id a
            c' r fp)
unfolding build_fighting_pit
build_complete cache engine generator unset_speed sort_sides sort fuel ctx ws_id fresh arena_id a c
      r pt name token team zone =
    rw (team, build_fighting_pit, name, token, zone) refl

pub pit_built {ℓ} :
    {S : Type ℓ} {C R : Type 0} (cache : ScriptCache C) (engine : ScriptEngine S)
    (generator : Generator R) (unset_speed : ℕ)
    (sort_sides : (SideBattle → SideBattle → Bool) → List SideBattle → List SideBattle)
    (sort : List PriorityElem → List PriorityElem) (fuel : ℕ) (ctx : EncounterContext)
    (ws_id : String) (fresh : S) (arena_id : ℕ) (a : FightingPitAnnouncer) (c : C) (r : R)
    (pt : PartyTeam) (ranges : List (ℕ × ℕ)) (range : ℕ × ℕ) (zone : List EncounterDesc)
    (cs : List ℕ)
    → IsCalm engine cache zone
    → IsInRange generator
    → ((before : SideBattle → SideBattle → Bool) → sort_sides before [] ≡ [])
    → SortLaws sort
    → str_eq a.creator_user_name "" ≡ false
    → str_eq a.creator_user_token "" ≡ false
    → a.creator_party_team ≡ some pt
    → a.loaded_script ≡ []
    → 0 < length pt.members
    → length pt.members < uint_mod
    → validate_encounter_context ctx ≡ true
    → level_index a.difficulty < 3
    → at_zone ctx.range_encounter_per_zone ws_id ≡ some ranges
    → get_elem? ranges (level_index a.difficulty) ≡ some range
    → range.0 ≤ range.1
    → at_zone ctx.contenders_per_zone ws_id ≡ some zone
    → Chances (level_index a.difficulty) cs zone
    → total (level_index a.difficulty) cs < uint_mod
    → (fp : FightingPit S) × (c' : C) × (r' : R) × (build_fighting_pit cache engine generator
          unset_speed sort_sides sort fuel ctx ws_id fresh arena_id a c r
        ≡ done (some fp, c', r'))
      × (range.0 ≤ length (standings fp.world))
      × (length (standings fp.world) ≤ range.1)
      × AllGenerated zone 0 (standings fp.world)
      × (fp.authenticated_players
          ≡ record { name = a.creator_user_name; token = a.creator_user_token } ∷ [])
      × (fp.world.party_teams ≡ add_party_team no_teams pt)
      × (map (λ (b : SideBattle). b.side) fp.side_battles ≡ side_order)
      × AllFilled fp.world.contenders.contenders
          (all_members fp.world.party_teams.party_teams)
          fp.side_battles
unfolding complete_fighting_pit
pit_built cache engine generator unset_speed sort_sides sort fuel ctx ws_id fresh arena_id a c r pt
      ranges range zone cs calm in_range empty laws name token team unloaded someone few valid named
      at_ranges at_level le at_contenders chances small =
    let (c', fp) =
      prepare_fighting_pit cache engine generator unset_speed sort_sides fresh arena_id a pt c in
    let ready =
      party-IsReady cache engine generator unset_speed zone calm sort_sides fresh arena_id a pt c
        empty in
    let (b, ss, made, f, lo, hi, gs) =
      generate_contenders-Continues cache engine generator unset_speed zone calm in_range ctx ws_id
        a.difficulty
        (record { loaded = a.loaded_script; scripts_cache = c'; random = r; world = fp.world })
        ranges range cs (none_loaded calm.defined a.loaded_script fp.world.scripts unloaded) valid
        named at_ranges at_level le at_contenders chances small in
    let stand : standings b.world ≡ ss = f.stand ∙ ap (λ l. l ++ ss) ready.nobody in
    let teams : b.world.party_teams ≡ add_party_team no_teams pt = f.teams ∙ ready.teams in
    let (bs, fills, sides, all) =
      sides_filled sort fuel (record fp { world = b.world }) laws
        (subst IsNumbered (sym teams)
          (add_party_team-IsNumbered no_teams pt (omega (arith, few)) refl).0)
        (subst StartsFull (sym teams) (party-StartsFull pt someone)) ready.no_battle in
    (
      record fp { world = b.world; side_battles = bs },
      b.scripts_cache,
      b.random,
      build_complete cache engine generator unset_speed sort_sides sort fuel ctx ws_id fresh
            arena_id a c r pt name token team (registered ctx ws_id zone at_contenders)
          ∙ rw (made, complete_fighting_pit, fills) refl,
      rw stand lo,
      rw stand hi,
      rw stand gs,
      ready.creator,
      teams,
      sides,
      all,
    )
