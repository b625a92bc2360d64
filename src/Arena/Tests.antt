-- ===== src/Arena/Tests.antt =====
-- A player creates a pit on a server of services/arena/src/ArenaServerService.cpp, another one joins
-- it.
use Prim.Native.String.{String}
use text.Mathlib.Text.{◌==◌ as str_eq}
use text.Mathlib.TextEquality.{eq_iff}
use fy_s.Common.{
  ℕ, ◌≡◌, ◌≢◌, arith, ap, ◌∙◌, sym, subst, refl, true, false, some, List, [], ◌∷◌, if◌then◌else◌,
}
use mathlib.Core.Option.{none}
use mathlib.Core.List.{Memᴰ}
use fy_s.Priority.State.{done}
use fy_s.Priority.Tests.{isort, isort-SortLaws}
use fy_s.Encounters.Tests.{context, woods}
use fy_s.Encounters.{at_zone, validate_encounter_context, valid_chances, sums_to_100, accumulate}
use fy_s.FightingPit.{FightingPit}
use fy_s.Worker.{lookup, fighting_pits_round, get_authenticated_player_fighting_pit}
use fy_s.Announcer.Tests.{steady, one_script, strict, strict-IsCalm, steady-IsInRange}
use fy_s.Arena.Steps.{dispatcher_keeps}
use fy_s.Arena.Enter.{creator_enters}
use fy_s.Arena.Safety.{authenticated_was_announced, joiner_is_stranger, no_pit_fights}
use fy_s.Arena.{
  on_in_game, find_awaited, FightingPitEncounter, ArenaServerValidateAuth, ArenaServerService,
  Platform, new_team, fb_medium, on_dispatcher_message, process_message_from_player,
}
use fy_s.Arena.Reach.{Reaches, initial, booted, notified, heard}

abbrev creates : FightingPitEncounter
creates = record {
  user_name = "eve";
  token_auth = "t1";
  fighting_pit_id = 0;
  world_server_id = "WS01";
  is_ambush = false;
  id_encounter = 0;
  level_encounter = fb_medium;
}

abbrev joins : FightingPitEncounter
joins = record creates { user_name = "bob"; token_auth = "t2"; fighting_pit_id = 1 }

-- The two messages of authentication that can come.
abbrev decode : String → ArenaServerValidateAuth
decode content =
    if str_eq content "eve's"
    then record { user_name = "eve"; token_auth = "t1"; fighting_pit_id = 0 }
    else record { user_name = "bob"; token_auth = "t2"; fighting_pit_id = 1 }

abbrev platform : Platform (List String) Unit ℕ
platform = record {
  encounter_context = context;
  hostname = "arena";
  connection_string = "tcp://arena";
  port = 4242;
  get_fighting_pit_encounter = λ frame. if str_eq frame "eve's" then creates else joins;
  get_arena_server_validate_auth = decode;
  engine = strict;
  fresh_scripts = [];
  cache = one_script;
  generator = steady;
  sort_sides = λ before sbs. sbs;
  sort = isort;
  unset_speed = 0;
  unset_arena_id = 9;
  fuel = 1;
  id_fuel = 3;
}

abbrev server : ArenaServerService (List String) Unit ℕ
server = initial platform tt 2

-- Eve is in, and Bob is announced to join her.
eve_in :
    (s : ArenaServerService (List String) Unit ℕ) × (fp : FightingPit (List String)) × (id : ℕ)
    × Reaches platform (joins ∷ creates ∷ []) s
    × (lookup s.worker_service.arena_instances id ≡ some fp)
    × (fp.authenticated_players ≡ record { name = "eve"; token = "t1" } ∷ [])
unfolding validate_encounter_context valid_chances sums_to_100 accumulate at_zone find_awaited
    lookup process_message_from_player on_dispatcher_message
eve_in =
    let (
      s', id, fp, enters, nonzero, fresh, stored, lo, hi, gs, alone, known, addressed, used, others,
    ) =
      creator_enters platform "WS01" "socket" creates server ((1, 3) ∷ (2, 4) ∷ (4, 8) ∷ []) (2, 4)
        woods.1 (60 ∷ 40 ∷ []) 1 (strict-IsCalm woods.1) steady-IsInRange (λ before. refl)
        isort-SortLaws refl refl refl refl refl refl refl (omega arith) refl
        (refl, omega arith, (refl, omega arith, tt)) (omega arith) (omega arith) (omega arith)
        (omega arith) (omega arith) refl (λ id e. refl) in
    (
      (on_dispatcher_message platform "WS01" joins s').0,
      fp,
      id,
      notified
          (heard (notified (booted tt 2) "WS01" creates) ("socket" ∷ "auth" ∷ "eve's" ∷ [])
            (new_team "socket" ∷ []) enters)
          "WS01" joins,
      ap (λ ws. lookup ws.arena_instances id) (dispatcher_keeps platform "WS01" joins s') ∙ stored,
      alone,
    )

authenticated_was_announced_example :
    (m : FightingPitEncounter) × Memᴰ m (joins ∷ creates ∷ [])
    × (m.user_name ≡ "eve")
    × (m.token_auth ≡ "t1")
    × (m.fighting_pit_id ≡ 0)
authenticated_was_announced_example =
    let (s, fp, id, reached, stored, alone) = eve_in in
    authenticated_was_announced platform (joins ∷ creates ∷ []) s id fp
      (record { name = "eve"; token = "t1" }) reached stored
      (subst (λ l. Memᴰ (record { name = "eve"; token = "t1" }) l) (sym alone) (Memᴰ.head refl))

-- Bob's messages are the ones of `joins`.
abbrev bob : ArenaServerValidateAuth
bob = record { user_name = "bob"; token_auth = "t2"; fighting_pit_id = 1 }

bob_joins :
    (m : FightingPitEncounter)
    → Memᴰ m (joins ∷ creates ∷ [])
    → m.user_name ≡ "bob"
    → m.token_auth ≡ "t2"
    → m.fighting_pit_id ≢ 0
bob_joins m inside name token = elim inside [
  | Memᴰ.head e ↦ λ zero_id.
      let one : m.fighting_pit_id ≡ 1 = ap (λ (x : FightingPitEncounter). x.fighting_pit_id) e in
      absurd (omega (arith, one, zero_id))
  | Memᴰ.tail later ↦ elim later [
    | Memᴰ.head e ↦
        let first : ◌≡◌ {A = String} "t1" "t2" =
          sym (ap (λ (x : FightingPitEncounter). x.token_auth) e) ∙ token in
        let equal : str_eq "t1" "t2" ≡ true = (eq_iff "t1" "t2").1 first in absurd (cc)
    | Memᴰ.tail none_left ↦ elim none_left [ ]
  ]
]

joiner_is_stranger_example :
    ((id : ℕ) → get_authenticated_player_fighting_pit eve_in.0.worker_service "bob" "t2" id ≡ none)
    × (on_in_game platform bob eve_in.0 ≡ eve_in.0)
joiner_is_stranger_example =
    joiner_is_stranger platform (joins ∷ creates ∷ []) eve_in.0 bob eve_in.3 bob_joins

no_pit_fights_example :
    fighting_pits_round strict isort 1 8 9 eve_in.0.worker_service ≡ done eve_in.0.worker_service
no_pit_fights_example = no_pit_fights platform (joins ∷ creates ∷ []) eve_in.0 8 9 eve_in.3
