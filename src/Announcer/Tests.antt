-- ===== src/Announcer/Tests.antt =====
-- A pit that services/arena/src/fightingPit/FightingPitAnnouncer.cpp builds in the woods.
use Prim.Native.String.{String}
use text.Mathlib.Text.{◌==◌ as str_eq, starts_with}
use fy_s.Common.{
  Bool, true, false, not, ◌||◌, any, ℕ, ◌≡◌, refl, some, List, ◌∷◌, arith, if◌then◌else◌, leb, ltb,
}
use fy_s.BoundaryMap.{EncounterDesc}
use fy_s.SideBattle.{SideBattle}
use fy_s.Scripting.{ScriptCache, ScriptEngine}
use fy_s.Actions.Tests.{logging}
use fy_s.FightingPit.{FightingPit}
use fy_s.Database.{retrieve_party_team}
use fy_s.Announcer.{FightingPitAnnouncer, Generator, new_announcer}
use fy_s.Announcer.Built.{IsCalm, IsInRange}

-- The lower bound, or the number where it is in the range.
abbrev pub steady : Generator ℕ
steady = record {
  generate_in_range = λ lo hi r. (if ltb lo r then (if leb r hi then r else lo) else lo, r);
}

pub steady-IsInRange : IsInRange steady
steady-IsInRange = record { within = λ lo hi r le. ground arith }

-- Whether some script was run that defines a class.
abbrev any_class : List String → Bool
any_class scripts = any (λ s. str_eq s "def f() {}") scripts

-- An engine that throws when a global is created before any class is defined.
abbrev pub strict : ScriptEngine (List String)
strict = record logging {
  eval = λ text w. (
    any_class w.scripts || not (starts_with text "global "),
    record w { scripts = text ∷ w.scripts },
  );
}

or_left : (a b : Bool) → a ≡ true → (a || b) ≡ true
or_left true b h = refl
or_left false b h = absurd (cc h)

or_right : (a b : Bool) → b ≡ true → (a || b) ≡ true
or_right true b h = refl
or_right false b h = h

-- A cache of scripts that all define the same function.
abbrev pub one_script : ScriptCache Unit
one_script = record { find_in_cache = λ key c. ("def f() {}", c) }

pub strict-IsCalm : (zone : List EncounterDesc) → IsCalm strict one_script zone
strict-IsCalm zone = record {
  harmless = λ text. true;
  of_cache = λ key c. refl;
  of_insert = λ key name level. refl;
  of_create = λ c. refl;
  of_setup = λ c. refl;
  keeps_teams = λ s w h. refl;
  keeps_standings = λ s w h. refl;
  defined = λ scripts name. any_class scripts;
  created = λ scripts name. true;
  there = λ d c inside. refl;
  defines = λ d c w inside. refl;
  stays = λ s w name h. or_right (str_eq s "def f() {}") (any_class w.scripts) h;
  creates = λ c w h. (or_left (any_class w.scripts) _ h, refl);
  sets_up = λ c w h made. or_left (any_class w.scripts) _ h;
}

abbrev pub eve : FightingPitAnnouncer
eve = record new_announcer {
  creator_user_name = "eve";
  creator_user_token = "t";
  creator_party_team = some (retrieve_party_team "eve");
}
