-- ===== src/Cache/Tests.antt =====
-- The cache of scripting_cache/cml at concrete files.
use Prim.Native.String.{String}
use fy_s.Common.{Option, ◌≡◌, refl, List, [], ◌∷◌, leb}
use mathlib.Core.Option.{none}
use fy_s.Scripting.Texts.{before_last}
use fy_s.Cache.{
  FileSystem, get_at, CmlCopy, new_cml_copy, create_file, find_in_cache, cml_key, parent_path,
}
use fy_s.Cache.Runs.{asked, edited, answers, Event}

abbrev scripts : FileSystem
scripts = record {
  files = ("/scripts/goblin/run.chai", record { content = "run away"; written = 1 }) ∷ [];
  directories = "/scripts/goblin" ∷ [];
}

abbrev fresh : CmlCopy
fresh = new_cml_copy "/local" "/scripts" scripts

-- The script is copied, remembered, edited where it came from, and edited in the local storage.
abbrev a_day : List Event
a_day =
    asked "goblin:run.chai"
    ∷ asked "goblin:run.chai"
    ∷ edited "/scripts/goblin/run.chai" "stand still"
    ∷ asked "goblin:run.chai"
    ∷ edited "/local/goblin/run.chai" "hide"
    ∷ asked "goblin:run.chai"
    ∷ asked "goblin:none.chai"
    ∷ []

path_of_a_key : (cml_key "/local" "goblin:run.chai").path ≡ "/local/goblin/run.chai"
unfolding cml_key
path_of_a_key = refl

path_below_a_separator : (cml_key "/local/" "goblin").path ≡ "/local/goblin"
unfolding cml_key
path_below_a_separator = refl

path_from_the_root : (cml_key "/local" "/goblin").path ≡ "/goblin"
unfolding cml_key
path_from_the_root = refl

parent_of_a_path : parent_path "/local/goblin/run.chai" ≡ "/local/goblin"
unfolding parent_path before_last
parent_of_a_path = refl

answers_of_a_day :
    answers leb 5 a_day fresh ≡ "run away" ∷ "run away" ∷ "run away" ∷ "hide" ∷ "" ∷ []
unfolding answers find_in_cache before_last
answers_of_a_day = refl

-- The directory of the second file is there.
second_file_of_a_directory :
    get_at (create_file 5 "/scripts/goblin/hit.chai" "hit" scripts).files "/scripts/goblin/hit.chai"
    ≡ none
unfolding create_file get_at parent_path before_last
second_file_of_a_directory = refl
