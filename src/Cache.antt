-- ===== src/Cache.antt =====
-- The cache of scripts: scripting_cache/cml/include/Cml.hh, scripting_cache/cml/src/Cml.cpp,
-- scripting_cache/cml/include/CmlKey.hh, and CmlCopy in scripting_cache/cml/include/CmlCopy.hh and
-- scripting_cache/cml/src/CmlCopy.cpp, over a file system of texts. The paths that are asked for name
-- regular files, and where a directory is needed no file stands.
pub mod Present
pub mod Runs
mod Tests
use Prim.Native.String.{String, ◌++◌ as str_append}
use Prim.Native.Char.{code}
use text.Mathlib.Text.{◌==◌ as str_eq, starts_with}
use fy_s.Common.{ℕ, Bool, true, false, Option, some, List, [], ◌∷◌, any, if◌then◌else◌, ◌==◌}
use mathlib.Core.Option.{none}
use fy_s.Scripting.{ScriptCache}
use fy_s.Scripting.Texts.{before_last, has_char}

pub record File : Type 0 where
  pub content : String
  pub written : ℕ

-- The regular files by their paths, the last one written first, and the directories.
pub record FileSystem : Type 0 where
  pub files : List (String × File)
  pub directories : List String

unfoldable pub get_at {ℓ} : {A : Type ℓ} → List (String × A) → String → Option A
get_at [] key = none
get_at ((k, a) ∷ rest) key = let other = get_at rest key in if str_eq k key then some a else other

-- The assignment to `operator[]`, with the new value in front of an old one.
abbrev pub put_at {ℓ} : {A : Type ℓ} → List (String × A) → String → A → List (String × A)
put_at table key a = (key, a) ∷ table

-- A directory stands there, or one below it.
abbrev pub is_directory : FileSystem → String → Bool
is_directory fs path =
    any (λ d. starts_with (str_append d "/") (str_append path "/")) fs.directories

-- `create_directories`, with whether it created one; no file stands in the way.
abbrev pub create_directories : String → FileSystem → Bool × FileSystem
create_directories path fs =
    if is_directory fs path
    then (false, fs)
    else (true, record fs { directories = path ∷ fs.directories })

-- Writes a file at the time `now`, in a directory that is there.
abbrev pub write_file : ℕ → String → String → FileSystem → FileSystem
write_file now path content fs = record fs {
  files = put_at fs.files path (record { content = content; written = now });
}

-- `copy` with an error code: nothing happens without a source, or with a target.
unfoldable pub copy_file : ℕ → String → String → FileSystem → FileSystem
unfolding get_at
copy_file now from to fs = elim (get_at fs.files from) [
  | none ↦ fs
  | some source ↦ elim (get_at fs.files to) [
    | some target ↦ fs
    | none ↦ write_file now to source.content fs
  ]
]

-- `std::replace` of ':' by '/'.
unfoldable pub with_slashes : String → String
with_slashes String.[] = ""
with_slashes (String.◌∷◌ c s) =
    let rest = with_slashes s in if code c == 58 then str_append "/" rest else String.◌∷◌ c rest

-- `operator/=` of paths: a separator is put in where there is none, and a path from the root stays.
unfoldable pub append_path : String → String → String
unfolding before_last
append_path base relative =
    let ends = str_eq (str_append (before_last 47 base) "/") base in
    if starts_with relative "/"
    then relative
    else if str_eq base ""
    then relative
    else if ends
    then str_append base relative
    else str_append base (str_append "/" relative)

pub record CmlKey : Type 0 where
  pub path : String
  pub key : String

unfoldable pub cml_key : String → String → CmlKey
unfolding with_slashes append_path
cml_key base_path key = record { path = append_path base_path (with_slashes key); key = key }

unfoldable pub parent_path : String → String
unfolding has_char
parent_path path =
    let parent = before_last 47 path in
    if has_char 47 path then if str_eq parent "" then "/" else parent else ""

pub record InMemoryCached : Type 0 where
  pub timestamp : ℕ
  pub content : String

-- A `CmlCopy`, with the files.
pub record CmlCopy : Type 0 where
  pub local_path_storage : String
  pub copy_path_storage : String
  pub in_mem_cache : List (String × InMemoryCached)
  pub fs : FileSystem

abbrev pub new_cml_copy : String → String → FileSystem → CmlCopy
new_cml_copy path_local_storage path_copy fs = record {
  local_path_storage = path_local_storage;
  copy_path_storage = path_copy;
  in_mem_cache = [];
  fs = (create_directories path_local_storage fs).1;
}

unfoldable pub is_in_local_storage : CmlKey → CmlCopy → Bool
unfolding get_at
is_in_local_storage k c = elim (get_at c.fs.files k.path) [ none ↦ false | some f ↦ true ]

-- `not_later` compares the time of the file clock with one of the system clock.
unfoldable pub is_in_local_storage_and_up_to_date : (ℕ → ℕ → Bool) → CmlKey → ℕ → CmlCopy → Bool
unfolding get_at
is_in_local_storage_and_up_to_date not_later k timestamp c = elim (get_at c.fs.files k.path) [
  | none ↦ false
  | some f ↦ not_later f.written timestamp
]

unfoldable pub create_file_in_local_storage : ℕ → CmlKey → CmlCopy → CmlCopy
unfolding cml_key copy_file parent_path
create_file_in_local_storage now k c =
    let source = cml_key c.copy_path_storage k.key in
    let created = (create_directories (parent_path k.path) c.fs).1 in
    record c { fs = copy_file now source.path k.path created }

-- `createFile`, which writes only where it created a directory.
unfoldable pub create_file : ℕ → String → String → FileSystem → FileSystem
unfolding parent_path
create_file now path_to_file content fs =
    let (created, fs') = create_directories (parent_path path_to_file) fs in
    if created then write_file now path_to_file (str_append content "\n") fs' else fs'

-- The part of `findInCache` from the local storage on; `none` is a file that is not there.
unfoldable pub find_in_local_storage : ℕ → CmlKey → CmlCopy → Option (String × CmlCopy)
unfolding get_at
find_in_local_storage now k c = elim (get_at c.fs.files k.path) [
  | none ↦ none
  | some f ↦ some (
    f.content,
    record c {
      in_mem_cache = put_at c.in_mem_cache k.key (record { timestamp = now; content = f.content });
    },
  )
]

-- One call of `findInCache` up to its question for `first`.
unfoldable pub look_up : (ℕ → ℕ → Bool) → ℕ → String → CmlCopy → Option (String × CmlCopy)
unfolding cml_key is_in_local_storage_and_up_to_date find_in_local_storage
look_up not_later now key c =
    let k = cml_key c.local_path_storage key in
    let stored = find_in_local_storage now k c in
    elim (get_at c.in_mem_cache key) [
      | none ↦ stored
      | some cached ↦
          if is_in_local_storage_and_up_to_date not_later k cached.timestamp c
          then some (cached.content, c)
          else stored
    ]

-- `findInCache` with `first` false, and with `first` true.
unfoldable pub find_again : (ℕ → ℕ → Bool) → ℕ → String → CmlCopy → String × CmlCopy
unfolding look_up
find_again not_later now key c = elim (look_up not_later now key c) [
  | none ↦ ("", c)
  | some found ↦ found
]

unfoldable pub find_in_cache : (ℕ → ℕ → Bool) → ℕ → String → CmlCopy → String × CmlCopy
unfolding find_again create_file_in_local_storage
find_in_cache not_later now key c = elim (look_up not_later now key c) [
  | none ↦
      find_again not_later now key
        (create_file_in_local_storage now (cml_key c.local_path_storage key) c)
  | some found ↦ found
]
