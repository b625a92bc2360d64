-- ===== src/Cache/Present.antt =====
-- What scripting_cache/cml/src/Cml.cpp answers to a key that is not in memory yet, and once more.
use Prim.Native.String.{String}
use fy_s.Common.{ℕ, Option}
use mathlib.Core.Option
use fy_s.Cache.{
  File, FileSystem, get_at, put_at, create_directories, parent_path, cml_key, CmlCopy,
  create_file_in_local_storage,
}

-- The path of a key in the local storage, and where its file is copied from.
abbrev pub local_path : CmlCopy → String → String
local_path c key = (cml_key c.local_path_storage key).path

abbrev pub copy_path : CmlCopy → String → String
copy_path c key = (cml_key c.copy_path_storage key).path

-- The text of the file at a path, if there is one.
abbrev pub text_at : CmlCopy → String → Option String
text_at c path = Option.map (λ (f : File). f.content) (get_at c.fs.files path)

abbrev remembering : ℕ → String → File → CmlCopy → CmlCopy
remembering now key f c = record c {
  in_mem_cache = put_at c.in_mem_cache key (record { timestamp = now; content = f.content });
}

abbrev copied : ℕ → String → CmlCopy → CmlCopy
copied now key c = create_file_in_local_storage now (cml_key c.local_path_storage key) c

abbrev with_directory : String → CmlCopy → FileSystem
with_directory key c = (create_directories (parent_path (local_path c key)) c.fs).1
