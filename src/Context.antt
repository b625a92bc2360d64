-- ===== src/Context.antt =====
-- The contexts that the services and the dispatchers start with: `Service` and `Dispatcher`. Boost
-- reads a file of properties, and TCLAP the command line, before the code here sees their values.
pub mod Service
pub mod Dispatcher
pub mod Json
pub mod Values
pub mod Arena
pub mod World
pub mod Zones
pub mod RoundTrip
pub mod WorldRoundTrip
pub mod Topics
pub mod Configured
mod Tests
use Prim.Native.String.{String}
use fy_s.Common.{ℕ, Bool, Option, some}
use mathlib.Core.Option.{none}

-- A tree of properties: `get` at a type, with `none` for its exception.
pub record PropertyTree : Type 0 where
  pub get_string : String → Option String
  pub get_ushort : String → Option ℕ
  pub get_uint : String → Option ℕ
  pub get_bool : String → Option Bool

-- A chain of reads that stops at the first exception.
infixl 5 ◌>>=◌
abbrev pub ◌>>=◌ {ℓ κ} : {A : Type ℓ} {B : Type κ} → Option A → (A → Option B) → Option B
none >>= f = none
some a >>= f = f a
