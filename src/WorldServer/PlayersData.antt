-- ===== src/WorldServer/PlayersData.antt =====
-- The players of a world server: services/worldserver/include/engine/PlayersData.hh and
-- services/worldserver/src/engine/PlayersData.cpp.
pub mod Around
use Prim.Native.String.{String}
use text.Mathlib.Text.{◌==◌ as str_eq}
use fy_s.Common.{
  ℕ, zero, suc, ◌-◌, Bool, true, false, not, ◌&&◌, Option, some, List, [], ◌∷◌, ◌++◌, length, set,
  get_elem?, replicate, if◌then◌else◌, leb, ltb, uint_mod, ◌==◌,
}
use mathlib.Core.Option.{none}
use fy_s.WorldServer.Double.{Double}

abbrev pub limit_notifications_move : ℕ
limit_notifications_move = 50

pub record PlayerInfo (D : Type 0) : Type 0 where
  pub x : D
  pub y : D
  pub angle : D

pub data PlayerStatus : Type 0 where
  fighting moving standing : PlayerStatus

-- `token_to_index` is a map: each token comes once.
pub record PlayersData (D : Type 0) : Type 0 where
  pub positions : List (PlayerInfo D)
  pub status : List PlayerStatus
  pub identities : List String
  pub token_to_index : List (String × ℕ)

-- The map of tokens gets a number of buckets, and no entry.
unfoldable pub new_players_data : {D : Type 0} → Double D → ℕ → PlayersData D
new_players_data d max_connection = record {
  positions =
      replicate max_connection (record { x = d.of_uint 0; y = d.of_uint 0; angle = d.of_uint 0 });
  status = replicate max_connection fighting;
  identities = replicate max_connection "";
  token_to_index = [];
}

abbrev pub find_token : List (String × ℕ) → String → Option ℕ
find_token [] token = none
find_token ((key, index) ∷ rest) token =
    let other = find_token rest token in if str_eq key token then some index else other

module _ {D : Type 0} where
  -- `none` is the exception of `at`, here and below.
  unfoldable pub set_player_move_action : ℕ → D → PlayersData D → Option (PlayersData D)
  set_player_move_action index direction pd = elim (get_elem? pd.positions index) [
    | none ↦ none
    | some pi ↦
        if ltb index (length pd.status)
        then some (record pd {
          positions = set pd.positions index (record pi { angle = direction });
          status = set pd.status index moving;
        })
        else none
  ]

  unfoldable pub set_status : ℕ → PlayerStatus → PlayersData D → Option (PlayersData D)
  set_status index status pd =
      if ltb index (length pd.status)
      then some (record pd { status = set pd.status index status })
      else none

  abbrev pub stop_player_move : ℕ → PlayersData D → Option (PlayersData D)
  unfolding set_status
  stop_player_move index pd = set_status index standing pd

  abbrev pub set_player_arena : ℕ → String → PlayersData D → Option (PlayersData D)
  unfolding set_status
  set_player_arena index arena_id pd = set_status index fighting pd

  -- The greatest `uint` stands for no player.
  unfoldable pub get_index_and_update_player_connection :
      String → String → PlayersData D → Option (ℕ × PlayersData D)
  get_index_and_update_player_connection token idt pd = elim (find_token pd.token_to_index token) [
    | none ↦ some (uint_mod - 1, pd)
    | some index ↦
        if ltb index (length pd.identities)
        then some (index, record pd { identities = set pd.identities index idt })
        else none
  ]

  module _ (d : Double D) where
    -- The test of the loop; the last comparison reads `x`.
    abbrev pub is_arround : PlayerInfo D → D → PlayerInfo D → Bool
    is_arround position distance other =
        d.lt (d.sub other.x distance) position.x
        && (d.lt position.x (d.add other.x distance)
            && (d.lt (d.sub other.y distance) position.y
                && d.lt position.x (d.add other.y distance)))

    -- The loop from the index `i` on, with the identities so far; `none` is an index out of the
    -- identities.
    unfoldable pub arround_from :
        PlayerInfo D
        → D
        → ℕ
        → ℕ
        → List (PlayerInfo D)
        → List String
        → List String
        → Option (List String)
    arround_from position distance ignore i [] identities found = some found
    arround_from position distance ignore i (p ∷ ps) identities found =
        let skipped = arround_from position distance ignore (suc i) ps identities found in
        elim (leb limit_notifications_move (length found)) [
          | true ↦ some found
          | false ↦ elim (i == ignore) [
            | true ↦ skipped
            | false ↦ elim (is_arround position distance p) [
              | false ↦ skipped
              | true ↦ elim (get_elem? identities i) [
                | none ↦ none
                | some idt ↦
                    arround_from position distance ignore (suc i) ps identities (found ++ idt ∷ [])
              ]
            ]
          ]
        ]

    unfoldable pub get_player_idts_arround_pos :
        PlayerInfo D → D → ℕ → PlayersData D → Option (List String)
    unfolding arround_from
    get_player_idts_arround_pos position distance ignore pd =
        arround_from position distance ignore 0 pd.positions pd.identities []

    unfoldable pub get_player_idts_arround_player :
        ℕ → Option (PlayerInfo D) → D → PlayersData D → Option (List String)
    unfolding get_player_idts_arround_pos
    get_player_idts_arround_player index_player none distance pd =
        elim (get_elem? pd.positions index_player) [
          | none ↦ none
          | some p ↦ get_player_idts_arround_pos p distance index_player pd
        ]
    get_player_idts_arround_player index_player (some position) distance pd =
        elim (get_elem? pd.positions index_player) [
          | none ↦ none
          | some p ↦ get_player_idts_arround_pos position distance index_player pd
        ]
