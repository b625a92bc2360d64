-- ===== src/Contenders/Tests.antt =====
-- Selections of services/arena/src/fightingPit/contender/PitContenders.cpp in small pits.
use fy_s.Common.{ℕ, ◌<◌, ◌≡◌, refl, true, false, some, List, [], ◌∷◌, arith, ltb, length}
use mathlib.Core.Option.{none}
use fy_s.CommonTypes.{is_dead}
use fy_s.HexagonSide.Sides.{Orientation, a_n, b_s, ◌==◌}
use fy_s.HexagonSide.Placed.{placed}
use fy_s.Algorithm.Best.{IsOrder}
use fy_s.Contenders.{
  FightingContender, Comparator, get_hexagon_side_orient, get_changing_side_contenders,
  select_suitable_contender_alive, select_suitable_contender_on_side,
  select_suitable_contender_on_side_alive, select_random_contender_on_side_alive,
  get_contender_on_side, contender_on_side,
}
use fy_s.Contenders.Select.{pit_of, select_first_unsuitable, select_random-on_side}

abbrev pub monster : ℕ → ℕ → Orientation → FightingContender
monster id life side = record {
  contender_scripting = record { contender_name = "sampy"; level = 1; contender_id = id };
  side = placed side;
  status = record {
    life = record { current = life; total = 100 };
    magic_point = record { current = 0; total = 0 };
    initial_speed = 5;
    alterations = [];
  };
}

-- The weaker one suits.
abbrev weaker : Comparator
weaker current next = ltb next.status.life.current current.status.life.current

weaker-IsOrder : IsOrder weaker
weaker-IsOrder = record { irreflexive = λ x. ground arith; transitive = λ x y z p q. ground arith }

changing_test :
    get_changing_side_contenders
      (pit_of (monster 0 7 b_s ∷ monster 1 9 b_s ∷ []) (false ∷ true ∷ []))
    ≡ some (monster 1 9 b_s ∷ [])
unfolding get_changing_side_contenders
changing_test = refl

-- The dead contender of the first place is selected, though another one is alive.
select_first_unsuitable_example :
    (is_dead (monster 0 0 b_s).status.life ≡ true
      → (select_suitable_contender_alive (pit_of (monster 0 0 b_s ∷ monster 1 9 b_s ∷ []) []) weaker
          ≡ some (monster 0 0 b_s))
        × (select_suitable_contender_on_side_alive
              (pit_of (monster 0 0 b_s ∷ monster 1 9 b_s ∷ []) [])
              a_n
              weaker
            ≡ some (monster 0 0 b_s)))
    × ((get_hexagon_side_orient (monster 0 0 b_s) == a_n) ≡ false
        → (select_suitable_contender_on_side
              (pit_of (monster 0 0 b_s ∷ monster 1 9 b_s ∷ []) [])
              a_n
              weaker
            ≡ some (monster 0 0 b_s))
          × (select_suitable_contender_on_side_alive
                (pit_of (monster 0 0 b_s ∷ monster 1 9 b_s ∷ []) [])
                a_n
                weaker
              ≡ some (monster 0 0 b_s)))
select_first_unsuitable_example =
    select_first_unsuitable (monster 0 0 b_s) (monster 1 9 b_s ∷ []) [] a_n weaker

abbrev pair : List FightingContender
pair = monster 0 7 b_s ∷ monster 1 5 a_n ∷ []

select_random-on_side_example :
    (contender_on_side (pit_of pair []) a_n ≡ length (get_contender_on_side (pit_of pair []) a_n))
    × (contender_on_side (pit_of pair []) a_n ≡ 0
        → select_random_contender_on_side_alive (λ lo hi. hi) (pit_of pair []) a_n ≡ none)
    × (0 < contender_on_side (pit_of pair []) a_n
        → (c : FightingContender) × (select_random_contender_on_side_alive
              (λ lo hi. hi)
              (pit_of pair [])
              a_n
            ≡ some c)
          × ((get_hexagon_side_orient c == a_n) ≡ true))
select_random-on_side_example =
    select_random-on_side (λ lo hi. hi) (λ n le. (le, omega arith)) (pit_of pair []) a_n
