-- ===== src/WorldServer/PlayersData/Around.antt =====
-- Whom services/worldserver/src/engine/PlayersData.cpp finds around a position.
use Prim.Native.String.{String}
use fy_s.Common.{
  ℕ, zero, suc, ◌+◌, ◌-◌, ◌≤◌, ◌<◌, ◌≡◌, refl, sym, ap, ◌∙◌, Bool, not, ◌&&◌, some, List, [], ◌∷◌,
  ◌++◌, arith, length, length-append, get_elem?, take, if◌then◌else◌, leb, ◌==◌, Bool-cases, inl,
  inr,
}
use mathlib.Core.List.{append-nil, append_assoc}
use fy_s.WorldServer.Double.{Double}
use fy_s.WorldServer.PlayersData.{
  PlayersData, PlayerInfo, limit_notifications_move, is_arround, arround_from,
  get_player_idts_arround_pos,
}

take-nil {ℓ} : {A : Type ℓ} (n : ℕ) → take {A = A} n [] ≡ []
take-nil zero = refl
take-nil (suc n) = refl

-- The elements behind the first one.
next :
    (all idts : List String) (idt : String) (i : ℕ)
    → ((j : ℕ) → get_elem? all (i + j) ≡ get_elem? (idt ∷ idts) j)
    → (j : ℕ) → get_elem? all (suc i + j) ≡ get_elem? idts j
next all idts idt i at j = ap (get_elem? all) (omega arith) ∙ at (suc j)

module _ {D : Type 0} (d : Double D) (position : PlayerInfo D) (distance : D) (ignore : ℕ) where
  -- Strictly between two numbers that are as far as the distance from another one.
  abbrev pub above : D → D → Bool
  above value other = d.lt (d.sub other distance) value

  abbrev pub below : D → D → Bool
  below value other = d.lt value (d.add other distance)

  -- The four comparisons. The one that should bound `y` from above has `x` on its left side.
  abbrev pub near : PlayerInfo D → Bool
  near p =
      (above position.x p.x && below position.x p.x)
      && (above position.y p.y && below position.x p.y)

  near_lem : (p : PlayerInfo D) → is_arround d position distance p ≡ near p
  near_lem p = elim (Bool-cases (above position.x p.x)) [ inl t ↦ rw t refl | inr f ↦ rw f refl ]

  -- The identities of those who are near, other than the player `ignore`, from the player `i` on.
  abbrev pub neighbours : ℕ → List (PlayerInfo D) → List String → List String
  neighbours i [] idts = []
  neighbours i (p ∷ ps) [] = []
  neighbours i (p ∷ ps) (idt ∷ idts) =
      let rest = neighbours (suc i) ps idts in
      if not (i == ignore) && near p then idt ∷ rest else rest

  arround_from-neighbours :
      (i : ℕ) (ps : List (PlayerInfo D)) (all idts found : List String)
      → length ps ≤ length idts
      → ((j : ℕ) → get_elem? all (i + j) ≡ get_elem? idts j)
      → length found ≤ limit_notifications_move
      → arround_from d position distance ignore i ps all found
        ≡ some (found ++ take (limit_notifications_move - length found) (neighbours i ps idts))
  unfolding arround_from
  arround_from-neighbours i [] all idts found fits at le =
      ap some (sym (ap (λ l. found ++ l) (take-nil _) ∙ append-nil found))
  arround_from-neighbours i (p ∷ ps) all [] found fits at le = absurd (omega (arith, fits))
  arround_from-neighbours i (p ∷ ps) all (idt ∷ idts) found fits at le =
      elim (Bool-cases (leb limit_notifications_move (length found))) [
        | inl t ↦
            let none_left : limit_notifications_move - length found ≡ 0 = ground (arith, t, le) in
            rw (t, arround_from)
              (ap some (sym (append-nil found))
                ∙ ap (λ k. some (found ++ take k (neighbours i (p ∷ ps) (idt ∷ idts))))
                    (sym none_left))
        | inr f ↦ elim (Bool-cases (i == ignore)) [
          | inl own ↦
              rw (f, arround_from, own, arround_from)
                (arround_from-neighbours (suc i) ps all idts found (omega (arith, fits))
                  (next all idts idt i at) le)
          | inr other ↦ elim (Bool-cases (near p)) [
            | inr far ↦
                rw (f, arround_from, other, arround_from, near_lem p, far, arround_from)
                  (arround_from-neighbours (suc i) ps all idts found (omega (arith, fits))
                    (next all idts idt i at) le)
            | inl close ↦
                let here : get_elem? all i ≡ some idt = ap (get_elem? all) (omega arith) ∙ at 0 in
                let counted : length (found ++ idt ∷ []) ≡ suc (length found) =
                  length-append found (idt ∷ []) ∙ omega arith in
                let room : length found < limit_notifications_move = ground (arith, f) in
                let step : limit_notifications_move - length found
                    ≡ suc (limit_notifications_move - length (found ++ idt ∷ [])) =
                  omega (arith, counted, room) in
                rw
                  (
                    f,
                    arround_from,
                    other,
                    arround_from,
                    near_lem p,
                    close,
                    arround_from,
                    here,
                    arround_from,
                    step,
                  )
                  (arround_from-neighbours (suc i) ps all idts (found ++ idt ∷ [])
                      (omega (arith, fits)) (next all idts idt i at) (omega (arith, counted, room))
                    ∙ ap some (append_assoc found (idt ∷ []) _))
          ]
        ]
      ]

-- Where every player has an identity, the players around a position are the first 50 of those whose
-- `x` is less than the distance away from that of the position, whose `y` is less than its `y` and
-- the distance, and greater than its `x` less the distance, and who are not the ignored one, in the
-- order of their numbers.
pub arround_pos-neighbours :
    {D : Type 0} (d : Double D) (position : PlayerInfo D) (distance : D) (ignore : ℕ)
    (pd : PlayersData D)
    → length pd.positions ≤ length pd.identities
    → get_player_idts_arround_pos d position distance ignore pd
      ≡ some (take 50 (neighbours d position distance ignore 0 pd.positions pd.identities))
unfolding get_player_idts_arround_pos
arround_pos-neighbours d position distance ignore pd fits =
    arround_from-neighbours d position distance ignore 0 pd.positions pd.identities pd.identities []
      fits (λ j. ap (get_elem? pd.identities) (omega arith)) (omega arith)
