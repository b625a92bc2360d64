-- ===== src/Team/Ids.antt =====
-- How services/arena/src/fightingPit/team/AllyPartyTeams.cpp numbers the members of the teams, and
-- finds them by their numbers.
use fy_s.Common.{
  ℕ, zero, suc, ◌+◌, ◌≤◌, ◌<◌, ◌≡◌, refl, sym, ap, ap₂, ◌∙◌, ◌⊎◌, inl, inr, Bool, some, List, [],
  ◌∷◌, ◌++◌, map, arith, length, find, or_else, find-append, uint_mod, add_uint, ◌==◌, Bool-cases,
}
use mathlib.Core.Path.{◌≡⟨◌⟩◌, ◌∎}
use mathlib.Core.Option.{none}
use mathlib.Core.List.{Memᴰ, append-nil, append_assoc, map-append}
use native.Mathlib.Nat.{add-zero, zero-add, suc-add, add-suc}
use fy_s.Team.Member.{TeamMember}
use fy_s.Team.Party.{PartyTeam}
use fy_s.Team.Allies.{
  AllyPartyTeams, number_members, add_party_team, first_member, member_in, select_member_by_id,
}

-- All members, in the order of their teams.
abbrev pub all_members : List PartyTeam → List TeamMember
all_members [] = []
all_members (t ∷ ts) = t.members ++ all_members ts

abbrev pub ids : List TeamMember → List ℕ
ids = map (λ m. m.id)

-- The `n` numbers after `c`.
abbrev pub numbers : ℕ → ℕ → List ℕ
numbers c zero = []
numbers c (suc n) = suc c ∷ numbers (suc c) n

-- The members bear the numbers from 1 to the last one given, in order.
abbrev pub IsNumbered : AllyPartyTeams → Type 0
IsNumbered apt = ids (all_members apt.party_teams) ≡ numbers 0 apt.current_team_member_id

number_members-numbers :
    (c : ℕ) (ms : List TeamMember)
    → c + length ms < uint_mod
    → ((number_members c ms).0 ≡ c + length ms)
      × (ids (number_members c ms).1 ≡ numbers c (length ms))
unfolding number_members
number_members-numbers c [] lt = (omega arith, refl)
number_members-numbers c (m ∷ ms) lt =
    let next : add_uint c 1 ≡ suc c = omega arith in
    let (last, bears) = number_members-numbers (suc c) ms (omega arith) in
    rw next (omega (arith, last), ap (λ l. suc c ∷ l) bears)

numbers-append : (c m n : ℕ) → numbers c m ++ numbers (c + m) n ≡ numbers c (m + n)
numbers-append c zero n = rw (add-zero, zero-add)
numbers-append c (suc m) n = rw (suc-add, ← numbers-append (suc c) m n, suc-add, add-suc)

all_members-append :
    (ts us : List PartyTeam) → all_members (ts ++ us) ≡ all_members ts ++ all_members us
all_members-append [] us = refl
all_members-append (t ∷ ts) us = rw (all_members-append ts us, append_assoc)

-- The teams with one more, numbered.
pub all_members-add_party_team :
    (apt : AllyPartyTeams) (t : PartyTeam)
    → all_members (add_party_team apt t).party_teams
      ≡ all_members apt.party_teams ++ (number_members apt.current_team_member_id t.members).1
unfolding add_party_team
all_members-add_party_team apt t = rw (all_members-append, append-nil)

add_party_team-bears :
    (apt : AllyPartyTeams) (t : PartyTeam)
    → IsNumbered apt
    → ids (number_members apt.current_team_member_id t.members).1
      ≡ numbers apt.current_team_member_id (length t.members)
    → ids (all_members (add_party_team apt t).party_teams)
      ≡ numbers 0 (apt.current_team_member_id + length t.members)
add_party_team-bears apt t v e =
    ids (all_members (add_party_team apt t).party_teams)
    ≡⟨ ap ids (all_members-add_party_team apt t) ⟩ ids (all_members apt.party_teams ++ new)
    ≡⟨ map-append (λ (m : TeamMember). m.id) (all_members apt.party_teams) new ⟩
      ids (all_members apt.party_teams) ++ ids new
    ≡⟨ ap₂ ◌++◌ v e ⟩ numbers 0 c ++ numbers c (length t.members)
    ≡⟨ (rw (← numbers-append 0 c (length t.members), zero-add)) ⟩ numbers 0 (c + length t.members) ∎
  where
    c : ℕ
    c = apt.current_team_member_id

    new : List TeamMember
    new = (number_members c t.members).1

-- `addPartyTeam` numbers the members of the new team by the numbers that follow the last one given, as
-- long as these stay below 2^32: the members of all teams, in order, bear the numbers 1, 2, 3 and so
-- on up to the last one given, which has grown by the size of the new team.
pub add_party_team-IsNumbered :
    (apt : AllyPartyTeams) (t : PartyTeam)
    → apt.current_team_member_id + length t.members < uint_mod
    → IsNumbered apt
    → IsNumbered (add_party_team apt t)
      × ((add_party_team apt t).current_team_member_id
          ≡ apt.current_team_member_id + length t.members)
unfolding add_party_team
add_party_team-IsNumbered apt t lt v =
    let (last, bears) = number_members-numbers apt.current_team_member_id t.members lt in
    (add_party_team-bears apt t v bears ∙ ap (numbers 0) (sym last), last)

-- The test of `selectMemberById`.
abbrev bears_id : ℕ → TeamMember → Bool
bears_id i m = i == m.id

member_in-eq-find :
    (ts : List PartyTeam) (i : ℕ) → member_in ts i ≡ find (bears_id i) (all_members ts)
unfolding member_in
member_in-eq-find [] i = refl
member_in-eq-find (t ∷ ts) i =
    ap (or_else (find (bears_id i) t.members)) (member_in-eq-find ts i)
    ∙ sym (find-append (bears_id i) t.members (all_members ts))

numbered_found :
    (ms : List TeamMember) (c n i : ℕ)
    → ids ms ≡ numbers c n
    → c < i
    → i ≤ c + n
    → (m : TeamMember) × (find (bears_id i) ms ≡ some m) × (m.id ≡ i) × Memᴰ m ms
numbered_found ms c zero i e lo hi = absurd (omega arith)
numbered_found [] c (suc n) i e lo hi = absurd (cc)
numbered_found (m ∷ ms) c (suc n) i e lo hi =
    let here : m.id ≡ suc c = cc in
    let rest : ids ms ≡ numbers (suc c) n = cc in
    elim (Bool-cases (i == m.id)) [
      | inl t ↦ (m, rw t, ground (arith, t), Memᴰ.head refl)
      | inr f ↦
          let (m', found, named, inside) =
            numbered_found ms (suc c) n i rest (ground (arith, f)) (omega arith) in
          (m', rw f found, named, Memᴰ.tail inside)
    ]

numbered_missing :
    (ms : List TeamMember) (c n i : ℕ)
    → ids ms ≡ numbers c n
    → (i ≤ c) ⊎ (c + n < i)
    → find (bears_id i) ms ≡ none
numbered_missing [] c n i e out = refl
numbered_missing (m ∷ ms) c zero i e out = absurd (cc)
numbered_missing (m ∷ ms) c (suc n) i e out =
    let here : m.id ≡ suc c = cc in
    let rest : ids ms ≡ numbers (suc c) n = cc in
    ground (arith, numbered_missing ms (suc c) n i rest (ground arith))

-- The first team has a member.
abbrev pub StartsFull : AllyPartyTeams → Type 0
StartsFull apt = (m : TeamMember) × (first_member apt.party_teams ≡ some m)

-- Among members numbered as `addPartyTeam` does, where the first team has a member, `selectMemberById`
-- finds a member of that number in one of the teams for each number from 1 to the last one given, and
-- nobody for any other number.
pub select_member_by_id-exact :
    (apt : AllyPartyTeams) (i : ℕ)
    → IsNumbered apt
    → StartsFull apt
    → (0 < i
        → i ≤ apt.current_team_member_id
        → (m : TeamMember) × (select_member_by_id apt i ≡ some m)
          × (m.id ≡ i)
          × Memᴰ m (all_members apt.party_teams))
      × ((i ≡ 0) ⊎ (apt.current_team_member_id < i) → select_member_by_id apt i ≡ none)
unfolding select_member_by_id
select_member_by_id-exact apt i v (m, full) = (
  λ lo hi.
      let (m', found, named, inside) =
        numbered_found (all_members apt.party_teams) 0 apt.current_team_member_id i v lo
          (omega arith) in
      (
        m',
        rw (full, select_member_by_id) (member_in-eq-find apt.party_teams i ∙ found),
        named,
        inside,
      ),
  λ out.
      rw (full, select_member_by_id)
        (member_in-eq-find apt.party_teams i
          ∙ numbered_missing (all_members apt.party_teams) 0 apt.current_team_member_id i v
              (ground arith)),
)
