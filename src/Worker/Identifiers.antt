-- ===== src/Worker/Identifiers.antt =====
-- The identifiers under which services/arena/src/network/WorkerService.cpp addresses the players.
use Prim.Native.String.{String}
use text.Mathlib.Text.{◌==◌ as str_eq}
use text.Mathlib.TextEquality.{eq_iff}
use fy_s.Common.{
  ℕ, arith, subst, ◌≡◌, ◌≢◌, refl, sym, ap, ◌∙◌, ◌⊎◌, inl, inr, false, Option, some, List, [], ◌∷◌,
  find, Bool-cases, ◌==◌, ==_iff,
}
use mathlib.Core.Option.{none}
use fy_s.Worker.{
  WorkerService, Table, PlayerIdentifier, lookup, assign, set_identifier, add_player_identifier,
  retrieve_player_identifier,
}
use fy_s.Worker.Ids.{lookup-assign_self, lookup-assign_other}

str_ne : (s t : String) → s ≢ t → str_eq s t ≡ false
str_ne s t ne = elim (Bool-cases (str_eq s t)) [
  | inl e ↦ absurd (ne ((eq_iff s t).0 e))
  | inr f ↦ f
]

-- The address that a list of identifiers has for a player.
abbrev address : List PlayerIdentifier → String → String
address ps name = elim (find (λ (p : PlayerIdentifier). str_eq p.user_name name) ps) [
  | none ↦ name
  | some p ↦ p.identifier
]

address_set_self :
    (ps : List PlayerIdentifier) (name identity : String)
    → address (set_identifier ps name identity) name ≡ identity
unfolding set_identifier
address_set_self [] name identity = rw ((eq_iff name name).1 refl, address) refl
address_set_self (p ∷ ps) name identity = elim (Bool-cases (str_eq p.user_name name)) [
  | inl t ↦ rw (t, address, t) refl
  | inr f ↦ rw (f, address, f) (address_set_self ps name identity)
]

address_set_other :
    (ps : List PlayerIdentifier) (name identity other : String)
    → name ≢ other
    → address (set_identifier ps name identity) other ≡ address ps other
unfolding set_identifier
address_set_other [] name identity other ne = rw (str_ne name other ne, address) refl
address_set_other (p ∷ ps) name identity other ne = elim (Bool-cases (str_eq p.user_name name)) [
  | inl t ↦
      let apart : str_eq p.user_name other ≡ false =
        str_ne p.user_name other (λ e. ne (sym ((eq_iff p.user_name name).0 t) ∙ e)) in
      rw (t, address, apart) refl
  | inr f ↦ elim (Bool-cases (str_eq p.user_name other)) [
    | inl t ↦ rw (f, address, t) refl
    | inr g ↦ rw (f, address, g) (address_set_other ps name identity other ne)
  ]
]

-- The address in what the table has for a pit, and in what `operator[]` gives for it.
abbrev entry : Option (List PlayerIdentifier) → String → String
entry o name = elim o [ none ↦ name | some ps ↦ address ps name ]

abbrev identifiers : Option (List PlayerIdentifier) → List PlayerIdentifier
identifiers o = elim o [ none ↦ [] | some ps ↦ ps ]

address-identifiers :
    (o : Option (List PlayerIdentifier)) (name : String)
    → address (identifiers o) name ≡ entry o name
address-identifiers none name = refl
address-identifiers (some ps) name = refl

-- Once a player's identifier is added for a pit, the player is addressed by it there; every other
-- player, and every player in another pit, is addressed as before. So the last identifier counts.
pub retrieve-add_player_identifier {ℓ} :
    {S : Type ℓ} (ws : WorkerService S) (id : ℕ) (name identity : String)
    → (retrieve_player_identifier (add_player_identifier ws id name identity) id name ≡ identity)
      × ((id' : ℕ) (other : String)
          → (id' ≢ id) ⊎ (name ≢ other)
          → retrieve_player_identifier (add_player_identifier ws id name identity) id' other
            ≡ retrieve_player_identifier ws id' other)
unfolding retrieve_player_identifier add_player_identifier
retrieve-add_player_identifier ws id name identity = (
  ap (λ o. entry o name) (lookup-assign_self table id _) ∙ address_set_self _ name identity,
  λ id' other differs. elim (Bool-cases (id' == id)) [
    | inr f ↦
        ap (λ o. entry o other)
          (lookup-assign_other table id id' _ (λ e. absurd (ground (arith, f, e))))
    | inl t ↦ elim differs [
      | inl ne ↦ absurd (ne ((==_iff id' id).0 t))
      | inr ne ↦
          subst
            (λ k.
              entry
                (lookup
                  (assign table id (set_identifier (identifiers (lookup table id)) name identity))
                  k)
                other
              ≡ entry (lookup table k) other)
            (sym ((==_iff id' id).0 t))
            (ap (λ o. entry o other) (lookup-assign_self table id _)
              ∙ address_set_other (identifiers (lookup table id)) name identity other ne
              ∙ address-identifiers (lookup table id) other)
    ]
  ],
)
  where
    table : Table (List PlayerIdentifier)
    table = ws.arena_id_on_identifier
