-- ===== src/Configuration/Sound.antt =====
-- What an accepted configuration file holds.
use exchange_connectivity.Base.{
  ◌≡◌, refl, sym, ap, ◌∙◌, subst, Bool, true, false, Bool-cases, inl, inr, List, [], ◌∷◌, Option,
  none, some, Fallible, ok, err, ◌>>=◌, >>=-eq-ok, ==_iff, ◌+◌, ok-injective, if◌then◌else◌,
}
use exchange_connectivity.Base.Int.{ℤ, pos, eqb_ℤ, pos_part, neg_part, eq_of_parts}
use exchange_connectivity.Base.Text.{Bytes, codes, beq, beq_iff}
use exchange_connectivity.Configuration.{
  Document, Connector, Configuration, connector, parse_connector, emplace, parse_connectors,
  of_version, reported, parse_file,
}

abbrev or_else : Option Connector → Option Connector → Option Connector
or_else (some c) other = some c
or_else none other = other

or_else-none : (c : Option Connector) → or_else c none ≡ c
or_else-none none = refl
or_else-none (some c) = refl

or_else_assoc : (a b c : Option Connector) → or_else (or_else a b) c ≡ or_else a (or_else b c)
or_else_assoc none b c = refl
or_else_assoc (some a) b c = refl

-- An emplaced connector is found, unless one of its name was there.
connector-emplace :
    (key name : Bytes) (value : Connector) (configuration : Configuration)
    → connector (emplace key value configuration) name
      ≡ or_else (connector configuration name) (if beq key name then some value else none)
unfolding connector
connector-emplace key name value [] = refl
connector-emplace key name value ((other, old) ∷ configuration) =
    elim (Bool-cases (beq other key)) [
      | inl same ↦ elim (Bool-cases (beq other name)) [
        | inl found ↦ rw (same, connector, found) refl
        | inr missing ↦
            let other_key : beq key name ≡ false =
              subst (λ k. beq k name ≡ false) ((beq_iff other key).0 same) missing in
            rw (same, connector, missing, other_key)
              (sym (or_else-none (connector configuration name)))
      ]
      | inr apart ↦ elim (Bool-cases (beq other name)) [
        | inl found ↦ rw (apart, connector, found) refl
        | inr missing ↦
            rw (apart, connector, missing) (connector-emplace key name value configuration)
      ]
    ]

eqb_ℤ-eq : (a b : ℤ) → eqb_ℤ a b ≡ true → a ≡ b
eqb_ℤ-eq a b e = eq_of_parts a b ((==_iff (pos_part a + neg_part b) (pos_part b + neg_part a)).0 e)

some_injective :
    (a b : Configuration)
    → ◌≡◌ {A = Fallible Bytes (Option Configuration)} (ok (some a)) (ok (some b))
    → ◌≡◌ {A = Fallible Bytes Configuration} (ok a) (ok b)
some_injective a b e = cc e

module _ (J : Document) where
  -- The first member of that name.
  abbrev pub member : List (Bytes × J.Value) → Bytes → Option J.Value
  member [] name = none
  member ((key, json) ∷ items) name = if beq key name then some json else member items name

  abbrev pub accepted : Fallible Bytes Connector → Option Connector
  accepted (ok c) = some c
  accepted (err text) = none

  module _ (getenv : Bytes → Option Bytes) where
    abbrev pub parsed_member : Option J.Value → Option Connector
    parsed_member none = none
    parsed_member (some json) = accepted (parse_connector getenv J json)

    first_member :
        (name key : Bytes) (json : J.Value) (items : List (Bytes × J.Value)) (value : Connector)
        → parse_connector getenv J json ≡ ok value
        → or_else (if beq key name then some value else none) (parsed_member (member items name))
          ≡ parsed_member (member ((key, json) ∷ items) name)
    first_member name key json items value parsed = elim (Bool-cases (beq key name)) [
      | inl same ↦ rw same (sym (ap accepted parsed))
      | inr apart ↦ rw apart refl
    ]

    parse_connectors-finds :
        (items : List (Bytes × J.Value)) (before after : Configuration) (name : Bytes)
        → parse_connectors getenv J items before ≡ ok after
        → connector after name ≡ or_else (connector before name) (parsed_member (member items name))
    unfolding parse_connectors
    parse_connectors-finds [] before after name e =
        ap (λ c. connector c name) (sym (ok-injective e))
        ∙ sym (or_else-none (connector before name))
    parse_connectors-finds ((key, json) ∷ items) before after name e =
        let (value, parsed, later) = >>=-eq-ok (parse_connector getenv J json) _ e in
        let next = parse_connectors-finds items (emplace key value before) after name later in
        next
        ∙ ap (λ c. or_else c (parsed_member (member items name)))
            (connector-emplace key name value before)
        ∙ or_else_assoc (connector before name) (if beq key name then some value else none)
            (parsed_member (member items name))
        ∙ ap (or_else (connector before name)) (first_member name key json items value parsed)

    reported-ok :
        (r : Fallible Bytes (Option Configuration)) (configuration : Configuration)
        → reported getenv J r ≡ ok configuration
        → r ≡ ok (some configuration)
    reported-ok (ok none) configuration e = absurd (cc e)
    reported-ok (ok (some c)) configuration e = ap (λ d. ok (some d)) (ok-injective e)
    reported-ok (err text) configuration e = absurd (cc e)

    of_version-ok :
        (one : Bool) (json : J.Value) (configuration : Configuration)
        → of_version getenv J one json ≡ ok (some configuration)
        → (items : List (Bytes × J.Value)) × (one ≡ true)
          × ((J.at json (codes "connectors") >>= J.items) ≡ ok items)
          × (parse_connectors getenv J items [] ≡ ok configuration)
    of_version-ok false json configuration e = absurd (cc e)
    of_version-ok true json configuration e =
        let (items, listed, later) = >>=-eq-ok (J.at json (codes "connectors") >>= J.items) _ e in
        let (parsed, done, same) = >>=-eq-ok (parse_connectors getenv J items []) _ later in
        (items, refl, listed, done ∙ some_injective parsed configuration same)

    -- Where a file is accepted it is a document of version 1 with connectors, and to look one up by its name gives
    -- what the first member of that name parses to, or nothing where there is none.
    pub parse_file_finds :
        (path contents name : Bytes) (configuration : Configuration)
        → parse_file getenv J path (some contents) ≡ ok configuration
        → (json : J.Value) × (items : List (Bytes × J.Value)) × (J.parse contents ≡ ok json)
          × ((J.at json (codes "version") >>= J.get_int) ≡ ok (pos 1))
          × ((J.at json (codes "connectors") >>= J.items) ≡ ok items)
          × (connector configuration name ≡ parsed_member (member items name))
    unfolding parse_file connector
    parse_file_finds path contents name configuration e =
        let (json, read, rest) = >>=-eq-ok (J.parse contents) _ (reported-ok _ configuration e) in
        let (version, numbered, later) =
          >>=-eq-ok (J.at json (codes "version") >>= J.get_int) _ rest in
        let (items, one, listed, parsed) =
          of_version-ok (eqb_ℤ version (pos 1)) json configuration later in
        (
          json,
          items,
          read,
          numbered ∙ ap ok (eqb_ℤ-eq version (pos 1) one),
          listed,
          parse_connectors-finds items [] configuration name parsed,
        )
