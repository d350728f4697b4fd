-- ===== src/RestAsync/Redirect/Target.antt =====
-- Where a redirect may lead.
use exchange_connectivity.Base.{
  ℕ, ◌≡◌, ◌≢◌, refl, sym, ap, subst, ◌∙◌, ◌⊎◌, inl, inr, true, false, [], ◌∷◌, ◌++◌, append_assoc,
  Option, none, some, ok, arith, All, Bool-cases, Option-cases, ok-injective, ==_iff, ◌==◌,
}
use exchange_connectivity.Base.Text.{
  Bytes, codes, beq, beq_iff, to_lower, starts_with, starts_with-append,
}
use exchange_connectivity.RestAsync.Redirect.{
  after_scheme, before, from_character, rooted, or_root, extract_redirect_path,
}

some_rest : {a b : Bytes} → ◌≡◌ {A = Option Bytes} (some a) (some b) → a ≡ b
some_rest e = cc

-- No "://" begins in the first text where the second one follows it.
abbrev pub NoneBefore : Bytes → Bytes → Type 0
NoneBefore [] t = Unit
NoneBefore (c ∷ s) t = (starts_with (codes "://") (c ∷ (s ++ t)) ≡ false) × NoneBefore s t

after_scheme-some :
    (l r : Bytes)
    → after_scheme l ≡ some r
    → (s : Bytes) × (l ≡ s ++ (codes "://" ++ r)) × NoneBefore s (codes "://" ++ r)
unfolding after_scheme
after_scheme-some [] r h = cc
after_scheme-some (c ∷ l) r h = elim (Bool-cases (starts_with (codes "://") (c ∷ l))) [
  | inl here ↦ (
    [],
    starts_with-append (codes "://") (c ∷ l) here
        ∙ ap (λ t. codes "://" ++ t) (some_rest (rw here at h)),
    tt,
  )
  | inr later ↦
      let (s, e, first) = after_scheme-some l r (rw later at h) in
      (
        c ∷ s,
        ap (λ t. c ∷ t) e,
        (subst (λ t. starts_with (codes "://") (c ∷ t) ≡ false) e later, first),
      )
]

after_scheme-none : (s t : Bytes) → after_scheme (s ++ (codes "://" ++ t)) ≢ none
unfolding after_scheme
after_scheme-none [] t h = cc
after_scheme-none (c ∷ s) t h =
    elim (Bool-cases (starts_with (codes "://") (c ∷ (s ++ (codes "://" ++ t))))) [
      | inl here ↦ cc (rw here at h)
      | inr later ↦ after_scheme-none s t (rw later at h)
    ]

-- The host of a location ends where its port or its path begins.
abbrev pub Lacks : ℕ → Bytes → Type 0
Lacks c s = All (λ d. d ≢ c) s

abbrev pub Begins : ℕ → Bytes → Type 0
Begins c s = (t : Bytes) × (s ≡ c ∷ t)

before-Lacks : (c : ℕ) (s : Bytes) → Lacks c (before c s)
unfolding before
before-Lacks c [] = tt
before-Lacks c (d ∷ s) = elim (Bool-cases (d == c)) [
  | inl same ↦ rw same tt
  | inr other ↦ rw other (ground (arith, other), before-Lacks c s)
]

abbrev rest_of : Option Bytes → Bytes
rest_of none = []
rest_of (some s) = s

before-append : (c : ℕ) (s : Bytes) → s ≡ before c s ++ rest_of (from_character c s)
unfolding before from_character
before-append c [] = refl
before-append c (d ∷ s) = ground (arith, before-append c s)

from_character-Begins : (c : ℕ) (s r : Bytes) → from_character c s ≡ some r → Begins c r
unfolding from_character
from_character-Begins c [] r h = cc
from_character-Begins c (d ∷ s) r h = elim (Bool-cases (d == c)) [
  | inl same ↦ (s, sym (some_rest (rw same at h)) ∙ ap (λ x. x ∷ s) ((==_iff d c).0 same))
  | inr other ↦ from_character-Begins c s r (rw other at h)
]

from_character-split :
    (c : ℕ) (s : Bytes)
    → (rest_of (from_character c s) ≡ []) ⊎ Begins c (rest_of (from_character c s))
from_character-split c s = elim (Option-cases (from_character c s)) [
  | inl absent ↦ inl (rw absent refl)
  | inr (r, found) ↦ inr (rw found (from_character-Begins c s r found))
]

Lacks-append : (c : ℕ) (s t : Bytes) → Lacks c (s ++ t) → Lacks c s × Lacks c t
Lacks-append c [] t h = (tt, h)
Lacks-append c (d ∷ s) t (apart, h) = let (hs, ht) = Lacks-append c s t h in ((apart, hs), ht)

-- A location on the same host: what stands before the first "://", the host in any case, a port or none, and the path, which is
-- the root where there is none.
pub record OnHost (host location path : Bytes) : Type 0 where
  pub scheme : Bytes
  pub name : Bytes
  pub port : Bytes
  pub tail : Bytes
  pub spelled : location ≡ scheme ++ (codes "://" ++ (name ++ (port ++ tail)))
  -- The scheme ends at the first "://".
  pub scheme_ends : NoneBefore scheme (codes "://" ++ (name ++ (port ++ tail)))
  pub name_ends : Lacks b':' name × Lacks b'/' name
  pub port_shape : ((port ≡ []) ⊎ Begins b':' port) × Lacks b'/' port
  pub tail_shape : (tail ≡ []) ⊎ Begins b'/' tail
  pub same_host : to_lower name ≡ to_lower host
  pub resolved : ((tail ≡ []) × (path ≡ codes "/")) ⊎ (Begins b'/' tail × (path ≡ tail))

abbrev pub NoScheme : Bytes → Type 0
NoScheme location = (s t : Bytes) → location ≢ s ++ (codes "://" ++ t)

absolute-OnHost :
    (location host rest path : Bytes)
    → after_scheme location ≡ some rest
    → beq (to_lower (before b':' (before b'/' rest))) (to_lower host) ≡ true
    → or_root (from_character b'/' rest) ≡ path
    → OnHost host location path
absolute-OnHost location host rest path found same result =
    let host_port = before b'/' rest in
    let whole = before-append b':' host_port in
    let plain =
      Lacks-append b'/' (before b':' host_port) (rest_of (from_character b':' host_port))
        (subst (Lacks b'/') whole (before-Lacks b'/' rest)) in
    let (scheme, e, first) = after_scheme-some location rest found in
    let rest_split =
      before-append b'/' rest
      ∙ (ap (λ t. t ++ rest_of (from_character b'/' rest)) whole
          ∙ append_assoc (before b':' host_port) (rest_of (from_character b':' host_port))
              (rest_of (from_character b'/' rest))) in
    record {
      scheme = scheme;
      name = before b':' host_port;
      port = rest_of (from_character b':' host_port);
      tail = rest_of (from_character b'/' rest);
      spelled = e ∙ ap (λ t. scheme ++ (codes "://" ++ t)) rest_split;
      scheme_ends = subst (λ t. NoneBefore scheme (codes "://" ++ t)) rest_split first;
      name_ends = (before-Lacks b':' host_port, plain.0);
      port_shape = (from_character-split b':' host_port, plain.1);
      tail_shape = from_character-split b'/' rest;
      same_host = (beq_iff (to_lower (before b':' host_port)) (to_lower host)).0 same;
      resolved = elim (Option-cases (from_character b'/' rest)) [
        | inl absent ↦ inl (rw absent refl, sym result ∙ rw absent refl)
        | inr (r, there) ↦
            inr (rw there (from_character-Begins b'/' rest r there), sym result ∙ rw there refl)
      ];
    }

rooted-Begins : (location : Bytes) → Begins b'/' (rooted location)
unfolding rooted
rooted-Begins [] = ([], refl)
rooted-Begins (c ∷ s) = elim (Bool-cases (c == b'/')) [
  | inl same ↦ (s, rw same (ap (λ x. x ∷ s) ((==_iff c b'/').0 same)))
  | inr other ↦ (c ∷ s, rw other refl)
]

OnHost-Begins : (host location path : Bytes) → OnHost host location path → Begins b'/' path
OnHost-Begins host location path v = elim v.resolved [
  | inl (none_left, root) ↦ ([], root)
  | inr ((t, begins), whole) ↦ (t, whole ∙ begins)
]

-- A redirect that is followed has a path that begins with a slash, and is of one of two kinds: its location holds no
-- "://" and is the path, with a slash put before it where it has none; or what follows its first "://" is the
-- host in any case, a port or none, and the path, which is the root where it has none.
pub extract_redirect_path-OnHost :
    (location host path : Bytes)
    → extract_redirect_path location host ≡ ok path
    → Begins b'/' path
      × ((NoScheme location × (path ≡ rooted location)) ⊎ OnHost host location path)
unfolding extract_redirect_path
extract_redirect_path-OnHost location host path e = elim (Option-cases (after_scheme location)) [
  | inl absent ↦
      let same : rooted location ≡ path = ok-injective (rw (absent, extract_redirect_path) at e) in
      (
        subst (Begins b'/') same (rooted-Begins location),
        inl ((λ s t h. after_scheme-none s t (ap after_scheme (sym h) ∙ absent)), sym same),
      )
  | inr (rest, found) ↦
      elim (Bool-cases (beq (to_lower (before b':' (before b'/' rest))) (to_lower host))) [
        | inl same ↦
            let v =
              absolute-OnHost location host rest path found same
                (ok-injective (rw (found, same, extract_redirect_path) at e)) in
            (OnHost-Begins host location path v, inr v)
        | inr other ↦ absurd (cc (rw (found, other, extract_redirect_path) at e))
      ]
]
