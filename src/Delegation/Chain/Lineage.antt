-- ===== src/Delegation/Chain/Lineage.antt =====
-- What `get_chain` of backend/app/delegation/store.py returns, against the parent references.
use mathlib.Core.List.{reverse-reverse, reverse-append, append_assoc, append-nil, map-append}
use mathlib.Core.Path.{subst}
use text.Mathlib.TextEquality.{eq_iff}
use cage_agent_security.Prelude.{
  ℕ, zero, suc, ◌+◌, ◌≤◌, ◌<◌, ◌≡◌, ◌≢◌, ◌↔◌, refl, sym, ap, ◌∙◌, inl, inr, true, false, String,
  Option, none, some, List, [], ◌∷◌, ◌++◌, map, reverse, arith,
}
use cage_agent_security.Prelude.Tests.{Bool-cases, Option-cases, is_some}
use cage_agent_security.Prelude.Eq.{◌==◌, contains, contains-append, string_eq}
use cage_agent_security.Prelude.Lists.{length, length-append, All, All-reverse}
use cage_agent_security.Prelude.Dict.{Dict, get}
use cage_agent_security.Delegation.Models.{DelegationGrant}
use cage_agent_security.Delegation.Chain.{
  Result, ok, err, out_of_fuel, chain_loop, reversed, get_chain,
}

-- The ids of a chain.
abbrev pub ids : List DelegationGrant → List String
ids = map (λ g. g.delegation_id)

-- No id occurs twice.
abbrev pub Distinct : List String → Type 0
Distinct [] = Unit {0}
Distinct (x ∷ xs) = (contains xs x ≡ false) × Distinct xs

-- No id of the list was visited.
abbrev Fresh : List String → List String → Type 0
Fresh visited [] = Unit {0}
Fresh visited (x ∷ xs) = (contains visited x ≡ false) × Fresh visited xs

-- A grant is stored under its own id.
abbrev pub WellKeyed : Dict String DelegationGrant → Type 0
WellKeyed d = (id : String) (g : DelegationGrant) → get d id ≡ some g → g.delegation_id ≡ id

-- The grants from a reference up its parents, the grant itself first.
pub data Lineage (d : Dict String DelegationGrant)
    : Option String → List DelegationGrant → Type 0 where
  top : Lineage d none []
  dangling : {id : String} → get d id ≡ none → Lineage d (some id) []
  link :
      {id : String} {g : DelegationGrant} {rest : List DelegationGrant}
      → get d id ≡ some g
      → Lineage d g.parent_delegation_id rest
      → Lineage d (some id) (g ∷ rest)

Fresh-split :
    (id : String) (visited xs : List String)
    → Fresh (id ∷ visited) xs
    → Fresh visited xs × (contains xs id ≡ false)
unfolding contains
Fresh-split id visited [] h = (tt, refl)
Fresh-split id visited (x ∷ xs) h =
    let (rest, new) = Fresh-split id visited xs h.1 in
    ((ground arith, rest), ground (arith, eq_iff x id, eq_iff id x))

Fresh-join :
    (id : String) (visited xs : List String)
    → Fresh visited xs
    → contains xs id ≡ false
    → Fresh (id ∷ visited) xs
unfolding contains
Fresh-join id visited [] h k = tt
Fresh-join id visited (x ∷ xs) h k =
    (ground (arith, eq_iff x id, eq_iff id x), Fresh-join id visited xs h.1 (ground arith))

module _ (d : Dict String DelegationGrant) (m : ℕ) where
  loop-ne-out_of_fuel :
      (fuel : ℕ) (cur : Option String) (visited : List String) (chain : List DelegationGrant)
      → m + 2 ≤ fuel + length chain
      → length chain ≤ m
      → chain_loop fuel d m cur visited chain ≢ err out_of_fuel
  unfolding chain_loop
  loop-ne-out_of_fuel fuel none visited chain h k = λ e. cc
  loop-ne-out_of_fuel zero (some id) visited chain h k = absurd (omega arith)
  loop-ne-out_of_fuel (suc fuel) (some id) visited chain h k = elim (Option-cases (get d id)) [
    | inl e ↦ ground (arith)
    | inr (g, e) ↦ ground (
      arith,
      length-append chain (g ∷ []),
      loop-ne-out_of_fuel fuel g.parent_delegation_id (id ∷ visited) (chain ++ g ∷ []),
    )
  ]

  -- The ids visited so far have grants.
  abbrev AllFound : List String → Type 0
  AllFound visited = (v : String) → contains visited v ≡ true → is_some (get d v) ≡ true

  found_more :
      (id : String) (g : DelegationGrant) (visited : List String)
      → get d id ≡ some g
      → AllFound visited
      → AllFound (id ∷ visited)
  unfolding contains
  found_more id g visited e found v h = elim (Bool-cases (id == v)) [
    | inl same ↦ subst (λ x. is_some (get d x) ≡ true) ((eq_iff id v).0 same) (rw e)
    | inr other ↦ found v (ground arith)
  ]

  loop_sound :
      (fuel : ℕ) (cur : Option String) (visited : List String) (chain c : List DelegationGrant)
      → WellKeyed d
      → length chain ≤ m
      → chain_loop fuel d m cur visited chain ≡ ok c
      → (l : List DelegationGrant) × (c ≡ chain ++ l)
        × Lineage d cur l
        × (length c ≤ m)
        × Fresh visited (ids l)
        × Distinct (ids l)
  unfolding chain_loop
  loop_sound fuel none visited chain c keyed k h =
      ([], ground (arith, append-nil chain), top, ground arith, tt, tt)
  loop_sound zero (some id) visited chain c keyed k h = absurd (cc)
  loop_sound (suc fuel) (some id) visited chain c keyed k h = elim (Option-cases (get d id)) [
    | inl e ↦ ([], ground (arith, append-nil chain), dangling e, ground arith, tt, tt)
    | inr (g, e) ↦
        let own = keyed id g e in
        let long = length-append chain (g ∷ []) in
        let (l, eq, walk, bound, fresh, distinct) =
          loop_sound fuel g.parent_delegation_id (id ∷ visited) (chain ++ g ∷ []) c keyed
            (ground arith) (ground arith) in
        let (fresh', new) = Fresh-split id visited (ids l) fresh in
        (
          g ∷ l,
          ◌∙◌ {b = (chain ++ g ∷ []) ++ l} eq (append_assoc chain (g ∷ []) l),
          link e walk,
          bound,
          (ground arith, fresh'),
          (subst (λ x. contains (ids l) x ≡ false) (sym own) new, distinct),
        )
  ]

  loop_complete :
      (fuel : ℕ) (cur : Option String) (visited : List String) (chain l : List DelegationGrant)
      → WellKeyed d
      → AllFound visited
      → Lineage d cur l
      → Fresh visited (ids l)
      → Distinct (ids l)
      → length chain + length l ≤ m
      → length l < fuel
      → chain_loop fuel d m cur visited chain ≡ ok (chain ++ l)
  unfolding chain_loop
  loop_complete fuel none visited chain l keyed found top fresh distinct h k =
      ground (arith, append-nil chain)
  loop_complete zero (some id) visited chain l keyed found walk fresh distinct h k = elim k [ ]
  loop_complete (suc fuel) (some id) visited chain l keyed found (dangling e) fresh distinct h k =
      ground (arith, append-nil chain, found id)
  loop_complete (suc fuel) (some id) visited chain l keyed found (link {g = g} {rest = rest} e walk)
        fresh distinct h k =
      let own = keyed id g e in
      let fresh' =
        Fresh-join id visited (ids rest) fresh.1
          (subst (λ x. contains (ids rest) x ≡ false) own distinct.0) in
      let long = length-append chain (g ∷ []) in
      let ih =
        loop_complete fuel g.parent_delegation_id (id ∷ visited) (chain ++ g ∷ []) rest keyed
          (found_more id g visited e found) walk fresh' distinct.1 (omega arith) (omega arith) in
      let joined = append_assoc chain (g ∷ []) rest in
      let unseen = subst (λ x. contains visited x ≡ false) own fresh.0 in ground arith

-- What a chain that is returned is: the lineage of the id, root first, no grant twice, and at most
-- `m` grants.
pub record IsChain (d : Dict String DelegationGrant) (id : String) (m : ℕ)
    (c : List DelegationGrant) : Type 0 where
  pub walk : Lineage d (some id) (reverse c)
  pub distinct : Distinct (ids (reverse c))
  pub bounded : length (reverse c) ≤ m

reversed-ne-out_of_fuel :
    (r : Result (List DelegationGrant)) → r ≢ err out_of_fuel → reversed r ≢ err out_of_fuel
unfolding reversed
reversed-ne-out_of_fuel (ok c) h = λ e. cc
reversed-ne-out_of_fuel (err x) h = h

reversed-eq-ok :
    (r : Result (List DelegationGrant)) (c : List DelegationGrant)
    → reversed r ≡ ok c
    → r ≡ ok (reverse c)
unfolding reversed
reversed-eq-ok (ok l) c h = ground (arith, reverse-reverse l)
reversed-eq-ok (err x) c h = cc

reversed-of-ok :
    (r : Result (List DelegationGrant)) (c : List DelegationGrant)
    → r ≡ ok (reverse c)
    → reversed r ≡ ok c
unfolding reversed
reversed-of-ok (ok l) c h = ground (arith, reverse-reverse c)
reversed-of-ok (err x) c h = cc

Fresh-nil : (xs : List String) → Fresh [] xs
unfolding contains
Fresh-nil [] = tt
Fresh-nil (x ∷ xs) = (refl, Fresh-nil xs)

found_nil : (d : Dict String DelegationGrant) → AllFound d 0 []
unfolding contains
found_nil d v h = cc

-- The walk always ends: by a return or by a raise of the program's own, never by the model's fuel.
pub get_chain-ne-out_of_fuel :
    (d : Dict String DelegationGrant) (id : String) (m : ℕ) → get_chain d id m ≢ err out_of_fuel
unfolding get_chain
get_chain-ne-out_of_fuel d id m =
    reversed-ne-out_of_fuel _
      (loop-ne-out_of_fuel d m (m + 2) (some id) [] [] (omega arith) (omega arith))

-- In a store that keeps each grant under its own id, `get_chain` returns a list exactly if it is
-- the parent chain of the id, root first, without repetition and of at most `m` grants.
pub get_chain_iff :
    (d : Dict String DelegationGrant) (id : String) (m : ℕ) (c : List DelegationGrant)
    → WellKeyed d
    → (get_chain d id m ≡ ok c) ↔ IsChain d id m c
unfolding get_chain
get_chain_iff d id m c keyed = (
  λ h.
      let (l, eq, walk, bound, fresh, distinct) =
        loop_sound d m (m + 2) (some id) [] [] (reverse c) keyed (omega arith)
          (reversed-eq-ok _ c h) in
      record {
        walk = subst (Lineage d (some id)) (sym eq) walk;
        distinct = subst (λ x. Distinct (ids x)) (sym eq) distinct;
        bounded = bound;
      },
  λ chain.
      let done =
        loop_complete d m (m + 2) (some id) [] [] (reverse c) keyed (found_nil d) chain.walk
          (Fresh-nil (ids (reverse c))) chain.distinct (omega (arith, chain.bounded))
          (omega (arith, chain.bounded)) in
      reversed-of-ok _ c done,
)

contains-reverse : (xs : List String) (a : String) → contains (reverse xs) a ≡ contains xs a
unfolding contains
contains-reverse [] a = refl
contains-reverse (x ∷ xs) a =
    rw (reverse-append (x ∷ []) xs, contains-append (reverse xs) (x ∷ []) a, contains-reverse xs a)
      (ground arith)

Distinct-append :
    (xs : List String) (a : String) → Distinct xs → contains xs a ≡ false → Distinct (xs ++ a ∷ [])
unfolding contains
Distinct-append [] a distinct h = (refl, tt)
Distinct-append (x ∷ xs) a distinct h = (
  ground (arith, contains-append xs (a ∷ []) x, eq_iff x a, eq_iff a x),
  Distinct-append xs a distinct.1 (ground arith),
)

Distinct-reverse : (xs : List String) → Distinct xs → Distinct (reverse xs)
Distinct-reverse [] distinct = tt
Distinct-reverse (x ∷ xs) distinct = rw (reverse-append (x ∷ []) xs) (
    Distinct-append (reverse xs) x (Distinct-reverse xs distinct.1)
      (contains-reverse xs x ∙ distinct.0))

ids-reverse : (c : List DelegationGrant) → ids (reverse c) ≡ reverse (ids c)
ids-reverse [] = refl
ids-reverse (g ∷ c) = rw (
  reverse-append (g ∷ []) c,
  map-append,
  ids-reverse c,
  ← reverse-append (g.delegation_id ∷ []) (ids c),
)

-- A chain as it is returned has no id twice either.
pub Distinct-get_chain :
    (d : Dict String DelegationGrant) (id : String) (m : ℕ) (c : List DelegationGrant)
    → WellKeyed d
    → get_chain d id m ≡ ok c
    → Distinct (ids c)
Distinct-get_chain d id m c keyed h =
    let chain = (get_chain_iff d id m c keyed).0 h in
    subst Distinct (reverse-reverse (ids c))
      (Distinct-reverse (reverse (ids c)) (subst Distinct (ids-reverse c) chain.distinct))

Lineage-stored :
    (d : Dict String DelegationGrant) {cur : Option String} {l : List DelegationGrant}
    → WellKeyed d
    → Lineage d cur l
    → All (λ g. get d g.delegation_id ≡ some g) l
Lineage-stored d keyed top = tt
Lineage-stored d keyed (dangling e) = tt
Lineage-stored d keyed (link {id = id} {g = g} e walk) =
    (ap (get d) (keyed id g e) ∙ e, Lineage-stored d keyed walk)

-- Every grant of a chain is the one that is stored under its id.
pub get_chain-stored :
    (d : Dict String DelegationGrant) (id : String) (m : ℕ) (c : List DelegationGrant)
    → WellKeyed d
    → get_chain d id m ≡ ok c
    → All (λ g. get d g.delegation_id ≡ some g) c
get_chain-stored d id m c keyed h =
    subst (All (λ g. get d g.delegation_id ≡ some g)) (reverse-reverse c) (
      All-reverse (λ g. get d g.delegation_id ≡ some g) (reverse c)
        (Lineage-stored d keyed ((get_chain_iff d id m c keyed).0 h).walk))
