-- ===== src/Dummies/Lookups.antt =====
-- About `find_dynamic_table_info` of hyper-fast-path/src/dummies.rs.
use hyper_fast_path.Prelude.{
  ℕ, true, false, List, [], ◌∷◌, Option, none, some, some_eq, none-some, ◌≡◌, refl, sym, ap, ◌∙◌,
  arith, Bool-cases, Option-cases, ◌⊎◌, inl, inr,
}
use hyper_fast_path.Prelude.Bytes.{Bytes, bytes_eq, bytes_eq_iff}
use hyper_fast_path.Dummies.Parsers.{
  LinkInfo, tracing, ProgInfo, Lookup, found, not_found, os_fails, dynamic_table_info, parsers,
  contains, find_map, find_prog, find_dynamic_table_info, Among, Among-next, Among-cases,
  parsers-linked, linked-parsers,
}

module _ (name_of : ℕ → Option Bytes) where
  -- A map has the name.
  abbrev pub IsNamed : ℕ → Type 0
  IsNamed id = name_of id ≡ some dynamic_table_info

  -- What the loop over maps means, before the rest of the search.
  abbrev MapsResult : List ℕ → Lookup → Lookup → Type 0
  MapsResult ids after (found id) = (Among id ids × IsNamed id) ⊎ (after ≡ found id)
  MapsResult ids after not_found = (after ≡ not_found) × ((id : ℕ) → Among id ids → IsNamed id → ⊥)
  MapsResult ids after os_fails = Unit {0}

  MapsResult-next :
      (id : ℕ) (ids : List ℕ) (after r : Lookup)
      → (IsNamed id → ⊥)
      → MapsResult ids after r
      → MapsResult (id ∷ ids) after r
  MapsResult-next id ids after (found j) n (inl (a, e)) = inl (Among-next j id ids a, e)
  MapsResult-next id ids after (found j) n (inr e) = inr e
  MapsResult-next id ids after not_found n (e, k) =
      (e, λ j a m. elim (Among-cases j id ids a) [ inl s ↦ n (rw (sym s) at m) | inr b ↦ k j b m ])
  MapsResult-next id ids after os_fails n h = tt

  find_map-MapsResult :
      (ids : List ℕ) (after : Lookup) → MapsResult ids after (find_map name_of ids after)
  unfolding find_map
  find_map-MapsResult [] (found j) = inr refl
  find_map-MapsResult [] not_found = (refl, λ id a m. absurd (none-some id a.1))
  find_map-MapsResult [] os_fails = tt
  find_map-MapsResult (id ∷ ids) after = elim (Option-cases (name_of id)) [
    | inl e ↦ rw (find_map, e) tt
    | inr (name, e) ↦ elim (Bool-cases (bytes_eq name dynamic_table_info)) [
      | inl y ↦
          rw (find_map, e, y)
            (inl ((0, refl), e ∙ ap some ((bytes_eq_iff name dynamic_table_info).0 y)))
      | inr n ↦
          rw (find_map, e, n)
            (MapsResult-next id ids after _ (other_name name e n) (find_map-MapsResult ids after))
    ]
  ]
    where
      other_name :
          (name : Bytes)
          → name_of id ≡ some name
          → bytes_eq name dynamic_table_info ≡ false
          → IsNamed id
          → ⊥
      other_name name e n m =
          let y =
            (bytes_eq_iff name dynamic_table_info).1
              (some_eq name dynamic_table_info (sym e ∙ m)) in
          ground (arith, n, y)

  -- What the loop over programs means, for those with these ids.
  abbrev ProgsResult : List ℕ → List ProgInfo → Lookup → Type 0
  ProgsResult ids progs (found id) =
      (prog : ProgInfo) × Among prog progs
      × (contains ids prog.id ≡ true)
      × Among id prog.map_ids
      × IsNamed id
  ProgsResult ids progs not_found =
      (prog : ProgInfo) (id : ℕ)
      → Among prog progs
      → contains ids prog.id ≡ true
      → Among id prog.map_ids
      → IsNamed id
      → ⊥
  ProgsResult ids progs os_fails = Unit {0}

  ProgsResult-later :
      (ids : List ℕ) (p : ProgInfo) (progs : List ProgInfo) (id : ℕ)
      → ProgsResult ids progs (found id)
      → ProgsResult ids (p ∷ progs) (found id)
  ProgsResult-later ids p progs id (prog, a, c, b, m) = (prog, Among-next prog p progs a, c, b, m)

  -- A program that is no parser, or whose maps are others, is passed over.
  ProgsResult-next :
      (ids : List ℕ) (p : ProgInfo) (progs : List ProgInfo) (r : Lookup)
      → (contains ids p.id ≡ true → (id : ℕ) → Among id p.map_ids → IsNamed id → ⊥)
      → ProgsResult ids progs r
      → ProgsResult ids (p ∷ progs) r
  ProgsResult-next ids p progs (found j) n h = ProgsResult-later ids p progs j h
  ProgsResult-next ids p progs not_found n k = λ prog id a c b m.
      elim (Among-cases prog p progs a) [
        | inl s ↦ n (rw (sym s) at c) id (rw (sym s) at b) m
        | inr d ↦ k prog id d c b m
      ]
  ProgsResult-next ids p progs os_fails n h = tt

  maps_in_progs :
      (ids : List ℕ) (p : ProgInfo) (progs : List ProgInfo) (after r : Lookup)
      → contains ids p.id ≡ true
      → MapsResult p.map_ids after r
      → ProgsResult ids progs after
      → ProgsResult ids (p ∷ progs) r
  maps_in_progs ids p progs after (found j) c (inl (a, m)) h = (p, (0, refl), c, a, m)
  maps_in_progs ids p progs after (found j) c (inr e) h =
      ProgsResult-later ids p progs j (rw e at h)
  maps_in_progs ids p progs after not_found c (e, k) h =
      ProgsResult-next ids p progs not_found (λ u. k) (rw e at h)
  maps_in_progs ids p progs after os_fails c u h = tt

  find_prog-ProgsResult :
      (ids : List ℕ) (progs : List ProgInfo) → ProgsResult ids progs (find_prog name_of ids progs)
  unfolding find_prog
  find_prog-ProgsResult ids [] = λ prog id a. absurd (none-some prog a.1)
  find_prog-ProgsResult ids (p ∷ progs) = elim (Bool-cases (contains ids p.id)) [
    | inr n ↦ rw n (
        ProgsResult-next ids p progs _ (λ c. absurd (ground (arith, n, c)))
          (find_prog-ProgsResult ids progs))
    | inl y ↦ rw y (
        maps_in_progs ids p progs (find_prog name_of ids progs) _ y
          (find_map-MapsResult p.map_ids (find_prog name_of ids progs))
          (find_prog-ProgsResult ids progs))
  ]

  -- What a search means, for the program of this id.
  abbrev pub IsLookup : Option ℕ → List LinkInfo → List ProgInfo → Lookup → Type 0
  IsLookup target links progs (found id) =
      (prog : ProgInfo) × Among prog progs
      × ((t : ℕ) × (target ≡ some t) × Among (tracing t prog.id) links)
      × Among id prog.map_ids
      × IsNamed id
  IsLookup target links progs not_found =
      (t : ℕ) (prog : ProgInfo) (id : ℕ)
      → target ≡ some t
      → Among prog progs
      → Among (tracing t prog.id) links
      → Among id prog.map_ids
      → IsNamed id
      → ⊥
  IsLookup target links progs os_fails = Unit {0}

  as_lookup :
      (target : ℕ) (links : List LinkInfo) (progs : List ProgInfo) (r : Lookup)
      → ProgsResult (parsers target links) progs r
      → IsLookup (some target) links progs r
  as_lookup target links progs (found id) (prog, a, c, b, m) =
      (prog, a, (target, refl, parsers-linked target links prog.id c), b, m)
  as_lookup target links progs not_found h = λ t prog id e a l.
      h prog id a (linked-parsers target links prog.id (rw (sym (some_eq target t e)) at l))
  as_lookup target links progs os_fails h = tt

  -- A map that is found has the name `dynamic_table_i` and belongs to a program that is linked to the
  -- given one; if none is found, then no map of a program linked to it has that name.
  pub find_dynamic_table_info-IsLookup :
      (target : Option ℕ) (links : List LinkInfo) (progs : List ProgInfo)
      → IsLookup target links progs (find_dynamic_table_info target links progs name_of)
  unfolding find_dynamic_table_info
  find_dynamic_table_info-IsLookup none links progs = tt
  find_dynamic_table_info-IsLookup (some target) links progs =
      as_lookup target links progs _ (find_prog-ProgsResult (parsers target links) progs)
