-- ===== src/Persistence/Table/Memory.antt =====
-- A table in memory, whose statements fail only on a second row for a key: the laws can be met.
use espmic.Common.{
  ◌≡◌, Option, none, some, String, String_discrete, List, arith, sym, ap, if◌then◌else◌, same,
  Option-cases, inl, inr, some_inj, subst,
}
use espmic.Common.GoMap
use espmic.Persistence.Table.{Table, IsLawful, merged, changed}

module _ (R : Type 0) where
  abbrev find_in : List (String × R) → String → Option R
  find_in m k = GoMap.lookup String_discrete k m

  abbrev put : List (String × R) → String → R → List (String × R)
  put m k r = GoMap.insert String_discrete k r m

  abbrev insert_in : List (String × R) → String → R → Option (List (String × R))
  insert_in m k r = elim (find_in m k) [ none ↦ some (put m k r) | some old ↦ none ]

  abbrev update_in : List (String × R) → String → (R → R) → Option (List (String × R))
  update_in m k f = elim (find_in m k) [ none ↦ some m | some old ↦ some (put m k (f old)) ]

  abbrev pub memory : Table R
  memory = record {
    State = List (String × R);
    find = find_in;
    all = λ m. some m;
    upsert = λ m k r f. some (put m k (merged r f (find_in m k)));
    insert = insert_in;
    update = update_in;
  }

  find-put :
      (m : List (String × R)) (k j : String) (r : R)
      → find_in (put m k r) j ≡ (if same k j then some r else find_in m j)
  find-put m k j r = ground (arith, GoMap.lookup-insert String_discrete k j r m)

  find-insert :
      (s t : List (String × R)) (k j : String) (r : R)
      → insert_in s k r ≡ some t
      → find_in t j ≡ (if same k j then some r else find_in s j)
  find-insert s t k j r h = ground (arith, find-put s k j r)

  find-update :
      (s t : List (String × R)) (k j : String) (f : R → R)
      → update_in s k f ≡ some t
      → find_in t j ≡ (if same k j then changed f (find_in s k) else find_in s j)
  find-update s t k j f h = elim (Option-cases (find_in s k)) [
    | inl e ↦ ground (arith, String_discrete k j)
    | inr (old, e) ↦ ground (arith, find-put s k j (f old))
  ]

  find-upsert :
      (s t : List (String × R)) (k j : String) (r : R) (f : R → R)
      → Path (Option (List (String × R))) (some (put s k (merged r f (find_in s k)))) (some t)
      → find_in t j ≡ (if same k j then some (merged r f (find_in s k)) else find_in s j)
  find-upsert s t k j r f h =
      subst (λ x. find_in x j ≡ (if same k j then some (merged r f (find_in s k)) else find_in s j))
        (some_inj h) (find-put s k j (merged r f (find_in s k)))

  pub memory-IsLawful : IsLawful memory
  memory-IsLawful = record {
    find-upsert = λ s t k j r f h. find-upsert s t k j r f h;
    find-insert = λ s t k j r h. find-insert s t k j r h;
    find-update = λ s t k j f h. find-update s t k j f h;
    lookup-all = λ s rows k h. ap (λ m. GoMap.lookup String_discrete k m) (sym (some_inj h));
  }
