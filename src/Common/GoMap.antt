-- ===== src/Common/GoMap.antt =====
-- A Go `map[K]V` as an association list, newest key last. The order of the list stands for one
-- order in which `range` may visit the map.
use Prim.Native.Nat.{suc}
use mathlib.Core.Path.{◌≡◌, refl, subst, ap}
use mathlib.Core.Logic.{ite, if_pos, if_neg}
use mathlib.Core.List.{List, [], ◌∷◌, map, Perm}
use mathlib.Core.List.Perm
use mathlib.Core.Option.{Option, none, some}
use native.Mathlib.Omega.{arith}
use espmic.Common.Lists.{length, All}

pair_eq : {K V : Type 0} (i k : K) (w v : V) → i ≡ k → w ≡ v → Path (K × V) (i, w) (k, v)
pair_eq i k w v p q = λ t. (p t, q t)

module _ {K V : Type 0} (d : Discrete K) where
  -- `m[k]` with its presence flag.
  unfoldable pub lookup : K → List (K × V) → Option V
  lookup k [] = none
  lookup k ((j, v) ∷ m) = ite (d j k) (some v) (lookup k m)

  -- `m[k] = v`.
  unfoldable pub insert : K → V → List (K × V) → List (K × V)
  insert k v [] = (k, v) ∷ []
  insert k v ((j, w) ∷ m) = ite (d j k) ((k, v) ∷ m) ((j, w) ∷ insert k v m)

  -- `delete(m, k)`.
  unfoldable pub delete : K → List (K × V) → List (K × V)
  delete k [] = []
  delete k ((j, w) ∷ m) = let rest = delete k m in ite (d j k) rest ((j, w) ∷ rest)

  -- No key is bound twice, as in every Go map.
  abbrev pub Unique : List (K × V) → Type 0
  Unique [] = Unit {0}
  Unique ((k, v) ∷ m) = (lookup k m ≡ none) × Unique m

  pub lookup-insert :
      (k j : K) (v : V) (m : List (K × V))
      → lookup j (insert k v m) ≡ ite (d k j) (some v) (lookup j m)
  unfolding lookup insert
  lookup-insert k j v [] = refl
  lookup-insert k j v ((i, w) ∷ m) = ground (arith, lookup-insert k j v m, d i k, d i j, d k j)

  pub lookup-delete :
      (k j : K) (m : List (K × V)) → lookup j (delete k m) ≡ ite (d k j) none (lookup j m)
  unfolding lookup delete
  lookup-delete k j [] = ground (arith, d k j)
  lookup-delete k j ((i, w) ∷ m) = ground (arith, lookup-delete k j m, d i k, d i j, d k j)

  pub delete_absent : (k : K) (m : List (K × V)) → lookup k m ≡ none → delete k m ≡ m
  unfolding lookup delete
  delete_absent k [] h = refl
  delete_absent k ((i, w) ∷ m) h = ground (arith, delete_absent k m, d i k)

  pub length-delete :
      (k : K) (m : List (K × V)) (v : V)
      → Unique m
      → lookup k m ≡ some v
      → length m ≡ suc (length (delete k m))
  unfolding lookup delete
  length-delete k [] v u h = ground arith
  length-delete k ((i, w) ∷ m) v u h =
      ground (arith, length-delete k m v u.1, delete_absent k m, d i k)

  pub length-insert_absent :
      (k : K) (v : V) (m : List (K × V))
      → lookup k m ≡ none
      → length (insert k v m) ≡ suc (length m)
  unfolding lookup insert
  length-insert_absent k v [] h = refl
  length-insert_absent k v ((i, w) ∷ m) h = ground (arith, length-insert_absent k v m, d i k)

  pub delete-Unique : (k : K) (m : List (K × V)) → Unique m → Unique (delete k m)
  unfolding lookup delete
  delete-Unique k [] u = tt
  delete-Unique k ((i, w) ∷ m) u =
      ground (arith, delete-Unique k m u.1, lookup-delete k i m, d i k, d k i)

  pub insert-Unique : (k : K) (v : V) (m : List (K × V)) → Unique m → Unique (insert k v m)
  unfolding lookup insert
  insert-Unique k v [] u = (refl, tt)
  insert-Unique k v ((i, w) ∷ m) u =
      ground (arith, insert-Unique k v m u.1, lookup-insert k i v m, d i k, d k i)

  -- A predicate of all entries holds of what a lookup finds, and both updates keep it.
  pub All-lookup :
      (P : K × V → Type 0) (k : K) (m : List (K × V)) (v : V)
      → All P m
      → lookup k m ≡ some v
      → P (k, v)
  unfolding lookup
  All-lookup P k [] v a h = ground arith
  All-lookup P k ((i, w) ∷ m) v a h = elim (d i k) [
    | yes e ↦ subst P (ground arith) a.0
    | no ne ↦ All-lookup P k m v a.1 (ground arith)
  ]

  pub All-delete : (P : K × V → Type 0) (k : K) (m : List (K × V)) → All P m → All P (delete k m)
  unfolding delete
  All-delete P k [] a = tt
  All-delete P k ((i, w) ∷ m) a = elim (d i k) [
    | yes e ↦ rw (if_pos _ e) (All-delete P k m a.1)
    | no ne ↦ rw (if_neg _ ne) (a.0, All-delete P k m a.1)
  ]

  pub All-insert :
      (P : K × V → Type 0) (k : K) (v : V) (m : List (K × V))
      → P (k, v)
      → All P m
      → All P (insert k v m)
  unfolding insert
  All-insert P k v [] p a = (p, tt)
  All-insert P k v ((i, w) ∷ m) p a = elim (d i k) [
    | yes e ↦ rw (if_pos _ e) (p, a.1)
    | no ne ↦ rw (if_neg _ ne) (a.0, All-insert P k v m p a.1)
  ]

  -- What holds of everything that can be looked up holds of all entries.
  pub All-of_lookup :
      (P : K × V → Type 0) (m : List (K × V))
      → Unique m
      → ((k : K) (v : V) → lookup k m ≡ some v → P (k, v))
      → All P m
  unfolding lookup
  All-of_lookup P [] u h = tt
  All-of_lookup P ((k, v) ∷ m) u h =
      (h k v (ground arith), All-of_lookup P m u.1 (λ j w e. h j w (ground arith)))

  -- No entry of the deleted key is left.
  pub lookup-delete-some :
      (k j : K) (m : List (K × V)) (v : V)
      → lookup j (delete k m) ≡ some v
      → (lookup j m ≡ some v) × ¬ (k ≡ j)
  lookup-delete-some k j m v h =
      (ground (arith, lookup-delete k j m), λ e. ground (arith, lookup-delete k j m))

  -- The values stored are those of the deleted key and those left.
  pub delete-perm {κ} :
      {B : Type κ} (f : K × V → B) (k : K) (m : List (K × V)) (v : V)
      → Unique m
      → lookup k m ≡ some v
      → Perm (map f m) (f (k, v) ∷ map f (delete k m))
  unfolding lookup delete
  delete-perm f k [] v u h = absurd (cc)
  delete-perm f k ((i, w) ∷ m) v u h = elim (d i k) [
    | yes e ↦ rw (if_pos _ e) (
        rw (delete_absent k m (rw (← e) u.0))
          (Perm.cons' (ap f (pair_eq i k w v e (ground arith))) Perm.rfl))
    | no ne ↦ rw (if_neg _ ne) (
        Perm.trans (Perm.cons (f (i, w)) (delete-perm f k m v u.1 (ground arith)))
          (Perm.swap (f (k, v)) (f (i, w)) _))
  ]
