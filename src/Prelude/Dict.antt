-- ===== src/Prelude/Dict.antt =====
-- JavaScript's `Map`, `Set` and plain objects, as association lists in insertion order.
use council.Prelude.Tests.{if◌then◌else◌, Key, ◌==◌}
use council.Prelude.Lists.{keep}
use mathlib.Core.Path.{◌≡◌, refl, ap}
use mathlib.Core.Bool.{Bool, true, false}
use mathlib.Core.Option.{Option, none, some}
use mathlib.Core.List.{List, [], ◌∷◌, ◌++◌}
use native.Mathlib.Omega.{arith}

abbrev pub Dict {ℓ κ} : Type ℓ → Type κ → Type (ℓ ⊔ κ)
Dict K V = List (K × V)

module _ {ℓ κ} {K : Type ℓ} {V : Type κ} ⦃e : Key K⦄ where
  -- `m.get(k)` and `m[k]`.
  unfoldable pub get : K → Dict K V → Option V
  get k [] = none
  get k ((j, v) ∷ m) = if j == k then some v else get k m

  -- `m.set(k, v)` and `{ ...m, [k]: v }`: a known key keeps its place.
  unfoldable pub set : K → V → Dict K V → Dict K V
  set k v [] = (k, v) ∷ []
  set k v ((j, w) ∷ m) = if j == k then (j, v) ∷ m else (j, w) ∷ set k v m

  -- `m.delete(k)`.
  unfoldable pub delete : K → Dict K V → Dict K V
  delete k [] = []
  delete k ((j, v) ∷ m) = if j == k then m else (j, v) ∷ delete k m

  pub get-set :
      (j k : K) (v : V) (m : Dict K V) → get j (set k v m) ≡ (if k == j then some v else get j m)
  unfolding get set
  get-set j k v [] = refl
  get-set j k v ((i, w) ∷ m) =
      ground (arith, e.equals_iff k j, e.equals_iff i k, e.equals_iff i j, get-set j k v m)

module _ {ℓ} {K : Type ℓ} ⦃e : Key K⦄ where
  -- `s.has(k)` and `s.includes(k)`.
  unfoldable pub has : K → List K → Bool
  has k [] = false
  has k (j ∷ s) = if j == k then true else has k s

  -- `s.add(k)`.
  unfoldable pub add : K → List K → List K
  unfolding has
  add k s = if has k s then s else s ++ k ∷ []

  pub has-append : (j : K) (s t : List K) → has j (s ++ t) ≡ (if has j s then true else has j t)
  unfolding has
  has-append j [] t = refl
  has-append j (k ∷ s) t = ground (arith, has-append j s t)

  has_of_eq : (j k : K) (s : List K) → k ≡ j → has k s ≡ has j s
  has_of_eq j k s h = ap (λ x. has x s) h

  pub has-add : (j k : K) (s : List K) → has j (add k s) ≡ (if k == j then true else has j s)
  unfolding add has
  has-add j k s = ground (arith, has-append j s (k ∷ []), has_of_eq j k s, e.equals_iff k j)

-- Each key at most once.
module _ {ℓ} {K : Type ℓ} ⦃e : Key K⦄ where
  abbrev pub IsDistinct : List K → Type 0
  IsDistinct [] = Unit {0}
  IsDistinct (k ∷ s) = (has k s ≡ false) × IsDistinct s

  has-keep : (k : K) (f : K → Bool) (s : List K) → has k s ≡ false → has k (keep f s) ≡ false
  unfolding has
  has-keep k f [] h = refl
  has-keep k f (j ∷ s) h = ground (arith, has-keep k f s)

  pub keep-IsDistinct : (f : K → Bool) (s : List K) → IsDistinct s → IsDistinct (keep f s)
  keep-IsDistinct f [] h = tt
  keep-IsDistinct f (j ∷ s) (h, hs) = ground (arith, has-keep j f s h, keep-IsDistinct f s hs)

  pub append-IsDistinct :
      (k : K) (s : List K) → has k s ≡ false → IsDistinct s → IsDistinct (s ++ k ∷ [])
  unfolding has
  append-IsDistinct k [] h d = (refl, tt)
  append-IsDistinct k (j ∷ s) h (d, ds) =
      ground
        (arith, has-append j s (k ∷ []), append-IsDistinct k s, e.equals_iff j k, e.equals_iff k j)
