-- ===== src/Common/Maps.antt =====
-- A Go map or sync.Map with text keys, as an association list. No order of the entries is used
-- unless a definition says so.
use mathlib.Core.Path.{◌≡◌, refl}
use mathlib.Core.Option.{Option, none, some}
use mathlib.Core.List.{List, [], ◌∷◌}
use native.Mathlib.Omega.{arith}
use buildpulse_mcp.Common.Tests.{if◌then◌else◌}
use buildpulse_mcp.Common.Texts.{Text, ◌==◌, eq_iff, eq_refl}

abbrev pub Map {ℓ} : Type ℓ → Type ℓ
Map V = List (Text × V)

module _ {ℓ} {V : Type ℓ} where
  -- m[k], with the flag of the two-value form
  unfoldable pub get : Map V → Text → Option V
  get [] k = none
  get ((j, v) ∷ m) k = if j == k then some v else get m k

  -- delete(m, k)
  unfoldable pub delete : Map V → Text → Map V
  delete [] k = []
  delete ((j, v) ∷ m) k = let rest = delete m k in if j == k then rest else (j, v) ∷ rest

  -- m[k] = v
  unfoldable pub put : Map V → Text → V → Map V
  unfolding delete
  put m k v = (k, v) ∷ delete m k

  pub get-delete :
      (m : Map V) (k j : Text) → get (delete m k) j ≡ (if k == j then none else get m j)
  unfolding get delete
  get-delete [] k j = ground arith
  get-delete ((i, v) ∷ m) k j = ground (arith, get-delete m k j, eq_iff i k, eq_iff i j, eq_iff k j)

  pub get-put :
      (m : Map V) (k j : Text) (v : V) → get (put m k v) j ≡ (if k == j then some v else get m j)
  unfolding get put
  get-put m k j v = ground (arith, get-delete m k j)

pub get-empty {ℓ} : {V : Type ℓ} (k : Text) → get {V = V} [] k ≡ none
unfolding get
get-empty k = refl

pub ruleset map_laws = (get-empty, get-delete, get-put)

-- What `f` makes of an entry: `none` drops it.
abbrev pub bind {ℓ} : {A B : Type ℓ} → Option A → (A → Option B) → Option B
bind none f = none
bind (some a) f = f a

module _ {ℓ} {V : Type ℓ} where
  abbrev pub HasDistinctKeys : Map V → Type ℓ
  HasDistinctKeys [] = Unit
  HasDistinctKeys ((k, v) ∷ m) = (get m k ≡ none) × HasDistinctKeys m

  abbrev keep : Text → Option V → Map V → Map V
  keep k none m = m
  keep k (some v) m = (k, v) ∷ m

  -- A loop over the map that changes or deletes the entry it stands at.
  unfoldable pub sweep : (V → Option V) → Map V → Map V
  sweep f [] = []
  sweep f ((k, v) ∷ m) = keep k (f v) (sweep f m)

  pub get-sweep :
      (f : V → Option V) (m : Map V) (k : Text)
      → HasDistinctKeys m
      → get (sweep f m) k ≡ bind (get m k) f
  unfolding get sweep
  get-sweep f [] k d = refl
  get-sweep f ((j, v) ∷ m) k (fresh, d) = ground (arith, get-sweep f m k d, eq_iff j k)

  pub delete-HasDistinctKeys :
      (m : Map V) (k : Text) → HasDistinctKeys m → HasDistinctKeys (delete m k)
  unfolding delete
  delete-HasDistinctKeys [] k d = tt
  delete-HasDistinctKeys ((j, v) ∷ m) k (fresh, d) =
      ground (arith, delete-HasDistinctKeys m k d, get-delete m k j)

  pub put-HasDistinctKeys :
      (m : Map V) (k : Text) (v : V) → HasDistinctKeys m → HasDistinctKeys (put m k v)
  unfolding put
  put-HasDistinctKeys m k v d =
      ground (arith, delete-HasDistinctKeys m k d, get-delete m k k, eq_refl k)

  pub sweep-HasDistinctKeys :
      (f : V → Option V) (m : Map V) → HasDistinctKeys m → HasDistinctKeys (sweep f m)
  unfolding sweep
  sweep-HasDistinctKeys f [] d = tt
  sweep-HasDistinctKeys f ((j, v) ∷ m) (fresh, d) =
      ground (arith, sweep-HasDistinctKeys f m d, get-sweep f m j d)
