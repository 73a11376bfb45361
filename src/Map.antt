-- ===== src/Map.antt =====
-- `HashMap` and `DashMap` with text keys, as association lists: `get`, `insert`, `remove`,
-- `contains_key`, `len` and the keys. The order of the list stands for the unspecified order of
-- iteration.
use loophole.Base.{
  ◌≡◌, refl, ◌≢◌, inl, inr, Bool, Option, none, some, List, [], ◌∷◌, arith, if◌then◌else◌, is_some,
  Bool-cases, All,
}
use loophole.Text.{Text, ◌==◌}
use loophole.Text.Laws.{eq_iff, eq_refl}

abbrev pub Map {ℓ} : Type ℓ → Type ℓ
Map V = List (Text × V)

module _ {ℓ} {V : Type ℓ} where
  unfoldable pub get : Map V → Text → Option V
  get [] k = none
  get ((j, v) ∷ m) k = if j == k then some v else get m k

  unfoldable pub contains_key : Map V → Text → Bool
  unfolding get
  contains_key m k = is_some (get m k)

  unfoldable pub insert : Map V → Text → V → Map V
  insert [] k v = (k, v) ∷ []
  insert ((j, w) ∷ m) k v = if j == k then (k, v) ∷ m else (j, w) ∷ insert m k v

  unfoldable pub remove : Map V → Text → Map V
  remove [] k = []
  remove ((j, w) ∷ m) k = let rest = remove m k in if j == k then rest else (j, w) ∷ rest

  unfoldable pub keys : Map V → List Text
  keys [] = []
  keys ((j, w) ∷ m) = j ∷ keys m

  pub get-insert :
      (m : Map V) (k j : Text) (v : V) → get (insert m k v) j ≡ (if k == j then some v else get m j)
  unfolding get insert
  get-insert [] k j v = refl
  get-insert ((i, w) ∷ m) k j v =
      ground (arith, eq_iff k j, eq_iff i k, eq_iff i j, get-insert m k j v)

  pub get-remove :
      (m : Map V) (k j : Text) → get (remove m k) j ≡ (if k == j then none else get m j)
  unfolding get remove
  get-remove [] k j = ground arith
  get-remove ((i, w) ∷ m) k j = ground (arith, eq_iff k j, eq_iff i k, eq_iff i j, get-remove m k j)

  pub ruleset map_laws = (get-insert, get-remove, eq_refl)

  pub get-insert_self : (m : Map V) (k : Text) (v : V) → get (insert m k v) k ≡ some v
  get-insert_self m k v = simp map_laws

  pub get-remove_self : (m : Map V) (k : Text) → get (remove m k) k ≡ none
  get-remove_self m k = simp map_laws

module _ {ℓ} {V : Type ℓ} where
  -- An entry that is added under a new key and taken out again leaves the map as it was.
  pub remove-insert_fresh :
      (m : Map V) (k : Text) (v : V) → get m k ≡ none → remove (insert m k v) k ≡ m
  unfolding get insert remove
  remove-insert_fresh [] k v h = rw (eq_refl k) refl
  remove-insert_fresh ((j, w) ∷ m) k v h = ground (arith, remove-insert_fresh m k v)

-- The keys of a map are distinct.
abbrev pub Fresh : Text → List Text → Type 0
Fresh k = All (λ j. j ≢ k)

abbrev pub Distinct : List Text → Type 0
Distinct [] = Unit
Distinct (k ∷ ks) = Fresh k ks × Distinct ks

module _ {ℓ} {V : Type ℓ} where
  Fresh-remove : (m : Map V) (k j : Text) → Fresh j (keys m) → Fresh j (keys (remove m k))
  unfolding keys remove
  Fresh-remove [] k j h = tt
  Fresh-remove ((i, w) ∷ m) k j h = ground (arith, Fresh-remove m k j)

  pub Distinct-remove : (m : Map V) (k : Text) → Distinct (keys m) → Distinct (keys (remove m k))
  unfolding keys remove
  Distinct-remove [] k h = tt
  Distinct-remove ((i, w) ∷ m) k h = ground (arith, Distinct-remove m k h.1, Fresh-remove m k i h.0)

  Fresh-insert :
      (m : Map V) (k j : Text) (v : V) → k ≢ j → Fresh j (keys m) → Fresh j (keys (insert m k v))
  unfolding keys insert
  Fresh-insert [] k j v n h = (n, tt)
  Fresh-insert ((i, w) ∷ m) k j v n h = ground (arith, Fresh-insert m k j v n)

  pub Distinct-insert :
      (m : Map V) (k : Text) (v : V) → Distinct (keys m) → Distinct (keys (insert m k v))
  unfolding keys insert
  Distinct-insert [] k v h = (tt, tt)
  Distinct-insert ((i, w) ∷ m) k v h = elim (Bool-cases (i == k)) [
    | inl same ↦ rw (same, ← (eq_iff i k).0 same) h
    | inr other ↦
        rw other
          (Fresh-insert m k i v (λ e. ground (arith, eq_iff i k)) h.0, Distinct-insert m k v h.1)
  ]

  -- Every key that is listed is found, and the other way round.
  pub get-ne-none_of_keys : (m : Map V) → All (λ k. get m k ≢ none) (keys m)
  unfolding keys get
  get-ne-none_of_keys m = go m
    where
      grow :
          (m : Map V) (i : Text) (w : V) (ks : List Text)
          → All (λ k. get m k ≢ none) ks
          → All (λ k. get ((i, w) ∷ m) k ≢ none) ks
      grow m i w [] h = tt
      grow m i w (k ∷ ks) h = (ground arith, grow m i w ks h.1)

      go : (m : Map V) → All (λ k. get m k ≢ none) (keys m)
      go [] = tt
      go ((i, w) ∷ m) = (ground (arith, eq_refl i), grow m i w (keys m) (go m))
