-- ===== src/Map/Laws.antt =====
-- What a client of the map relies on.
use nyse_pillar_market_data.Prelude.{
  ℕ, ◌+◌, ◌≤◌, ◌≡◌, refl, [], ◌∷◌, none, some, Eq, if◌then◌else◌, arith, true, false,
}
use nyse_pillar_market_data.Map.{
  Map, find, get_or, assign, erase, IsDistinct, AllValues, sum_values,
}

pub beq_refl {ℓ} : {K : Type ℓ} ⦃e : Eq K⦄ (k : K) → e.beq k k ≡ true
beq_refl ⦃e⦄ k = (e.beq_iff k k).1 refl

module _ {ℓ κ} {K : Type ℓ} {V : Type κ} ⦃e : Eq K⦄ where
  pub find-assign :
      (k j : K) (v : V) (m : Map K V)
      → find j (assign k v m) ≡ (if e.beq k j then some v else find j m)
  unfolding find assign
  find-assign k j v [] = refl
  find-assign k j v ((i, w) ∷ m) =
      ground (arith, e.beq_iff k j, e.beq_iff i k, e.beq_iff i j, find-assign k j v m)

  pub get_or-assign :
      (k j : K) (v d : V) (m : Map K V)
      → get_or j d (assign k v m) ≡ (if e.beq k j then v else get_or j d m)
  get_or-assign k j v d m = ground (arith, find-assign k j v m)

  pub get_or-assign_self : (k : K) (v d : V) (m : Map K V) → get_or k d (assign k v m) ≡ v
  get_or-assign_self k v d m = ground (arith, get_or-assign k k v d m, beq_refl k)

  pub assign-assign : (k : K) (v w : V) (m : Map K V) → assign k w (assign k v m) ≡ assign k w m
  unfolding assign
  assign-assign k v w [] = ground (arith, beq_refl k)
  assign-assign k v w ((i, u) ∷ m) = ground (arith, assign-assign k v w m)

  pub find-erase_ne : (k j : K) (m : Map K V) → e.beq k j ≡ false → find j (erase k m) ≡ find j m
  unfolding find erase
  find-erase_ne k j [] h = refl
  find-erase_ne k j ((i, w) ∷ m) h =
      ground (arith, e.beq_iff k j, e.beq_iff i k, e.beq_iff i j, find-erase_ne k j m)

  pub find-erase_self : (k : K) (m : Map K V) → IsDistinct m → find k (erase k m) ≡ none
  unfolding find erase
  find-erase_self k [] d = refl
  find-erase_self k ((i, w) ∷ m) d = ground (arith, e.beq_iff i k, find-erase_self k m d.1)

  pub erase-assign_new :
      (k : K) (v : V) (m : Map K V) → find k m ≡ none → erase k (assign k v m) ≡ m
  unfolding find assign erase
  erase-assign_new k v [] h = ground (arith, beq_refl k)
  erase-assign_new k v ((i, w) ∷ m) h = ground (arith, erase-assign_new k v m)

  -- There is nothing to erase.
  pub erase-eq_self : (k : K) (m : Map K V) → find k m ≡ none → erase k m ≡ m
  unfolding find erase
  erase-eq_self k [] h = refl
  erase-eq_self k ((i, w) ∷ m) h = ground (arith, erase-eq_self k m)

  find-erase-none : (k j : K) (m : Map K V) → find j m ≡ none → find j (erase k m) ≡ none
  unfolding find erase
  find-erase-none k j [] h = refl
  find-erase-none k j ((i, w) ∷ m) h = ground (arith, find-erase-none k j m)

  pub assign-IsDistinct : (k : K) (v : V) (m : Map K V) → IsDistinct m → IsDistinct (assign k v m)
  unfolding find assign
  assign-IsDistinct k v [] d = (refl, tt)
  assign-IsDistinct k v ((i, w) ∷ m) d =
      ground (arith, assign-IsDistinct k v m d.1, find-assign k i v m, e.beq_iff i k, e.beq_iff k i)

  pub erase-IsDistinct : (k : K) (m : Map K V) → IsDistinct m → IsDistinct (erase k m)
  unfolding erase
  erase-IsDistinct k [] d = tt
  erase-IsDistinct k ((i, w) ∷ m) d =
      ground (arith, erase-IsDistinct k m d.1, find-erase-none k i m)

  module _ {ι} (P : V → Type ι) where
    pub assign-AllValues :
        (k : K) (v : V) (m : Map K V) → P v → AllValues P m → AllValues P (assign k v m)
    unfolding assign
    assign-AllValues k v [] p h = (p, tt)
    assign-AllValues k v ((i, w) ∷ m) p h = ground (arith, assign-AllValues k v m p h.1)

    pub erase-AllValues : (k : K) (m : Map K V) → AllValues P m → AllValues P (erase k m)
    unfolding erase
    erase-AllValues k [] h = tt
    erase-AllValues k ((i, w) ∷ m) h = ground (arith, erase-AllValues k m h.1)

    pub find-AllValues : (k : K) (m : Map K V) {v : V} → AllValues P m → find k m ≡ some v → P v
    unfolding find
    find-AllValues k [] {v} h q = ground arith
    find-AllValues k ((i, w) ∷ m) {v} h q = ground (arith, find-AllValues k m {v = v} h.1)

  module _ (f : V → ℕ) where
    pub sum_values-erase :
        (k : K) (m : Map K V) {v : V}
        → find k m ≡ some v
        → sum_values f m ≡ sum_values f (erase k m) + f v
    unfolding find erase sum_values
    sum_values-erase k [] {v} h = ground arith
    sum_values-erase k ((i, w) ∷ m) {v} h = ground (arith, sum_values-erase k m {v = v})

    pub sum_values-assign_new :
        (k : K) (v : V) (m : Map K V)
        → find k m ≡ none
        → sum_values f (assign k v m) ≡ sum_values f m + f v
    unfolding find assign sum_values
    sum_values-assign_new k v [] h = omega arith
    sum_values-assign_new k v ((i, w) ∷ m) h = ground (arith, sum_values-assign_new k v m)

    pub sum_values-assign_old :
        (k : K) (v : V) (m : Map K V) {w : V}
        → find k m ≡ some w
        → sum_values f (assign k v m) ≡ sum_values f (erase k m) + f v
    unfolding find assign erase sum_values
    sum_values-assign_old k v [] {w = o} h = ground arith
    sum_values-assign_old k v ((i, w) ∷ m) {w = o} h =
        ground (arith, sum_values-assign_old k v m {w = o})

pub AllValues-mono {ℓ κ ι ι'} :
    {K : Type ℓ} {V : Type κ} (P : V → Type ι) (Q : V → Type ι') (m : Map K V)
    → ((v : V) → P v → Q v)
    → AllValues P m
    → AllValues Q m
AllValues-mono P Q [] f h = tt
AllValues-mono P Q ((k, v) ∷ m) f h = (f v h.0, AllValues-mono P Q m f h.1)

pub AllValues-zip {ℓ κ ι ι' ι''} :
    {K : Type ℓ} {V : Type κ} (P : V → Type ι) (Q : V → Type ι') (R : V → Type ι'') (m : Map K V)
    → ((v : V) → P v → Q v → R v)
    → AllValues P m
    → AllValues Q m
    → AllValues R m
AllValues-zip P Q R [] f h g = tt
AllValues-zip P Q R ((k, v) ∷ m) f h g = (f v h.0 g.0, AllValues-zip P Q R m f h.1 g.1)

-- A value measures no more than all of them.
pub le-sum_values {ℓ κ ι} :
    {K : Type ℓ} {V : Type κ} {I : Type ι} (f : I → V → ℕ) (m : Map K V)
    → AllValues (λ v. (i : I) → f i v ≤ sum_values (f i) m) m
unfolding sum_values
le-sum_values f [] = tt
le-sum_values f ((k, v) ∷ m) = (
  λ i. omega arith,
  AllValues-mono (λ w. (i : _) → f i w ≤ sum_values (f i) m) _ m (λ w h i. omega (arith, h i))
      (le-sum_values f m),
)
