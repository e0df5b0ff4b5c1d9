-- ===== src/Evaluation/Totality.antt =====
-- On an artifact with a well-formed reference the evaluation raises nothing but the refusal of
-- foreign readings (src/smart_factory/infrastructure/ml/isolation_forest.py).
use smart_factory_monitor.Common.{
  ℕ, zero, suc, ◌+◌, ◌≤◌, ◌<◌, String, ◌≡◌, refl, List, [], ◌∷◌, map, All, true, All-map, some,
  length, arith, Result, ok, sym, ◌∙◌,
}
use smart_factory_monitor.Telemetry.Reading.{Floats, TelemetryReading}
use smart_factory_monitor.Evaluation.Evaluator.{
  Arithmetic, FeatureReferenceDistribution, EvaluationError, increment, zeros, get_elem?, features,
  bisect_right, bin_counts, distribution, psi_term, at_least_epsilon, psi_sum,
  population_stability_index, column, feature_psi_from,
}

-- A value comes back.
abbrev pub Returns : {A : Type 0} → Result EvaluationError A → Type 0
Returns {A = A} r = (x : A) × (r ≡ ok x)

-- What `_validate_reference_distribution` has checked: one proportion more than edges, all finite.
pub record IsReference {F : Type 0} (f : Floats F) (x : String × FeatureReferenceDistribution F)
    : Type 0 where
  pub sizes : length x.1.proportions ≡ suc (length x.1.bin_edges)
  pub finite : All (λ p. f.is_finite p ≡ true) x.1.proportions

-- The share of some values over a finite proportion, both raised to epsilon, has a logarithm.
pub record HasLogarithms {F : Type 0} (a : Arithmetic F) : Type 0 where
  pub defined :
      (p : F) (n m : ℕ)
      → a.floats.is_finite p ≡ true
      → n ≤ m
      → 1 ≤ m
      → (y : F) × (a.log (
            a.div
              (at_least_epsilon a (a.div (a.floats.of_int n) (a.floats.of_int m)))
              (at_least_epsilon a p))
          ≡ some y)

length-increment : (i : ℕ) (ns : List ℕ) → length (increment i ns) ≡ length ns
unfolding increment
length-increment i [] = refl
length-increment zero (n ∷ ns) = refl
length-increment (suc i) (n ∷ ns) = ground (arith, length-increment i ns)

length-zeros : (n : ℕ) → length (zeros n) ≡ n
unfolding zeros
length-zeros zero = refl
length-zeros (suc n) = ground (arith, length-zeros n)

abbrev Bounded : ℕ → List ℕ → Type 0
Bounded k ns = All (λ n. n ≤ k) ns

Bounded-increment : (k i : ℕ) (ns : List ℕ) → Bounded k ns → Bounded (suc k) (increment i ns)
unfolding increment
Bounded-increment k i [] h = tt
Bounded-increment k zero (n ∷ ns) h = (omega (arith, h.0), All-map (λ m p. omega (arith, p)) ns h.1)
Bounded-increment k (suc i) (n ∷ ns) h = (omega (arith, h.0), Bounded-increment k i ns h.1)

Bounded-zeros : (n : ℕ) → Bounded 0 (zeros n)
unfolding zeros
Bounded-zeros zero = tt
Bounded-zeros (suc n) = (omega arith, Bounded-zeros n)

module _ {F : Type 0} (a : Arithmetic F) where
  length-bin_counts : (edges xs : List F) → length (bin_counts a edges xs) ≡ suc (length edges)
  unfolding bin_counts
  length-bin_counts edges [] = length-zeros (suc (length edges))
  length-bin_counts edges (x ∷ xs) =
      rw (length-increment (bisect_right a edges x) (bin_counts a edges xs))
        (length-bin_counts edges xs)

  -- No bin counts more values than there are.
  Bounded-bin_counts : (edges xs : List F) → Bounded (length xs) (bin_counts a edges xs)
  unfolding bin_counts
  Bounded-bin_counts edges [] = Bounded-zeros (suc (length edges))
  Bounded-bin_counts edges (x ∷ xs) =
      Bounded-increment (length xs) (bisect_right a edges x) (bin_counts a edges xs)
        (Bounded-bin_counts edges xs)

  abbrev share : ℕ → ℕ → F
  share m n = a.div (a.floats.of_int n) (a.floats.of_int m)

  module _ (logs : HasLogarithms a) where
    Returns-psi_term :
        (p : F) (n m : ℕ)
        → a.floats.is_finite p ≡ true
        → n ≤ m
        → 1 ≤ m
        → Returns (psi_term a p (share m n))
    unfolding psi_term
    Returns-psi_term p n m f h k =
        let (y, e) = logs.defined p n m f h k in
        (a.mul (a.floats.sub (at_least_epsilon a (share m n)) (at_least_epsilon a p)) y, rw e refl)

    Returns-psi_sum :
        (m : ℕ)
        → 1 ≤ m
        → (xs : List F) (counts : List ℕ) (total : F) → length xs ≡ length counts
        → All (λ p. a.floats.is_finite p ≡ true) xs
        → Bounded m counts
        → Returns (psi_sum a total xs (map (share m) counts))
    unfolding psi_sum
    Returns-psi_sum m k [] [] total h f b = (total, refl)
    Returns-psi_sum m k (x ∷ xs) (n ∷ counts) total h f b =
        let (t, e) = Returns-psi_term x n m f.0 b.0 k in
        let (y, q) =
          Returns-psi_sum m k xs counts (a.floats.add total t) (omega (arith, h)) f.1 b.1 in
        (y, rw e q)
    Returns-psi_sum m k [] (n ∷ counts) total h f b = absurd (omega (arith, h))
    Returns-psi_sum m k (x ∷ xs) [] total h f b = absurd (omega (arith, h))

    Returns-index :
        (x : String × FeatureReferenceDistribution F) (values : List F)
        → IsReference a.floats x
        → Returns (population_stability_index a x.1 values)
    unfolding population_stability_index distribution
    Returns-index x [] h = (a.floats.of_int 0, refl)
    Returns-index x (v ∷ vs) h =
        Returns-psi_sum (length (v ∷ vs)) (omega arith) x.1.proportions
          (bin_counts a x.1.bin_edges (v ∷ vs)) (a.floats.of_int 0)
          (h.sizes ∙ sym (length-bin_counts x.1.bin_edges (v ∷ vs))) h.finite
          (Bounded-bin_counts x.1.bin_edges (v ∷ vs))

  Returns-feature : (i : ℕ) (r : TelemetryReading F) → i < 4 → Returns (get_elem? i (features a r))
  unfolding get_elem? features
  Returns-feature zero r h = (_, refl)
  Returns-feature (suc zero) r h = (_, refl)
  Returns-feature (suc (suc zero)) r h = (_, refl)
  Returns-feature (suc (suc (suc zero))) r h = (_, refl)
  Returns-feature (suc (suc (suc (suc i)))) r h = absurd (omega (arith, h))

  Returns-column :
      (i : ℕ) (readings : List (TelemetryReading F))
      → i < 4
      → Returns (column a i (map (features a) readings))
  unfolding column
  Returns-column i [] h = ([], refl)
  Returns-column i (r ∷ readings) h =
      let (x, p) = Returns-feature i r h in
      let (xs, q) = Returns-column i readings h in (x ∷ xs, rw (p, q) refl)

  pub Returns-feature_psi_from :
      (logs : HasLogarithms a) (i : ℕ) (references : List (String × FeatureReferenceDistribution F))
      (readings : List (TelemetryReading F))
      → i + length references ≤ 4
      → All (IsReference a.floats) references
      → Returns (feature_psi_from a i references (map (features a) readings))
  unfolding feature_psi_from
  Returns-feature_psi_from logs i [] readings h g = ([], refl)
  Returns-feature_psi_from logs i (x ∷ references) readings h g =
      let (values, p) = Returns-column i readings (omega (arith, h)) in
      let (psi, q) = Returns-index logs x values g.0 in
      let (others, r) =
        Returns-feature_psi_from logs (suc i) references readings (omega (arith, h)) g.1 in
      ((x.0, psi) ∷ others, rw (p, q, r) refl)
