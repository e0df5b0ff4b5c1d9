-- ===== src/Storage/History/Window.antt =====
-- The readings that `load_readings_since` returns: of the machine, in the window, in order, and not
-- more than asked for.
use smart_factory_monitor.Common.{
  ℕ, zero, suc, ◌≤◌, ◌<◌, String, Bool, true, false, ◌&&◌, ◌≡◌, refl, inl, inr, List, [], ◌∷◌, All,
  all, take, length, length-take, arith, leb, ltb, str_eq, eq_iff, Bool-cases, ok, Result-cases,
  bind_inversion,
}
use smart_factory_monitor.Telemetry.Reading.{Floats, TelemetryReading, validate_reading}
use smart_factory_monitor.Storage.{ReadingRow}
use smart_factory_monitor.Storage.Repository.{Repository, insert_by_time, select_readings}
use smart_factory_monitor.Storage.History.{
  reading_of_row, readings_from_rows, load_readings, load_readings_since,
}

module _ {F : Type 0} where
  -- No row is later than the one before it.
  descending : List (ReadingRow F) → Bool
  descending [] = true
  descending (row ∷ rows) =
      all (λ (x : ReadingRow F). leb x.recorded_at row.recorded_at) rows && descending rows

  abbrev pub latest_first : List (TelemetryReading F) → Bool
  latest_first [] = true
  latest_first (r ∷ rs) =
      all (λ (x : TelemetryReading F). leb x.timestamp.instant r.timestamp.instant) rs
      && latest_first rs

  abbrev selected : (ℕ → Bool) → String → ReadingRow F → Bool
  selected recent machine_id row = str_eq row.machine_id machine_id && recent row.recorded_at

  all-insert_by_time :
      (p : ReadingRow F → Bool) (row : ReadingRow F) (rows : List (ReadingRow F))
      → all p (insert_by_time row rows) ≡ (p row && all p rows)
  unfolding insert_by_time
  all-insert_by_time p row [] = refl
  all-insert_by_time p row (other ∷ rest) =
      elim (Bool-cases (leb other.recorded_at row.recorded_at)) [
        | inl e ↦ rw e
        | inr e ↦ rw e (ground (arith, all-insert_by_time p row rest))
      ]

  all-weaken :
      (a b : ℕ) (rows : List (ReadingRow F))
      → a ≤ b
      → all (λ (x : ReadingRow F). leb x.recorded_at a) rows ≡ true
      → all (λ (x : ReadingRow F). leb x.recorded_at b) rows ≡ true
  all-weaken a b [] h k = refl
  all-weaken a b (row ∷ rows) h k = ground (arith, h, k, all-weaken a b rows h)

  descending-insert_by_time :
      (row : ReadingRow F) (rows : List (ReadingRow F))
      → descending rows ≡ true
      → descending (insert_by_time row rows) ≡ true
  unfolding descending insert_by_time
  descending-insert_by_time row [] h = refl
  descending-insert_by_time row (other ∷ rest) h =
      elim (Bool-cases (leb other.recorded_at row.recorded_at)) [
        | inl e ↦ rw e (ground (arith, e, h, all-weaken other.recorded_at row.recorded_at rest))
        | inr e ↦ rw e (
            ground (
              arith,
              e,
              h,
              descending-insert_by_time row rest,
              all-insert_by_time (λ (x : ReadingRow F). leb x.recorded_at other.recorded_at) row
                  rest,
            ))
      ]

  module _ (recent : ℕ → Bool) (machine_id : String) where
    select_readings-selected :
        (rows : List (ReadingRow F))
        → (all (selected recent machine_id) (select_readings recent machine_id rows) ≡ true)
          × (descending (select_readings recent machine_id rows) ≡ true)
    unfolding select_readings
    select_readings-selected [] = (refl, unfold descending in refl)
    select_readings-selected (row ∷ rows) =
        let ih = select_readings-selected rows in
        let rest = select_readings recent machine_id rows in
        elim (Bool-cases (selected recent machine_id row)) [
          | inr e ↦ rw e ih
          | inl e ↦ rw e (
            ground (arith, e, ih, all-insert_by_time (selected recent machine_id) row rest),
            descending-insert_by_time row rest ih.1,
          )
        ]

  all-take :
      (p : ReadingRow F → Bool) (n : ℕ) (rows : List (ReadingRow F))
      → all p rows ≡ true
      → all p (take n rows) ≡ true
  all-take p zero rows h = refl
  all-take p (suc n) [] h = refl
  all-take p (suc n) (row ∷ rows) h = ground (arith, h, all-take p n rows)

  descending-take :
      (n : ℕ) (rows : List (ReadingRow F))
      → descending rows ≡ true
      → descending (take n rows) ≡ true
  unfolding descending
  descending-take zero rows h = refl
  descending-take (suc n) [] h = refl
  descending-take (suc n) (row ∷ rows) h = ground (
    arith,
    h,
    descending-take n rows,
    all-take (λ (x : ReadingRow F). leb x.recorded_at row.recorded_at) n rows,
  )

module _ {F : Type 0} (f : Floats F) where
  -- A valid reading of this machine after this instant.
  pub record IsWithin (machine_id : String) (since : ℕ) (r : TelemetryReading F) : Type 0 where
    pub machine : r.machine_id ≡ machine_id
    pub later : since < r.timestamp.instant
    pub valid : validate_reading f r ≡ ok r

  validate_reading-same : (r q : TelemetryReading F) → validate_reading f r ≡ ok q → q ≡ r
  unfolding validate_reading
  validate_reading-same r q h = ground (arith, h)

  all-readings_from_rows :
      (b : ℕ) (rows : List (ReadingRow F)) (rs : List (TelemetryReading F))
      → readings_from_rows f rows ≡ ok rs
      → all (λ (x : ReadingRow F). leb x.recorded_at b) rows ≡ true
      → all (λ (x : TelemetryReading F). leb x.timestamp.instant b) rs ≡ true
  unfolding readings_from_rows
  all-readings_from_rows b [] rs h k = let same : rs ≡ [] = ground (arith, h) in rw same refl
  all-readings_from_rows b (row ∷ rows) rs h k =
      let (r, p, h1) = bind_inversion (validate_reading f (reading_of_row f row)) _ rs h in
      let (later, q, h2) = bind_inversion (readings_from_rows f rows) _ rs h1 in
      let same : rs ≡ r ∷ later = ground (arith, h2) in
      let read = validate_reading-same (reading_of_row f row) r p in
      rw same (rw read (ground (arith, k, all-readings_from_rows b rows later q)))

  readings_from_rows-IsWithin :
      (machine_id : String) (since : ℕ) (rows : List (ReadingRow F))
      (rs : List (TelemetryReading F))
      → readings_from_rows f rows ≡ ok rs
      → all (selected (λ at. ltb since at) machine_id) rows ≡ true
      → descending rows ≡ true
      → All (IsWithin machine_id since) rs × (latest_first rs ≡ true) × (length rs ≡ length rows)
  unfolding readings_from_rows descending
  readings_from_rows-IsWithin machine_id since [] rs h k d =
      let same : rs ≡ [] = ground (arith, h) in rw same (tt, refl, refl)
  readings_from_rows-IsWithin machine_id since (row ∷ rows) rs h k d =
      let (r, p, h1) = bind_inversion (validate_reading f (reading_of_row f row)) _ rs h in
      let (later, q, h2) = bind_inversion (readings_from_rows f rows) _ rs h1 in
      let same : rs ≡ r ∷ later = ground (arith, h2) in
      let read = validate_reading-same (reading_of_row f row) r p in
      let (within, ordered, count) =
        readings_from_rows-IsWithin machine_id since rows later q (ground (arith, k))
          (ground (arith, d)) in
      let first : IsWithin machine_id since (reading_of_row f row) = record {
        machine = ground (arith, k, eq_iff row.machine_id machine_id);
        later = ground (arith, k);
        valid = rw read at p;
      } in
      let bounded = all-readings_from_rows row.recorded_at rows later q (ground (arith, d)) in
      rw same (rw read ((first, within), ground (arith, bounded, ordered), ground (arith, count)))

  -- When `load_readings_since` returns: its readings are valid, of the machine, and later than the
  -- given instant, the latest comes first, and there are at most `limit` of them.
  pub load_readings_since-IsWithin :
      (since : ℕ) (fault : Bool) (machine_id : String) (limit : ℕ) (s t : Repository F)
      (rs : List (TelemetryReading F))
      → load_readings_since f since fault machine_id limit s ≡ (ok rs, t)
      → All (IsWithin machine_id since) rs × (latest_first rs ≡ true) × (length rs ≤ limit)
  unfolding load_readings_since load_readings
  load_readings_since-IsWithin since true machine_id limit s t rs h = absurd (ground (arith, h))
  load_readings_since-IsWithin since false machine_id limit s t rs h =
      let recent = λ (at : ℕ). ltb since at in
      let rows = select_readings recent machine_id s.database.readings in
      elim (Result-cases (readings_from_rows f (take limit rows))) [
        | inr (x, p) ↦ absurd (ground (arith, p, h))
        | inl (found, p) ↦
            let same : rs ≡ found = ground (arith, p, h) in
            let (chosen, ordered) =
              select_readings-selected recent machine_id s.database.readings in
            let (within, latest, count) =
              readings_from_rows-IsWithin machine_id since (take limit rows) found p
                (all-take (selected recent machine_id) limit rows chosen)
                (descending-take limit rows ordered) in
            rw same (within, latest, ground (arith, count, length-take limit rows))
      ]
