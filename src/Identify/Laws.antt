-- ===== src/Identify/Laws.antt =====
-- Theorems about the size of the identify response and its warnings,
-- src/services/identify-payload.ts.
use orbitdb_relay.Prelude.{
  ℕ, zero, ◌+◌, ◌*◌, ◌≤◌, ◌<◌, Text, true, List, [], ◌∷◌, not, ltb, length, ◌≡◌, arith, inl, inr,
  Bool-cases,
}
use native.Mathlib.Nat.{mul-suc, le-div_iff_mul-le}
use orbitdb_relay.Identify.{
  identify_payload_warn_ratio, estimate_identify_payload_bytes, Summary, thousandths,
  summarise_identify_payload, warns, warnings,
}

abbrev pub last_time : ℕ → List (ℕ × Summary) → ℕ
last_time start [] = start
last_time start ((now, summary) ∷ calls) = last_time now calls

-- The clock does not go back.
abbrev pub AreInOrder : ℕ → List (ℕ × Summary) → Type 0
AreInOrder start [] = Unit
AreInOrder start ((now, summary) ∷ calls) = (start ≤ now) × AreInOrder now calls

-- Over calls at times that do not go back, the warner warns at most once in each interval: all
-- warnings together take no more intervals than the time since the last one before them.
pub warnings-bound :
    (interval last start : ℕ) (calls : List (ℕ × Summary))
    → AreInOrder start calls
    → last ≤ start
    → last + interval * length (warnings interval last calls) ≤ last_time start calls
unfolding warnings warns
warnings-bound interval last start [] h before = omega arith
warnings-bound interval last start ((now, summary) ∷ calls) (a, h) before =
    elim (Bool-cases (warns interval last now summary)) [
      | inl warned ↦
          let w = length (warnings interval now calls) in
          let ih = warnings-bound interval now now calls h (omega arith) in
          let spaced : last + interval ≤ now = ground (arith, warned) in
          rw (warned, warnings, mul-suc interval w) (omega (arith, ih, spaced))
      | inr silent ↦
          rw (silent, warnings)
            (warnings-bound interval last now calls h (omega (arith, a, before)))
    ]

over_limit-warns :
    (estimated limit : ℕ)
    → zero < limit
    → limit < estimated
    → identify_payload_warn_ratio ≤ thousandths estimated limit
unfolding thousandths
over_limit-warns estimated limit positive over =
    (le-div_iff_mul-le (omega (arith, positive))).1 (omega (arith, over))

-- A response over the limit is always warned about, unless a warning came less than an interval
-- before.
over_limit-warns_at :
    (byte_length : Text → ℕ) (protocols : List Text) (byte_lengths : List ℕ)
    (limit interval last now : ℕ)
    → zero < limit
    → (summarise_identify_payload byte_length protocols byte_lengths limit).over_limit ≡ true
    → warns interval last now (summarise_identify_payload byte_length protocols byte_lengths limit)
      ≡ not (ltb now (last + interval))
unfolding summarise_identify_payload warns
over_limit-warns_at byte_length protocols byte_lengths limit interval last now positive over =
    let estimated = estimate_identify_payload_bytes byte_length protocols byte_lengths in
    ground (arith, over, over_limit-warns estimated limit positive)
