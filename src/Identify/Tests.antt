-- ===== src/Identify/Tests.antt =====
-- The identify payload and its warnings on concrete nodes.
use orbitdb_relay.Prelude.{ℕ, ◌+◌, ◌*◌, ◌≤◌, codes, true, List, [], ◌∷◌, length, ◌≡◌, refl, arith}
use orbitdb_relay.Identify.{
  Summary, summarise_identify_payload, estimate_identify_payload_bytes, sum_with_frames,
  thousandths, warns, warnings,
}
use orbitdb_relay.Identify.Laws.{last_time, warnings-bound}

-- One protocol of 24 bytes and one address of 20 are over a limit of 400.
abbrev large : Summary
large = summarise_identify_payload length (codes "/orbitdb/heads/orbitdb/a" ∷ []) (20 ∷ []) 400

estimate : large.estimated_bytes ≡ 420
unfolding summarise_identify_payload estimate_identify_payload_bytes sum_with_frames
estimate = refl

abbrev calls : List (ℕ × Summary)
calls = (1000, large) ∷ (1100, large) ∷ (1400, large) ∷ []

warnings-bound_example : 0 + 300 * length (warnings 300 0 calls) ≤ last_time 0 calls
warnings-bound_example =
    warnings-bound 300 0 0 calls (omega arith, (omega arith, (omega arith, tt))) (omega arith)

two_warnings : warnings 300 0 calls ≡ 1000 ∷ 1400 ∷ []
unfolding warnings warns summarise_identify_payload estimate_identify_payload_bytes sum_with_frames
    thousandths
two_warnings = refl

is_over : large.over_limit ≡ true
unfolding summarise_identify_payload estimate_identify_payload_bytes sum_with_frames
is_over = refl
