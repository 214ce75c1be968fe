-- ===== src/Identify.antt =====
-- src/services/identify-payload.ts: how large the identify response is, and when a warning is
-- logged. The length of a text in UTF-8 is an argument. A ratio is given in thousandths, rounded;
-- the limit is not 0.
pub mod Laws
mod Tests
use orbitdb_relay.Prelude.{
  ℕ, ◌+◌, ◌*◌, ◌/◌, Text, codes, text_eq, starts_with, Bool, true, false, Option, none, some, List,
  [], ◌∷◌, ◌&&◌, ◌||◌, not, map, any, filter, if◌then◌else◌, ltb, length,
}
use orbitdb_relay.Addresses.{orbitdb_heads_prefix}
use orbitdb_relay.Exposure.{trim, lower}

abbrev pub identify_default_max_message_size : ℕ
identify_default_max_message_size = 8192

-- `IDENTIFY_PAYLOAD_WARN_RATIO`, in thousandths.
abbrev pub identify_payload_warn_ratio : ℕ
identify_payload_warn_ratio = 850

unfoldable pub sum_with_frames : List ℕ → ℕ
sum_with_frames [] = 0
sum_with_frames (n ∷ lengths) = n + 2 + sum_with_frames lengths

unfoldable pub estimate_identify_payload_bytes : (Text → ℕ) → List Text → List ℕ → ℕ
unfolding sum_with_frames
estimate_identify_payload_bytes byte_length protocols address_byte_lengths =
    sum_with_frames (map byte_length protocols) + sum_with_frames address_byte_lengths * 2 + 350

pub record Summary : Type 0 where
  pub protocol_count : ℕ
  pub orbitdb_heads_protocol_count : ℕ
  pub address_count : ℕ
  pub estimated_bytes : ℕ
  pub limit_bytes : ℕ
  pub ratio : ℕ
  pub over_limit : Bool

-- `Math.round(estimated / limit * 1000)`
unfoldable pub thousandths : ℕ → ℕ → ℕ
thousandths estimated limit = (estimated * 2000 + limit) / (limit * 2)

-- `byte_lengths` are those of the addresses.
unfoldable pub summarise_identify_payload : (Text → ℕ) → List Text → List ℕ → ℕ → Summary
unfolding estimate_identify_payload_bytes thousandths
summarise_identify_payload byte_length protocols byte_lengths limit =
    let estimated = estimate_identify_payload_bytes byte_length protocols byte_lengths in
    record {
      protocol_count = length protocols;
      orbitdb_heads_protocol_count =
          length (filter (λ p. starts_with p orbitdb_heads_prefix) protocols);
      address_count = length byte_lengths;
      estimated_bytes = estimated;
      limit_bytes = limit;
      ratio = thousandths estimated limit;
      over_limit = ltb limit estimated;
    }

-- Whether the warner warns now, given when it did last.
unfoldable pub warns : ℕ → ℕ → ℕ → Summary → Bool
warns interval last_warned_at now summary =
    not (ltb summary.ratio identify_payload_warn_ratio) && not (ltb now (last_warned_at + interval))

-- When the warner warns, over calls at these times.
unfoldable pub warnings : ℕ → ℕ → List (ℕ × Summary) → List ℕ
unfolding warns
warnings interval last_warned_at [] = []
warnings interval last_warned_at ((now, summary) ∷ calls) =
    let warned = warnings interval now calls in
    let silent = warnings interval last_warned_at calls in
    if warns interval last_warned_at now summary then now ∷ warned else silent
