-- ===== src/Mac/Engine/Plan.antt =====
-- engine.rs: the MPDUs and the PSDU of the next attempt (`plan_attempt`), and the batch it is taken from.
use s2g.Base.{
  ℕ, zero, suc, ◌+◌, List, [], ◌∷◌, ◌++◌, Bool, true, false, Option, none, some, ltb, leb, ◌&&◌,
  ◌||◌, if◌then◌else◌, length, slice, map,
}
use s2g.Base.Floats.{Floats}
use s2g.Mac.Addr.{MacAddr}
use s2g.Mac.Frame.{build_data, build_qos_data}
use s2g.Mac.Ampdu.{pre_eof_len, pre_eof_len_many, aggregate, aggregate_many}
use s2g.Mac.Ampdu.Delimiter.{delim_len}
use s2g.Mac.Rate.Types.{mac_eq}
use s2g.Mac.Engine.Types.{
  MacError, frame_too_big, phy, PendingMpdu, CurrentTx, Attempt, Queued, ampdu_max, succ_seq,
}
use s2g.Mac.Engine.Access.{hdr_len}
use s2g.Phy.Vector.{Coding}
use s2g.Phy.Tx.{planned, refused, aggregated_capacity, is_planned}

unfoldable pub build_mpdu : CurrentTx → ℕ → PendingMpdu → List ℕ
build_mpdu cur duration m =
    if cur.qos
    then build_qos_data cur.dest cur.src m.seq (ltb 0 m.retries) duration 0 m.body
    else build_data cur.dest cur.src m.seq (ltb 0 m.retries) duration m.body

pub data AttemptResult : Type 0 where
  attempt_ok : Attempt → AttemptResult
  attempt_err : MacError → AttemptResult

-- The value of a call whose assertions hold.
abbrev pub asserted : Option (List ℕ) → List ℕ
asserted none = []
asserted (some psdu) = psdu

abbrev pub indices : List (ℕ × List ℕ) → List ℕ
indices [] = []
indices ((i, mpdu) ∷ chosen) = i ∷ indices chosen

abbrev pub contents : List (ℕ × List ℕ) → List (List ℕ)
contents [] = []
contents ((i, mpdu) ∷ chosen) = mpdu ∷ contents chosen

module _ (fl : Floats) where
  -- Whether MPDUs of these lengths fit one PPDU.
  unfoldable pub fits : ℕ → Coding → List ℕ → Bool
  fits mcs coding [] = true
  fits mcs coding (len ∷ []) =
      leb len 511 || is_planned (aggregated_capacity fl mcs (pre_eof_len len) coding)
  fits mcs coding (len ∷ len' ∷ lens) =
      is_planned (aggregated_capacity fl mcs (pre_eof_len_many (len ∷ len' ∷ lens)) coding)

  -- The loop that takes MPDUs from the index `i` on while they fit.
  unfoldable pub choose :
      CurrentTx → ℕ → Coding → ℕ → ℕ → List ℕ → List PendingMpdu → List (ℕ × List ℕ)
  choose cur mcs coding duration i lens [] = []
  choose cur mcs coding duration i lens (m ∷ ms) =
      let mpdu = build_mpdu cur duration m in
      let lens' = lens ++ length mpdu ∷ [] in
      let rest = choose cur mcs coding duration (suc i) lens' ms in
      if ltb i ampdu_max && fits mcs coding lens' then (i, mpdu) ∷ rest else []

  -- The PSDU for the MPDUs that were taken.
  unfoldable pub pack : ℕ → Coding → List (ℕ × List ℕ) → AttemptResult
  pack mcs coding [] = attempt_err frame_too_big
  pack mcs coding ((i, mpdu) ∷ []) =
      if leb (length mpdu) 511
      then attempt_ok
          (record { in_flight = i ∷ []; psdu = mpdu; aggregated = false; single = some mpdu })
      else (elim (aggregated_capacity fl mcs (pre_eof_len (length mpdu)) coding) [
        | refused e ↦ attempt_err (phy e)
        | planned cap ↦
            let psdu' = asserted (aggregate mpdu cap) in
            attempt_ok (record {
              in_flight = i ∷ [];
              psdu = psdu';
              aggregated = true;
              single = some (slice psdu' delim_len (delim_len + length mpdu));
            })
      ])
  pack mcs coding ((i, mpdu) ∷ next ∷ chosen) =
      let all = (i, mpdu) ∷ next ∷ chosen in
      elim (aggregated_capacity fl mcs (pre_eof_len_many (map length (contents all))) coding) [
        | refused e ↦ attempt_err (phy e)
        | planned cap ↦ attempt_ok (record {
          in_flight = indices all;
          psdu = asserted (aggregate_many (contents all) cap);
          aggregated = true;
          single = none;
        })
      ]

  unfoldable pub plan_attempt : CurrentTx → ℕ → Coding → ℕ → AttemptResult
  plan_attempt cur mcs coding duration =
      pack mcs coding (choose cur mcs coding duration 0 [] cur.mpdus)

-- The octets of the MPDUs of a batch, and of those of an attempt, from the index `i` on.
unfoldable pub batch_octets : Bool → List PendingMpdu → ℕ
batch_octets qos' [] = 0
batch_octets qos' (m ∷ ms) = hdr_len qos' + length m.body + 4 + batch_octets qos' ms

unfoldable pub body_len_at : List PendingMpdu → ℕ → ℕ
body_len_at [] i = 0
body_len_at (m ∷ ms) zero = length m.body
body_len_at (m ∷ ms) (suc i) = body_len_at ms i

unfoldable pub octets_of : CurrentTx → List ℕ → ℕ
octets_of cur [] = 0
octets_of cur (i ∷ flying) = hdr_len cur.qos + body_len_at cur.mpdus i + 4 + octets_of cur flying

-- What `gather` leaves: MPDUs, the rest of the queue, and the next sequence number.
pub record Gathered : Type 0 where
  pub mpdus : List PendingMpdu
  pub rest : List Queued
  pub next : ℕ

-- The loop that takes frames for the same destination from the head of the queue.
unfoldable pub gather : (room : ℕ) → MacAddr → MacAddr → ℕ → List Queued → Gathered
gather zero dest src s queue = record { mpdus = []; rest = queue; next = s }
gather (suc room) dest src s [] = record { mpdus = []; rest = []; next = s }
gather (suc room) dest src s (q ∷ queue) =
    let g = gather room dest src (succ_seq s) queue in
    if mac_eq q.dest dest && mac_eq q.src src
    then record g { mpdus = record { seq = s; body = q.body; retries = 0 } ∷ g.mpdus }
    else record { mpdus = []; rest = q ∷ queue; next = s }
