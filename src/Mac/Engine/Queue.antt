-- ===== src/Mac/Engine/Queue.antt =====
-- engine.rs: random numbers, sequence numbers, the transmit queue and the detection of duplicates.
use s2g.Base.{
  ℕ, ◌+◌, ◌*◌, ◌/◌, ◌%◌, ◌^◌, min, List, [], ◌∷◌, ◌++◌, Bool, true, false, Option, none, some, ltb,
  leb, ◌&&◌, ◌||◌, not, if◌then◌else◌, length, drop, bit_xor,
}
use s2g.Base.Floats.{Floats}
use s2g.Mac.Addr.{MacAddr}
use s2g.Mac.Eth
use s2g.Mac.Frame.{qos_data_hdr_len}
use s2g.Mac.Filter.{check}
use s2g.Mac.Filter.Policy.{Verdict, pass, dropped, unfinished, contains}
use s2g.Mac.Ampdu.{pre_eof_len}
use s2g.Mac.Ampdu.Delimiter.{max_mpdu_len}
use s2g.Mac.Rate.Types.{mac_eq}
use s2g.Mac.Engine.Types.{
  Mac, MacError, queue_full, bad_ethernet, frame_too_big, filtered_out, succ_seq,
}
use s2g.Phy.Tx.{aggregated_capacity, is_planned}

-- One round of xorshift on 64 bits.
unfoldable pub xorshift : ℕ → ℕ
xorshift x0 =
    let x1 = bit_xor x0 (x0 * 2 ^ 13 % 2 ^ 64) in
    let x2 = bit_xor x1 (x1 / 2 ^ 7) in bit_xor x2 (x2 * 2 ^ 17 % 2 ^ 64)

-- `Ok(())` is `none`.
abbrev pub Enqueued : Type 0
Enqueued = Option MacError

module _ (fl : Floats) where
  unfoldable pub rand_u32 : Mac fl → ℕ × Mac fl
  rand_u32 m = let x = xorshift m.rng in (x / 2 ^ 32 % 2 ^ 32, record m { rng = x })

  unfoldable pub pick_seed : Mac fl → ℕ × Mac fl
  unfolding rand_u32
  pick_seed m = let r = rand_u32 m in (r.0 % 127 + 1, r.1)

  unfoldable pub next_seq : Mac fl → ℕ × Mac fl
  next_seq m = (m.seq, record m { seq = succ_seq m.seq })

  -- The lowest rate that a frame may go out at.
  unfoldable pub floor_mcs_of : Mac fl → ℕ
  floor_mcs_of m = if m.cfg.rate.enabled then min m.cfg.rate.min_mcs m.cfg.mcs else m.cfg.mcs

  unfoldable pub too_big : Mac fl → ℕ → Bool
  unfolding floor_mcs_of
  too_big m mpdu_len =
      ltb 511 mpdu_len
      && (ltb max_mpdu_len mpdu_len
          || not (
              is_planned
                (aggregated_capacity fl (floor_mcs_of m) (pre_eof_len mpdu_len) m.cfg.fec_coding)))

  -- A frame that the filter has passed.
  unfoldable pub enqueue_passed : Mac fl → List ℕ → Enqueued × Mac fl
  unfolding too_big
  enqueue_passed m eth_frame = elim (Eth.parse_ethernet eth_frame) [
    | none ↦ (some bad_ethernet, m)
    | some e ↦
        let body' = Eth.to_body e.ethertype e.payload in
        if leb m.cfg.queue_limit (length m.queue)
        then (some queue_full, m)
        else if too_big m (qos_data_hdr_len + length body' + 4)
        then (some frame_too_big, m)
        else (
          none,
          record m { queue = m.queue ++ record { dest = e.dest; src = e.src; body = body' } ∷ [] },
        )
  ]

  -- The verdict that stands for the filter's exhausted fuel does not occur.
  unfoldable pub enqueue_verdict : Verdict → Mac fl → List ℕ → Enqueued × Mac fl
  enqueue_verdict (dropped r) m eth_frame =
      (some (filtered_out r), record m { filtered_egress = m.filtered_egress + 1 })
  enqueue_verdict pass m eth_frame = enqueue_passed m eth_frame
  enqueue_verdict unfinished m eth_frame = enqueue_passed m eth_frame

  unfoldable pub enqueue_eth : Mac fl → List ℕ → Enqueued × Mac fl
  unfolding enqueue_verdict
  enqueue_eth m eth_frame =
      enqueue_verdict (if m.cfg.filter.egress then check m.cfg.filter eth_frame else pass) m
        eth_frame

-- The sequence numbers kept of a sender, the latest last.
unfoldable pub seqs_of : MacAddr → List (MacAddr × List ℕ) → List ℕ
seqs_of a [] = []
seqs_of a ((b, seqs) ∷ rest) = if mac_eq b a then seqs else seqs_of a rest

unfoldable pub put_seqs : MacAddr → List ℕ → List (MacAddr × List ℕ) → List (MacAddr × List ℕ)
put_seqs a seqs [] = (a, seqs) ∷ []
put_seqs a seqs ((b, old) ∷ rest) =
    if mac_eq b a then (b, seqs) ∷ rest else (b, old) ∷ put_seqs a seqs rest

abbrev pub dedup_limit : ℕ
dedup_limit = 64

-- A new number goes behind the others, of which the oldest makes room.
unfoldable pub push_seq : ℕ → List ℕ → List ℕ
push_seq seq seqs =
    let seqs' = seqs ++ seq ∷ [] in if ltb dedup_limit (length seqs') then drop 1 seqs' else seqs'

module _ (fl : Floats) where
  unfoldable pub note_duplicate : Mac fl → MacAddr → ℕ → Bool × Mac fl
  note_duplicate m src seq =
      let seqs = seqs_of src m.dedup in
      if contains seqs seq
      then (true, record m { dedup = put_seqs src seqs m.dedup })
      else (false, record m { dedup = put_seqs src (push_seq seq seqs) m.dedup })
