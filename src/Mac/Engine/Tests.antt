-- ===== src/Mac/Engine/Tests.antt =====
-- engine.rs: runs of the engine, and the theorems at such inputs.
use s2g.Base.{
  ◌+◌, ◌≡◌, ◌<◌, List, [], ◌∷◌, true, false, none, some, ltb, ◌==◌, ◌&&◌, refl, arith, length,
}
use s2g.Base.Thousandths.{thousandths}
use s2g.Mac.Addr.{MacAddr}
use s2g.Mac.Filter.Policy.{contains}
use s2g.Mac.Engine.Types.{backoff, is_group}
use s2g.Mac.Engine.Types.{
  Mac, MacConfig, default_mac_config, new_mac, MacEvent, CurrentTx, await_response, expect_ndp_ack,
}
use s2g.Mac.Engine.Timing.{medium_busy, response_timeout_us}
use s2g.Mac.Engine.Access.{resolve_attempt}
use s2g.Mac.Engine.Receive.{block_ack_bitmap, seq_distance, is_acked}
use s2g.Mac.Engine.Events.{cca, on_phy_event}
use s2g.Mac.Engine.Poll.{poll, robust, send, expire}
use s2g.Mac.Frame.{build_rts}
use s2g.Mac.Fcs.{append}
use s2g.Phy.Tx.{txtime_us, data_geometry, geometry_for, symbols}
use s2g.Phy.Params.{mcs_params}
use s2g.Phy.Vector.{ppdu_duration_us}
use s2g.Mac.Engine.Progress.{is_over, left_in, send_unanswered_lt}
use s2g.Mac.Engine.Account.{acknowledged, completions, Resolves, mpdus_of, resolve_attempt_accounts}
use s2g.Mac.Engine.Delay.{Between, learn, learn_wait}
use s2g.Mac.Engine.BlockAck.{is_acked-block_ack_bitmap}
use s2g.Mac.Engine.Medium.{poll_busy}
use s2g.Mac.Engine.Valid.Types.{MacIsValid}
use s2g.Mac.Engine.Valid.History.{Step, Reach, Reach-MacIsValid}

abbrev local : MacAddr
local = record { a = 2; b = 0; c = 0; d = 0; e = 0; f = 10 }

abbrev peer : MacAddr
peer = record { a = 2; b = 0; c = 0; d = 0; e = 0; f = 11 }

abbrev config : MacConfig thousandths
config = default_mac_config thousandths local

abbrev fresh : Mac thousandths
fresh = new_mac thousandths config

-- The engine after a poll, and after the carrier is heard.
abbrev idle_polled : Mac thousandths
idle_polled = (poll thousandths 0 fresh).mac

abbrev heard : Mac thousandths
heard = (on_phy_event thousandths 100 (cca true 0) idle_polled).0

abbrev heard_reached : Reach thousandths config heard
heard_reached =
    Reach.next {m = idle_polled} (Reach.next {m = fresh} Reach.start (Step.polled 0))
      (Step.received 100 (cca true 0))

Reach-MacIsValid_example : MacIsValid thousandths heard
Reach-MacIsValid_example = Reach-MacIsValid thousandths config heard (omega arith) heard_reached

-- A batch of two MPDUs in the air, of which retries are left to the first only.
abbrev two_mpdus : CurrentTx
two_mpdus = record {
  dest = peer;
  src = local;
  mpdus =
      record { seq = 7; body = 1 ∷ 2 ∷ []; retries = 0 }
      ∷ record { seq = 8; body = 3 ∷ []; retries = 3 }
      ∷ [];
  in_flight = 0 ∷ 1 ∷ [];
  attempts = 0;
  rate_failures = 0;
  cts_ok = false;
  choice = robust;
  lower_octets = 20;
  qos = true;
  ident = false;
}

abbrev flying : Mac thousandths
flying = record fresh { cur = some two_mpdus; state = await_response 5000 (expect_ndp_ack 3) }

abbrev resolved : Mac thousandths × List MacEvent
resolved = resolve_attempt thousandths (λ s. s == 7) 900 flying

resolve_attempt_accounts_example :
    Resolves peer 0 3
      (0 ∷ 1 ∷ [])
      (λ s. s == 7)
      0
      two_mpdus.mpdus
      resolved.1
      (mpdus_of resolved.0.cur)
    × (completions resolved.1 ≡ acknowledged (0 ∷ 1 ∷ []) (λ s. s == 7) 0 two_mpdus.mpdus)
    × (length resolved.1 + length (mpdus_of resolved.0.cur) ≡ 2)
unfolding new_mac
resolve_attempt_accounts_example =
    resolve_attempt_accounts thousandths (λ s. s == 7) 900 two_mpdus flying refl

-- Three responses between 20 and 30 milliseconds.
abbrev learnt : Mac thousandths
learnt = learn thousandths (20000 ∷ 30000 ∷ 25000 ∷ []) fresh

learn_wait_example :
    Between 34000 94000 (response_timeout_us thousandths learnt)
    × (learnt.rate.cfg.fail_cost_us ≡ response_timeout_us thousandths learnt)
unfolding new_mac
learn_wait_example =
    learn_wait thousandths 20000 30000 20000 (30000 ∷ 25000 ∷ []) fresh refl refl (omega arith)

poll_busy_example : (poll thousandths 200 (record fresh { cca_busy = true })).action ≡ none
unfolding new_mac medium_busy
poll_busy_example = poll_busy thousandths 200 (record fresh { cca_busy = true }) refl refl

-- The numbers wrap at 4096; 4095 and 2 are received, 0 is not.
is_acked-block_ack_bitmap_example :
    is_acked
      (record {
        block_ack_id = 9;
        starting_sequence = 4095;
        bitmap = block_ack_bitmap 4095 0 (4095 ∷ 2 ∷ []);
      })
      2
    ≡ (ltb (seq_distance 4095 2) 16 && contains (4095 ∷ 2 ∷ []) 2)
is_acked-block_ack_bitmap_example =
    is_acked-block_ack_bitmap 9 4095 2 (4095 ∷ 2 ∷ []) (omega arith) (omega arith) (omega arith)

-- An engine that sends an RTS before the batch, in which the first MPDU has four attempts left and the
-- second one.
abbrev reserving : Mac thousandths
reserving = record flying { cfg = record config { rts_threshold = some 10 }; state = backoff 100 }

send_unanswered_lt_example :
    left_in 3
      (expire thousandths
        (send thousandths 100 (some two_mpdus) reserving).mac.state
        1000000
        (send thousandths 100 (some two_mpdus) reserving).mac).0.cur
    < left_in 3 (some two_mpdus)
unfolding send is_over response_timeout_us new_mac is_group build_rts append txtime_us data_geometry
    geometry_for symbols mcs_params ppdu_duration_us s2g.Mac.Engine.Plan.batch_octets
    s2g.Phy.Params.find_mcs s2g.Phy.Params.mcs_table s2g.Phy.Vector.rx_duration_us
    s2g.Phy.Vector.preamble_duration_us s2g.Phy.Params.n_ltf s2g.Phy.Vector.data_duration_us
send_unanswered_lt_example =
    send_unanswered_lt thousandths 100 1000000 two_mpdus reserving refl
      (record {
        not_empty = omega arith;
        mpdus_valid = ((omega arith, omega arith), ((omega arith, omega arith), tt));
      })
      refl
