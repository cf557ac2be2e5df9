-- ===== src/Mac/Rate/Tests.antt =====
-- rate.rs: runs of the controller with an arithmetic of thousandths, and the theorems at such inputs.
use s2g.Base.{false, ◌≤◌, arith, refl}
use s2g.Base.Thousandths.{thousandths}
use s2g.Mac.Addr.{MacAddr}
use s2g.Phy.Vector.{short_gi, bcc}
use s2g.Mac.Rate.Types.{RateControl, TxChoice, ladder_index, position, default_config}
use s2g.Mac.Rate.Select.{new_control, select}
use s2g.Mac.Rate.Report.{report}
use s2g.Mac.Rate.Bounds.Ladder.{OnLadder}
use s2g.Mac.Rate.Bounds.Control.{ControlIsBounded}
use s2g.Mac.Rate.Bounds.History.{ControlCall, History, History-ControlIsBounded, select-OnLadder}

abbrev station : MacAddr
station = record { a = 2; b = 0; c = 0; d = 0; e = 0; f = 7 }

abbrev sent : TxChoice
sent = record { mcs = 4; gi = short_gi; fec_coding = bcc }

abbrev opened : RateControl thousandths
opened =
    new_control thousandths (record (default_config thousandths) { start_mcs = 4; min_mcs = 2 })

abbrev chosen : RateControl thousandths
chosen = (select thousandths opened station 0 1500).1

abbrev lost : RateControl thousandths
lost = report thousandths chosen station sent false

abbrev one_loss :
    History thousandths (record (default_config thousandths) { start_mcs = 4; min_mcs = 2 }) lost
one_loss =
    History.next {rc = chosen}
      (History.next {rc = opened} History.fresh (ControlCall.attempt station 0 1500))
      (ControlCall.outcome station sent false)

History-ControlIsBounded_example : ControlIsBounded thousandths lost
History-ControlIsBounded_example = History-ControlIsBounded thousandths _ lost one_loss

-- The configuration has MCS 2 as the lowest and MCS 8 as the highest.
select-OnLadder_example :
    OnLadder 2 8 (((select thousandths lost station 0 3000).0).mcs)
    × OnLadder 2 9 (((select thousandths lost station 2 3000).0).mcs)
    × (2 ≤ ((select thousandths lost station 0 3000).0).mcs)
    × (((select thousandths lost station 0 3000).0).mcs ≤ 8)
    × (2 ≤ ((select thousandths lost station 2 3000).0).mcs)
unfolding ladder_index position
select-OnLadder_example =
    select-OnLadder thousandths _ lost station 2 3000 2 8 refl refl (omega arith) one_loss
