-- ===== src/Phy/Sig/Carried.antt =====
-- What a TXVECTOR that the transmitter accepts leads to at the receiver.
use s2g.Base.{
  ℕ, ◌<◌, ◌≡◌, refl, subst, Bool, true, false, none, some, if◌then◌else◌, not, ◌&&◌, arith, is_some,
  is_some-some,
}
use s2g.Phy.Params.{McsParams, mcs_params, n_dbps_2mhz, find_mcs, mcs_table, row}
use s2g.Phy.Params.Laws.{mcs_params-IsConsistent}
use s2g.Phy.Vector.{
  TxVector, RxVector, GuardInterval, long_gi, short_gi, Coding, bcc, ldpc, data_field_geometry,
}
use s2g.Phy.Sig.Fields.{built, id_from_txvector, split_id, is_ldpc_coding, is_short}
use s2g.Phy.Sig.Verdict.{why_unsupported, gi_of, coding_of}

-- What an RXVECTOR has of the TXVECTOR that was sent.
pub record Carries (txv : TxVector) (len : ℕ) (r : RxVector) : Type 0 where
  pub same_mcs : r.mcs ≡ txv.mcs
  pub same_gi : r.gi ≡ txv.gi
  pub same_coding : r.fec_coding ≡ txv.fec_coding
  pub same_aggregation : r.aggregation ≡ txv.aggregation
  pub same_response : r.response_indication ≡ txv.response_indication
  pub same_smoothing : r.smoothing ≡ txv.smoothing
  pub same_pilots : r.traveling_pilots ≡ txv.traveling_pilots
  pub same_uplink : r.uplink_indication ≡ txv.uplink_indication
  pub same_aid : r.partial_aid ≡ txv.partial_aid
  pub same_color : txv.uplink_indication ≡ false → r.color ≡ txv.color
  pub same_length : r.rx_length ≡ len
  pub one_stream : r.num_sts ≡ 1

pub gi_back : (g : GuardInterval) → gi_of (is_short g) ≡ g
unfolding is_short
gi_back long_gi = refl
gi_back short_gi = refl

pub coding_back : (c : Coding) → coding_of (is_ldpc_coding c) ≡ c
unfolding is_ldpc_coding
coding_back bcc = refl
coding_back ldpc = refl

module _ (txv : TxVector) (id' : ℕ) (e : id_from_txvector txv ≡ built id') where
  pub id_lt : id' < 512
  unfolding id_from_txvector
  id_lt = ground (arith, e)

  pub aid_back : (split_id id' txv.uplink_indication).1 ≡ txv.partial_aid
  unfolding id_from_txvector split_id
  aid_back = ground (arith, e)

  pub color_back :
      txv.uplink_indication ≡ false → (split_id id' txv.uplink_indication).0 ≡ txv.color
  unfolding id_from_txvector split_id
  color_back u = ground (arith, e)

pub mcs_lt : (m : ℕ) (p : McsParams) → mcs_params m ≡ some p → m < 16
unfolding mcs_params find_mcs mcs_table row
mcs_lt m p e = ground arith

-- Every positive length has symbols, with one stream.
pub geometry_some :
    (len : ℕ) (agg : Bool) (c : Coding) (extra : Bool) (n_dbps : ℕ)
    → 0 < len
    → is_some (data_field_geometry len agg c extra false n_dbps) ≡ true
unfolding data_field_geometry is_some
geometry_some len true bcc extra n_dbps h = ground arith
geometry_some len false bcc extra n_dbps h = ground arith
geometry_some len true ldpc extra n_dbps h = ground arith
geometry_some len false ldpc extra n_dbps h = ground arith

-- What a TXVECTOR that is accepted has.
pub record IsAccepted (txv : TxVector) (id' : ℕ) : Type 0 where
  pub entry : McsParams
  pub at_mcs : mcs_params txv.mcs ≡ some entry
  pub has_id : id_from_txvector txv ≡ built id'

pub dbps_accepted :
    (txv : TxVector) (id' : ℕ) (a : IsAccepted txv id')
    → n_dbps_2mhz txv.mcs 1 ≡ some a.entry.n_dbps
dbps_accepted txv id' a =
    let laws = mcs_params-IsConsistent txv.mcs a.entry a.at_mcs in
    subst (λ m. n_dbps_2mhz m 1 ≡ some a.entry.n_dbps) laws.1 laws.0.dbps

pub one_stream_supported :
    (m : ℕ) (p : McsParams) → mcs_params m ≡ some p → why_unsupported 0 false 1 m ≡ none
unfolding why_unsupported
one_stream_supported m p e = ground (arith, is_some-some (mcs_params m) p e)

pub b18_set : (c extra : Bool) → (not c && not (if c then extra else true)) ≡ false
b18_set c extra = ground arith
