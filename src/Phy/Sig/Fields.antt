-- ===== src/Phy/Sig/Fields.antt =====
-- sig.rs: the contents of the fields and their bits.
use s2g.Base.{
  ℕ, ◌+◌, ◌*◌, ◌/◌, ◌%◌, List, [], ◌∷◌, ◌++◌, Bool, true, false, none, some, if◌then◌else◌, not,
  ltb, bit_of,
}
use s2g.Phy.Bits.{uint_bits}
use s2g.Phy.Params.{mcs_params}
use s2g.Phy.Vector.{
  ResponseIndication, to_bits, TxVector, Coding, bcc, ldpc, GuardInterval, long_gi, short_gi,
}
use s2g.Phy.Sig.Frame48.{finish_48}

pub record SigFields : Type 0 where
  pub stbc : Bool
  pub uplink_indication : Bool
  pub bandwidth : ℕ
  pub nsts : ℕ
  pub id : ℕ
  pub is_short_gi : Bool
  pub is_ldpc : Bool
  pub ldpc_extra : Bool
  pub mcs : ℕ
  pub smoothing : Bool
  pub aggregation : Bool
  pub sig_length : ℕ
  pub response_indication : ResponseIndication
  pub traveling_pilots : Bool

pub record SigASu : Type 0 where
  pub stbc : Bool
  pub uplink_indication : Bool
  pub bandwidth : ℕ
  pub nsts : ℕ
  pub id : ℕ
  pub is_short_gi : Bool
  pub is_ldpc : Bool
  pub ldpc_extra : Bool
  pub mcs : ℕ
  pub beam_change_or_smoothing : Bool
  pub aggregation : Bool
  pub sig_length : ℕ
  pub response_indication : ResponseIndication
  pub traveling_pilots : Bool

-- The arrays of four are four fields.
pub record SigAMu : Type 0 where
  pub stbc : Bool
  pub nsts0 : ℕ
  pub nsts1 : ℕ
  pub nsts2 : ℕ
  pub nsts3 : ℕ
  pub bandwidth : ℕ
  pub group_id : ℕ
  pub is_short_gi : Bool
  pub ldpc0 : Bool
  pub ldpc1 : Bool
  pub ldpc2 : Bool
  pub ldpc3 : Bool
  pub ldpc_extra : Bool
  pub sig_length : ℕ
  pub response_indication : ResponseIndication
  pub traveling_pilots : Bool

pub data SigContent : Type 0 where
  normal : SigFields → SigContent
  ndp : (body : ℕ) → SigContent
  long_su : SigASu → SigContent
  long_mu : SigAMu → SigContent

-- The 38 bits before the CRC.
unfoldable pub short_bits : SigFields → List ℕ
short_bits f =
    1
    ∷ bit_of f.stbc
    ∷ bit_of f.uplink_indication
    ∷ (uint_bits f.bandwidth 2
        ++ uint_bits f.nsts 2
        ++ uint_bits f.id 9
        ++ bit_of f.is_short_gi
          ∷ bit_of f.is_ldpc
          ∷ bit_of f.ldpc_extra
          ∷ (uint_bits f.mcs 4
              ++ bit_of f.smoothing
                ∷ bit_of f.aggregation
                ∷ (uint_bits f.sig_length 9
                    ++ uint_bits (to_bits f.response_indication) 2
                    ++ bit_of f.traveling_pilots ∷ 0 ∷ [])))

unfoldable pub short_to_bits : SigFields → List ℕ
short_to_bits f = finish_48 (short_bits f)

unfoldable pub su_bits : SigASu → List ℕ
su_bits f =
    0
    ∷ bit_of f.stbc
    ∷ bit_of f.uplink_indication
    ∷ (uint_bits f.bandwidth 2
        ++ uint_bits f.nsts 2
        ++ uint_bits f.id 9
        ++ bit_of f.is_short_gi
          ∷ bit_of f.is_ldpc
          ∷ bit_of f.ldpc_extra
          ∷ (uint_bits f.mcs 4
              ++ bit_of f.beam_change_or_smoothing
                ∷ bit_of f.aggregation
                ∷ (uint_bits f.sig_length 9
                    ++ uint_bits (to_bits f.response_indication) 2
                    ++ 1 ∷ bit_of f.traveling_pilots ∷ [])))

unfoldable pub su_to_bits : SigASu → List ℕ
su_to_bits f = finish_48 (su_bits f)

-- A user's coding bit; 1 where the position is unused.
unfoldable pub coding_bit : ℕ → Bool → ℕ
coding_bit nsts ldpc' = if ltb 0 nsts then bit_of ldpc' else 1

unfoldable pub mu_bits : SigAMu → List ℕ
mu_bits f =
    1
    ∷ bit_of f.stbc
    ∷ 1
    ∷ (uint_bits f.nsts0 2
        ++ uint_bits f.nsts1 2
        ++ uint_bits f.nsts2 2
        ++ uint_bits f.nsts3 2
        ++ uint_bits f.bandwidth 2
        ++ uint_bits f.group_id 6
        ++ bit_of f.is_short_gi
          ∷ coding_bit f.nsts0 f.ldpc0
          ∷ coding_bit f.nsts1 f.ldpc1
          ∷ coding_bit f.nsts2 f.ldpc2
          ∷ coding_bit f.nsts3 f.ldpc3
          ∷ bit_of f.ldpc_extra
          ∷ 1
          ∷ (uint_bits f.sig_length 9
              ++ uint_bits (to_bits f.response_indication) 2
              ++ bit_of f.traveling_pilots ∷ []))

unfoldable pub mu_to_bits : SigAMu → List ℕ
mu_to_bits f = finish_48 (mu_bits f)

pub data PhyError : Type 0 where
  invalid_mcs : ℕ → PhyError
  color_too_large aid_too_large aid_too_large_for_color : PhyError

pub data PhyResult {ℓ} (A : Type ℓ) : Type ℓ where
  built : A → PhyResult A
  refused : PhyError → PhyResult A

unfoldable pub id_from_txvector : TxVector → PhyResult ℕ
id_from_txvector txv =
    if ltb 7 txv.color
    then refused color_too_large
    else if txv.uplink_indication
    then (if ltb 511 txv.partial_aid then refused aid_too_large else built txv.partial_aid)
    else if ltb 63 txv.partial_aid
    then refused aid_too_large_for_color
    else built (txv.partial_aid * 8 + txv.color)

unfoldable pub split_id : ℕ → Bool → ℕ × ℕ
split_id id uplink = if uplink then (0, id % 512) else (id % 8, id / 8 % 64)

unfoldable pub is_ldpc_coding : Coding → Bool
is_ldpc_coding bcc = false
is_ldpc_coding ldpc = true

unfoldable pub is_short : GuardInterval → Bool
is_short long_gi = false
is_short short_gi = true

unfoldable pub short_with_id : TxVector → ℕ → ℕ → Bool → SigFields
short_with_id txv id' len extra = record {
  stbc = false;
  uplink_indication = txv.uplink_indication;
  bandwidth = 0;
  nsts = 0;
  id = id';
  is_short_gi = is_short txv.gi;
  is_ldpc = is_ldpc_coding txv.fec_coding;
  ldpc_extra = if is_ldpc_coding txv.fec_coding then extra else true;
  mcs = txv.mcs;
  smoothing = txv.smoothing;
  aggregation = txv.aggregation;
  sig_length = len;
  response_indication = txv.response_indication;
  traveling_pilots = txv.traveling_pilots;
}

unfoldable pub short_from_txvector : TxVector → ℕ → Bool → PhyResult SigFields
short_from_txvector txv len extra = elim (mcs_params txv.mcs) [
  | none ↦ refused (invalid_mcs txv.mcs)
  | some row ↦ (elim (id_from_txvector txv) [
    | refused e ↦ refused e
    | built id' ↦ built (short_with_id txv id' len extra)
  ])
]

unfoldable pub su_with_id : TxVector → ℕ → ℕ → Bool → SigASu
su_with_id txv id' len extra = record {
  stbc = false;
  uplink_indication = txv.uplink_indication;
  bandwidth = 0;
  nsts = 0;
  id = id';
  is_short_gi = is_short txv.gi;
  is_ldpc = is_ldpc_coding txv.fec_coding;
  ldpc_extra = if is_ldpc_coding txv.fec_coding then extra else true;
  mcs = txv.mcs;
  beam_change_or_smoothing = not txv.smoothing;
  aggregation = txv.aggregation;
  sig_length = len;
  response_indication = txv.response_indication;
  traveling_pilots = txv.traveling_pilots;
}

unfoldable pub su_from_txvector : TxVector → ℕ → Bool → PhyResult SigASu
su_from_txvector txv len extra = elim (mcs_params txv.mcs) [
  | none ↦ refused (invalid_mcs txv.mcs)
  | some row ↦ (elim (id_from_txvector txv) [
    | refused e ↦ refused e
    | built id' ↦ built (su_with_id txv id' len extra)
  ])
]
