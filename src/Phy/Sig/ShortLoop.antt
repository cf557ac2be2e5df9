-- ===== src/Phy/Sig/ShortLoop.antt =====
-- From a TXVECTOR over the SIG bits of an S1G_SHORT PPDU to the receiver's verdict.
use s2g.Base.{
  ℕ, ◌+◌, ◌<◌, ◌≡◌, refl, subst, Bool, false, Option, none, some, not, ◌&&◌, arith, is_some→some,
}
use s2g.Phy.Params.{McsParams, mcs_params, n_dbps_2mhz}
use s2g.Phy.Vector.{TxVector, data_field_geometry}
use s2g.Phy.Sig.Frame48.{valid}
use s2g.Phy.Sig.Fields.{
  SigFields, normal, short_to_bits, PhyResult, built, refused, id_from_txvector, short_with_id,
  short_from_txvector,
}
use s2g.Phy.Sig.Parse.{parse_short}
use s2g.Phy.Sig.Verdict.{supported, short_verdict, short_rxvector, why_unsupported, coding_of}
use s2g.Phy.Sig.RoundTrip.{IsShort, parse-short_to_bits}
use s2g.Phy.Sig.Carried.{
  Carries, IsAccepted, gi_back, coding_back, id_lt, aid_back, color_back, mcs_lt, geometry_some,
  dbps_accepted, one_stream_supported, b18_set,
}

short_from_txvector-IsAccepted :
    (txv : TxVector) (len : ℕ) (extra : Bool) (f : SigFields)
    → short_from_txvector txv len extra ≡ built f
    → (id' : ℕ) × (IsAccepted txv id' × (short_with_id txv id' len extra ≡ f))
unfolding short_from_txvector
short_from_txvector-IsAccepted txv len extra f e =
    by_cases (mcs_params txv.mcs) (id_from_txvector txv) refl refl
  where
    by_cases :
        (o : Option McsParams) (r : PhyResult ℕ)
        → mcs_params txv.mcs ≡ o
        → id_from_txvector txv ≡ r
        → (id' : ℕ) × (IsAccepted txv id' × (short_with_id txv id' len extra ≡ f))
    by_cases none r p q = absurd (ground arith)
    by_cases (some entry') (refused x) p q = absurd (ground arith)
    by_cases (some entry') (built id') p q =
        (id', (record { entry = entry'; at_mcs = p; has_id = q }, ground arith))

short_verdict_supported :
    (f : SigFields) (n_dbps n psdu : ℕ)
    → f.stbc ≡ false
    → (not f.is_ldpc && not f.ldpc_extra) ≡ false
    → n_dbps_2mhz f.mcs (f.nsts + 1) ≡ some n_dbps
    → data_field_geometry f.sig_length f.aggregation
        (coding_of f.is_ldpc)
        (f.is_ldpc && f.ldpc_extra)
        f.stbc
        n_dbps
      ≡ some (n, psdu)
    → why_unsupported f.bandwidth f.stbc (f.nsts + 1) f.mcs ≡ none
    → short_verdict f ≡ supported (short_rxvector f n psdu)
unfolding short_verdict
short_verdict_supported f n_dbps n psdu s b d g w = ground (arith, s, b, d, g, w)

module _ (txv : TxVector) (id' len : ℕ) (extra : Bool) (a : IsAccepted txv id') where
  short_carried :
      (n psdu : ℕ) → Carries txv len (short_rxvector (short_with_id txv id' len extra) n psdu)
  unfolding short_rxvector short_with_id
  short_carried n psdu = record {
    same_mcs = refl;
    same_gi = gi_back txv.gi;
    same_coding = coding_back txv.fec_coding;
    same_aggregation = refl;
    same_response = refl;
    same_smoothing = refl;
    same_pilots = refl;
    same_uplink = refl;
    same_aid = aid_back txv id' a.has_id;
    same_color = color_back txv id' a.has_id;
    same_length = refl;
    one_stream = refl;
  }

  short_with_id-IsShort : len < 512 → IsShort (short_with_id txv id' len extra)
  unfolding short_with_id
  short_with_id-IsShort h = record {
    bandwidth_fits = omega arith;
    nsts_fits = omega arith;
    id_fits = id_lt txv id' a.has_id;
    mcs_fits = mcs_lt txv.mcs a.entry a.at_mcs;
    length_fits = h;
  }

  short_supported :
      0 < len
      → (n : ℕ) × ((psdu : ℕ) × (short_verdict (short_with_id txv id' len extra)
            ≡ supported (short_rxvector (short_with_id txv id' len extra) n psdu)))
  unfolding short_with_id
  short_supported h =
      let f = short_with_id txv id' len extra in
      let found =
        is_some→some
          (data_field_geometry len txv.aggregation (coding_of f.is_ldpc) (f.is_ldpc && f.ldpc_extra)
            false a.entry.n_dbps)
          (geometry_some len txv.aggregation (coding_of f.is_ldpc) (f.is_ldpc && f.ldpc_extra)
            a.entry.n_dbps h) in
      (
        found.0.0,
        (
          found.0.1,
          short_verdict_supported f a.entry.n_dbps found.0.0 found.0.1 refl
              (b18_set f.is_ldpc extra) (dbps_accepted txv id' a) found.1
              (one_stream_supported txv.mcs a.entry a.at_mcs),
        ),
      )

-- How the receiver takes the bits of an S1G_SHORT PPDU sent by a TXVECTOR.
pub record ShortReceived (txv : TxVector) (len : ℕ) (f : SigFields) : Type 0 where
  pub n_sym : ℕ
  pub psdu_length : ℕ
  pub parsed : parse_short (short_to_bits f) ≡ valid (normal f)
  pub decoded : short_verdict f ≡ supported (short_rxvector f n_sym psdu_length)
  pub carried : Carries txv len (short_rxvector f n_sym psdu_length)

-- Every SIG field that the transmitter builds from a TXVECTOR, with a length from 1 to 511, is parsed
-- and found to be decodable, and the RXVECTOR has the TXVECTOR's parameters.
pub short_from_txvector-received :
    (txv : TxVector) (len : ℕ) (extra : Bool) (f : SigFields)
    → short_from_txvector txv len extra ≡ built f
    → 0 < len
    → len < 512
    → ShortReceived txv len f
short_from_txvector-received txv len extra f e some_length fits =
    let (id', (a, same)) = short_from_txvector-IsAccepted txv len extra f e in
    let (n, (psdu, verdict)) = short_supported txv id' len extra a some_length in
    subst (ShortReceived txv len) same (record {
      n_sym = n;
      psdu_length = psdu;
      parsed =
          parse-short_to_bits (short_with_id txv id' len extra)
            (short_with_id-IsShort txv id' len extra a fits);
      decoded = verdict;
      carried = short_carried txv id' len extra a n psdu;
    })
