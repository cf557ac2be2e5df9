-- ===== src/Phy/Sig/Supported.antt =====
-- What the receiver knows of a field that it decodes.
use s2g.Base.{
  ℕ, ◌+◌, ◌/◌, ◌≡◌, ◌≢◌, refl, ap, sym, ◌∙◌, Bool, true, false, Option, none, some, if◌then◌else◌,
  ◌&&◌, arith, is_some,
}
use s2g.Phy.Params.{mcs_params, n_dbps_2mhz}
use s2g.Phy.Vector.{RxVector, data_field_geometry}
use s2g.Phy.Sig.Fields.{SigFields}
use s2g.Phy.Sig.Verdict.{
  supported, short_verdict, short_rxvector, why_unsupported, coding_of, classify, Unsupported,
}

-- The modes that are decoded.
pub record IsDecodable (f : SigFields) (r : RxVector) : Type 0 where
  pub narrow : f.bandwidth ≡ 0
  pub one_stream : f.nsts ≡ 0
  pub no_stbc : f.stbc ≡ false
  pub known_mcs : is_some (mcs_params f.mcs) ≡ true
  pub b18 : f.is_ldpc ≡ false → f.ldpc_extra ≡ true
  pub n_dbps : ℕ
  pub rate : n_dbps_2mhz f.mcs 1 ≡ some n_dbps
  pub geometry :
      data_field_geometry f.sig_length f.aggregation
        (coding_of f.is_ldpc)
        (f.is_ldpc && f.ldpc_extra)
        false
        n_dbps
      ≡ some (r.n_sym, r.psdu_length)

plain_mode :
    (bandwidth : ℕ) (stbc' : Bool) (nsts mcs' : ℕ)
    → why_unsupported bandwidth stbc' (nsts + 1) mcs' ≡ none
    → (bandwidth ≡ 0) × (stbc' ≡ false) × (nsts ≡ 0) × (is_some (mcs_params mcs') ≡ true)
unfolding why_unsupported
plain_mode bandwidth stbc' nsts mcs' e = (ground arith, ground arith, ground arith, ground arith)

classified :
    (r s : RxVector) (why : Option Unsupported)
    → classify r why ≡ supported s
    → (why ≡ none) × (r ≡ s)
classified r s none e = (refl, ground arith)
classified r s (some why) e = absurd (ground arith)

-- The spatial streams of a field.
streams : SigFields → ℕ
streams f = if f.stbc then (f.nsts + 1) / 2 else f.nsts + 1

one : (f : SigFields) → f.stbc ≡ false → f.nsts ≡ 0 → streams f ≡ 1
unfolding streams
one f plain single = ground (arith, plain, single)

no_rate :
    (f : SigFields) (r : RxVector)
    → n_dbps_2mhz f.mcs (streams f) ≡ none
    → short_verdict f ≢ supported r
unfolding short_verdict streams
no_rate f r p e = ground (arith, p, e)

b18_needed :
    (f : SigFields) (r : RxVector)
    → short_verdict f ≡ supported r
    → f.is_ldpc ≡ false
    → f.ldpc_extra ≡ true
unfolding short_verdict
b18_needed f r e c = ground (arith, e, c)

module _ (f : SigFields) (r : RxVector) (d : ℕ) where
  not_supported :
      n_dbps_2mhz f.mcs (streams f) ≡ some d
      → data_field_geometry f.sig_length f.aggregation
          (coding_of f.is_ldpc)
          (f.is_ldpc && f.ldpc_extra)
          f.stbc
          d
        ≡ none
      → short_verdict f ≢ supported r
  unfolding short_verdict streams
  not_supported p q e = ground (arith, p, q, e)

  decoded :
      (n psdu : ℕ)
      → n_dbps_2mhz f.mcs (streams f) ≡ some d
      → data_field_geometry f.sig_length f.aggregation
          (coding_of f.is_ldpc)
          (f.is_ldpc && f.ldpc_extra)
          f.stbc
          d
        ≡ some (n, psdu)
      → short_verdict f ≡ supported r
      → classify (short_rxvector f n psdu) (why_unsupported f.bandwidth f.stbc (f.nsts + 1) f.mcs)
        ≡ supported r
  unfolding short_verdict streams
  decoded n psdu p q e = ground (arith, p, q, e)

-- A SIG field is found decodable only when it asks for one stream in 2 MHz without STBC, with an
-- MCS of the table and the coding bit that BCC needs, and the RXVECTOR then has the geometry of
-- its Data field.
pub supported-IsDecodable :
    (f : SigFields) (r : RxVector) → short_verdict f ≡ supported r → IsDecodable f r
unfolding short_rxvector
supported-IsDecodable f r e = by_rate (n_dbps_2mhz f.mcs (streams f)) refl
  where
    by_geometry :
        (d : ℕ) (o : Option (ℕ × ℕ))
        → n_dbps_2mhz f.mcs (streams f) ≡ some d
        → data_field_geometry f.sig_length f.aggregation
            (coding_of f.is_ldpc)
            (f.is_ldpc && f.ldpc_extra)
            f.stbc
            d
          ≡ o
        → IsDecodable f r
    by_geometry d none p q = absurd (not_supported f r d p q e)
    by_geometry d (some (n, psdu)) p q =
        let (why, same) =
          classified (short_rxvector f n psdu) r
            (why_unsupported f.bandwidth f.stbc (f.nsts + 1) f.mcs) (decoded f r d n psdu p q e) in
        let (narrow', plain, single, known) = plain_mode f.bandwidth f.stbc f.nsts f.mcs why in
        record {
          narrow = narrow';
          one_stream = single;
          no_stbc = plain;
          known_mcs = known;
          b18 = b18_needed f r e;
          n_dbps = d;
          rate = sym (ap (n_dbps_2mhz f.mcs) (one f plain single)) ∙ p;
          geometry =
              sym (
                ap
                  (λ b.
                    data_field_geometry f.sig_length f.aggregation (coding_of f.is_ldpc)
                      (f.is_ldpc && f.ldpc_extra) b d)
                  plain)
              ∙ (q ∙ ap (λ (x : RxVector). some (x.n_sym, x.psdu_length)) same);
        }

    by_rate : (o : Option ℕ) → n_dbps_2mhz f.mcs (streams f) ≡ o → IsDecodable f r
    by_rate none p = absurd (no_rate f r p e)
    by_rate (some d) p =
        by_geometry d
          (data_field_geometry f.sig_length f.aggregation (coding_of f.is_ldpc)
            (f.is_ldpc && f.ldpc_extra) f.stbc d)
          p refl
