-- ===== src/Phy/Params.antt =====
-- crates/s2g-phy/src/params.rs: the tables of modulations, code rates and MCSs at 2 MHz. Sample
-- rates, powers and spectral limits are floating-point and left out.
pub mod Laws
mod Tests
use s2g.Base.{
  ℕ, ◌+◌, ◌*◌, ◌/◌, ◌%◌, ◌==◌, if◌then◌else◌, Bool, true, false, ◌&&◌, leb, Option, none, some,
  List, [], ◌∷◌, map,
}

abbrev pub n_sd : ℕ
n_sd = 52

abbrev pub t_stf_us : ℕ
t_stf_us = 80

abbrev pub t_ltf1_us : ℕ
t_ltf1_us = 80

abbrev pub t_sig_us : ℕ
t_sig_us = 80

abbrev pub t_ltf_us : ℕ
t_ltf_us = 40

abbrev pub t_dstf_us : ℕ
t_dstf_us = 40

abbrev pub t_dltf_us : ℕ
t_dltf_us = 40

abbrev pub t_sigb_us : ℕ
t_sigb_us = 40

abbrev pub t_syml_us : ℕ
t_syml_us = 40

abbrev pub t_syms_us : ℕ
t_syms_us = 36

abbrev pub t_preamble_us : ℕ
t_preamble_us = t_stf_us + t_ltf1_us + t_sig_us

abbrev pub n_service : ℕ
n_service = 8

abbrev pub n_tail : ℕ
n_tail = 6

-- The number of LTFs for a number of space-time streams.
unfoldable pub n_ltf : ℕ → ℕ
n_ltf n_sts = if leb n_sts 1 then 1 else if n_sts == 2 then 2 else 4

pub data Modulation : Type 0 where
  bpsk qpsk qam16 qam64 qam256 qam1024 : Modulation

unfoldable pub n_bpscs : Modulation → ℕ
n_bpscs bpsk = 1
n_bpscs qpsk = 2
n_bpscs qam16 = 4
n_bpscs qam64 = 6
n_bpscs qam256 = 8
n_bpscs qam1024 = 10

pub data CodeRate : Type 0 where
  r1_2 r2_3 r3_4 r5_6 : CodeRate

unfoldable pub as_fraction : CodeRate → ℕ × ℕ
as_fraction r1_2 = (1, 2)
as_fraction r2_3 = (2, 3)
as_fraction r3_4 = (3, 4)
as_fraction r5_6 = (5, 6)

unfoldable pub mcs_modulation_rate : ℕ → Option (Modulation × CodeRate)
mcs_modulation_rate mcs =
    if mcs == 0
    then some (bpsk, r1_2)
    else if mcs == 1
    then some (qpsk, r1_2)
    else if mcs == 2
    then some (qpsk, r3_4)
    else if mcs == 3
    then some (qam16, r1_2)
    else if mcs == 4
    then some (qam16, r3_4)
    else if mcs == 5
    then some (qam64, r2_3)
    else if mcs == 6
    then some (qam64, r3_4)
    else if mcs == 7
    then some (qam64, r5_6)
    else if mcs == 8
    then some (qam256, r3_4)
    else if mcs == 9
    then some (qam256, r5_6)
    else if mcs == 11
    then some (qam1024, r3_4)
    else if mcs == 12
    then some (qam1024, r5_6)
    else none

-- The data bits of a symbol, when the streams' coded bits divide evenly.
unfoldable pub dbps_of : ℕ → Modulation × CodeRate → Option ℕ
unfolding n_bpscs as_fraction
dbps_of n_ss (m, r) =
    let n_cbps = n_sd * n_bpscs m * n_ss in
    let num = (as_fraction r).0 in
    let den = (as_fraction r).1 in
    if n_cbps * num % den == 0 then some (n_cbps * num / den) else none

unfoldable pub n_dbps_2mhz : ℕ → ℕ → Option ℕ
n_dbps_2mhz mcs n_ss =
    if leb 1 n_ss && leb n_ss 4
    then (elim (mcs_modulation_rate mcs) [ none ↦ none | some mr ↦ dbps_of n_ss mr ])
    else none

pub record McsParams : Type 0 where
  pub mcs : ℕ
  pub modulation : Modulation
  pub rate : CodeRate
  pub bits_per_subcarrier : ℕ
  pub n_cbps : ℕ
  pub n_dbps : ℕ

unfoldable pub row : ℕ → Modulation → CodeRate → ℕ → ℕ → ℕ → McsParams
row mcs' m r b c d = record {
  mcs = mcs';
  modulation = m;
  rate = r;
  bits_per_subcarrier = b;
  n_cbps = c;
  n_dbps = d;
}

unfoldable pub mcs_table : List McsParams
unfolding row
mcs_table =
    row 0 bpsk r1_2 1 52 26
    ∷ row 1 qpsk r1_2 2 104 52
    ∷ row 2 qpsk r3_4 2 104 78
    ∷ row 3 qam16 r1_2 4 208 104
    ∷ row 4 qam16 r3_4 4 208 156
    ∷ row 5 qam64 r2_3 6 312 208
    ∷ row 6 qam64 r3_4 6 312 234
    ∷ row 7 qam64 r5_6 6 312 260
    ∷ row 8 qam256 r3_4 8 416 312
    ∷ row 11 qam1024 r3_4 10 520 390
    ∷ []

unfoldable pub find_mcs : ℕ → List McsParams → Option McsParams
find_mcs mcs' [] = none
find_mcs mcs' (p ∷ ps) = if p.mcs == mcs' then some p else find_mcs mcs' ps

-- No row stands for the source's `Err(InvalidMcs(mcs))`.
unfoldable pub mcs_params : ℕ → Option McsParams
mcs_params mcs' = find_mcs mcs' mcs_table

unfoldable pub valid_mcs : List ℕ
valid_mcs = map (λ p. p.mcs) mcs_table
