-- ===== src/Lib.antt =====
-- s2g: an IEEE 802.11ah (S1G) PHY and MAC for 2 MHz channels.
--
-- The program has a PHY (crates/s2g-phy) that turns a TXVECTOR and a PSDU into samples and back, a MAC
-- (crates/s2g-mac) that turns Ethernet frames into MPDUs, aggregates them into PSDUs and answers
-- received ones, and tools and radio drivers around them. The MAC frames what the filter lets pass, the
-- FCS guards every MPDU, the A-MPDU carries MPDUs inside a PSDU, and the SIG field tells the receiver
-- how the PSDU was sent. NDP CMAC frames are sent as bodies of 37 bits in place of the SIG contents.
--
-- Which file models which part:
--   Base           shared names, Boolean tests on numbers, lists, byte strings, bitwise operations
--   Mac/Fcs        crates/s2g-mac/src/fcs.rs: crc32, append, check_and_strip
--   Mac/Addr       MacAddr and addr of crates/s2g-mac/src/frame.rs
--   Mac/Eth        crates/s2g-mac/src/eth.rs: parse_ethernet, to_body, split_body, body_to_ethernet
--   Mac/Frame      crates/s2g-mac/src/frame.rs: build_*, parse, parse_pv1 (Frame/Pv1), locate_mpdu
--   Mac/Ndp        crates/s2g-mac/src/ndp.rs: the fields, to_body, parse, the identifiers
--   Mac/Filter     crates/s2g-mac/src/filter.rs: check and the functions it calls
--   Mac/Ampdu      crates/s2g-mac/src/ampdu.rs: delimiters, aggregate, deaggregate_with_eof
--   Mac/Ident      crates/s2g-mac/src/ident.rs: body, parse_body
--   Mac/Rate       crates/s2g-mac/src/rate.rs: types, hints (snr_*, floor*), select (with the
--                  observations and new), report; Rate/Bounds and Rate/Retry are about them
--   Mac/Engine     crates/s2g-mac/src/engine.rs: the types, the response wait and the medium (Timing),
--                  enqueue_eth and duplicates (Queue), the ends of attempts (Access), received MPDUs
--                  (Receive), on_phy_event and on_ndp (Events), plan_attempt (Plan), poll (Poll);
--                  Engine/Valid, Account, Delay, Medium, BlockAck and Progress are about them
--   Phy/Bits       crates/s2g-phy/src/bits.rs
--   Phy/Scrambler  crates/s2g-phy/src/scrambler.rs: sequence, scramble_in_place, recover_seed
--   Phy/Params     crates/s2g-phy/src/params.rs: modulations, code rates, MCS tables, durations
--   Phy/Vector     crates/s2g-phy/src/vector.rs: TXVECTOR, RXVECTOR, durations, data_field_geometry
--   Phy/Interleaver  crates/s2g-phy/src/interleaver.rs
--   Phy/Bcc        crates/s2g-phy/src/bcc.rs: encode, punctured_len, the depuncturing of viterbi_decode
--   Phy/Ldpc       crates/s2g-phy/src/ldpc.rs: PpduParams with new, per_codeword, tx_len
--   Phy/Tx         crates/s2g-phy/src/tx.rs: data_geometry, n_sym, txtime_us, aggregated_capacity
--   Phy/Sig        crates/s2g-phy/src/sig.rs: to_bits, from_txvector, parse_short, parse_long, verdict
-- Within a part, the module of the part holds the definitions and its children the theorems; Tests
-- holds runs of the source's own tests and the theorems at concrete values.
--
-- How the code is represented: a byte or a fixed-width integer is a native number, with its wrap-around
-- written out; a slice or a Vec is a list; a struct is a record and an enum a data type. A read that
-- the code keeps in bounds uses a default that is never met. An error message of the code is a
-- constructor. A failed assertion of `aggregate` is `none`. Bits that are or-ed at places that never
-- meet are added.
--
-- The engine and the rate controller are records; an operation takes the state, the time where the code
-- takes `now_us`, and returns the next state with the events that it emits and the action of a poll.
-- `Step` is one call from outside and `Reach` any sequence of them. The maps of peers and of duplicates
-- are association lists. Counters and times do not wrap. An `expect` that could fail is a branch that
-- does nothing. Loops over a batch are recursion on its list.
-- Floating-point numbers are the parameter `Floats` of Base/Floats: two types with their operations, of
-- which nothing is assumed, so a theorem holds for whatever they return; Base/Thousandths is a concrete
-- choice for runs. Identification text is bytes, of which the code keeps printable ASCII in what it sends.
--
-- Fuel: the filter's functions call one another again one tunnel deeper; `run` has five levels, one for
-- each depth up to the code's limit of three, and one for an IPv4 packet inside the last. The walk over
-- extension headers has a round for every byte of the packet, each of which moves by eight bytes or
-- more. The A-MPDU scan has a round for every byte of the PSDU, each of which moves by four or more, and
-- the EOF filling one for every byte of the capacity.
--
-- Not modelled: the LDPC encoder; the floating-point signal processing of the PHY (ofdm, mapping, pilots,
-- preamble, the samples of tx, the receiver rx but for its events, the search of the Viterbi decoder, the
-- LDPC decoder) and s2g-dsp; the radio drivers, tools and scripts, which are input and output. The banner
-- text of the filter (describe) and the read-only reports of the rate controller (info, peers,
-- relative_rate) are left out.
pub mod Base
pub mod Mac
pub mod Phy
