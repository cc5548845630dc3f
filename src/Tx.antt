-- ===== src/Tx.antt =====
-- The transport block of a downlink grant: the part of `nr_schedule_ue_spec` of
-- gnb_patch/gNB_scheduler_dlsch.c that fills it, behind the control elements.
pub mod Ce
pub mod Block
pub mod Grant
use user_ric.Prelude.{ℕ, List}

-- The functions of the gNB that give data, and its constants. `R` is what the RLC layer, the generator
-- of random numbers and the buffers of the blocks keep. `allocate_transport_block_buffer` gives the
-- address of the buffer for a UE, a process and a size.
pub record Source : Type 1 where
  pub R : Type 0
  pub nr_mac_rlc_data_req : R → ℕ → ℕ → ℕ → List ℕ × R
  pub lrand48 : R → ℕ × R
  pub allocate_transport_block_buffer : R → ℕ → ℕ → ℕ → ℕ × R
  pub dl_sch_lcid_padding : ℕ

-- The block as far as it is written, behind the control elements: the bytes up to `buf`, and
-- `bufEnd - buf` (0 also behind `bufEnd`); `start` is the address of the first byte, and `overrun`
-- has the bytes that are written behind `bufEnd`; with the local variables `dlsch_total_bytes` and `sdus` and the statistics
-- `lc_bytes`. `sent` has no counterpart in the source: the data of the RLC layer in the block, each
-- with its logical channel, in order.
pub record Writing (src : Source) : Type 0 where
  pub start : ℕ
  pub bytes : List ℕ
  pub overrun : List ℕ
  pub room : ℕ
  pub dlsch_total_bytes : ℕ
  pub sdus : ℕ
  pub lc_bytes : List ℕ
  pub source : src.R
  pub sent : List (ℕ × List ℕ)
