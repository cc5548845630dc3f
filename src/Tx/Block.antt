-- ===== src/Tx/Block.antt =====
-- Filling a transport block with the data of the logical channels, random data or padding, in
-- `nr_schedule_ue_spec` of gnb_patch/gNB_scheduler_dlsch.c.
pub mod Reads
pub mod Exact
pub mod Whole
use user_ric.Prelude.{
  ℕ, zero, suc, ◌+◌, ◌-◌, ◌/◌, ◌%◌, Bool, true, false, List, [], ◌∷◌, ◌++◌, Option, none, some,
  if◌then◌else◌, ◌==◌, ltb, min, length, replicate, get_or, take, drop,
}
use user_ric.Prelude.Float.{Float}
use user_ric.Prelude.Slots.{modify}
use user_ric.Dl.{DlUe, LcConfig}
use user_ric.Dl.Buffer.{no_status}
use user_ric.Tx.{Source, Writing}

-- `NR_MAC_SUBHEADER_LONG` with R = 0 and F = 1: the channel in the low six bits, and the length in
-- the order of the network
unfoldable pub subheader_long : ℕ → ℕ → List ℕ
subheader_long lcid len = (64 + lcid % 64) ∷ len / 256 % 256 ∷ len % 256 ∷ []

module _ {fl : Float} (src : Source) (ue : DlUe fl) where
  -- data of the RLC layer behind its header; nothing ends the loop
  unfoldable pub put : ℕ → List ℕ → src.R → Writing src → Bool × Writing src
  unfolding subheader_long
  put lcid [] r st = (false, record st { source = r })
  put lcid (b ∷ sdu) r st =
      let len = length (b ∷ sdu) in
      (
        true,
        record st {
          bytes = st.bytes ++ (subheader_long lcid len ++ b ∷ sdu);
          room = st.room - (len + 3);
          dlsch_total_bytes = st.dlsch_total_bytes + len;
          sdus = st.sdus + 1;
          source = r;
          sent = st.sent ++ (lcid, b ∷ sdu) ∷ [];
        },
      )

  -- the test of the loop and its body: whether the loop goes on, and the new state
  unfoldable pub fetch : ℕ → ℕ → Writing src → Bool × Writing src
  unfolding put
  fetch lcid bytes_in_buffer st =
      let ndata = min bytes_in_buffer (st.room - 3) in
      let (sdu, r) = src.nr_mac_rlc_data_req st.source ue.rnti lcid ndata in
      if ltb 4 st.room then put lcid sdu r st else (false, st)

  -- the loop, with a bound on its rounds; `none` is a loop that has not ended within them
  unfoldable pub fetch_all : ℕ → ℕ → ℕ → Writing src → Option (Writing src)
  unfolding fetch
  fetch_all zero lcid bytes_in_buffer st = none
  fetch_all (suc fuel) lcid bytes_in_buffer st =
      let next = fetch lcid bytes_in_buffer st in
      elim next.0 [ false ↦ some next.1 | true ↦ fetch_all fuel lcid bytes_in_buffer next.1 ]

  -- the statistics of a channel
  unfoldable pub count_channel : ℕ → ℕ → Writing src → Writing src
  count_channel lcid before st = record st {
    lc_bytes = modify st.lc_bytes lcid (λ n. n + (st.dlsch_total_bytes - before));
  }

  -- the loop over the logical channels
  unfoldable pub fill_channels : List LcConfig → Writing src → Option (Writing src)
  unfolding fetch_all count_channel
  fill_channels [] st = some st
  fill_channels (c ∷ cs) st =
      let waiting = (get_or ue.rlc_status c.lcid no_status).bytes_in_buffer in
      elim (waiting == 0) [
        | true ↦ fill_channels cs st
        | false ↦ elim (fetch_all (suc st.room) c.lcid waiting st) [
          | none ↦ none
          | some st1 ↦ fill_channels cs (count_channel c.lcid st.dlsch_total_bytes st1)
        ]
      ]

  -- a byte of each of some calls of the generator
  unfoldable pub random_bytes : ℕ → src.R → List ℕ × src.R
  random_bytes zero r = ([], r)
  random_bytes (suc n) r =
      let (x, r1) = src.lrand48 r in let (bytes, r2) = random_bytes n r1 in (x % 256 ∷ bytes, r2)

  -- the four bytes of each of some calls, the lowest first
  unfoldable pub random_words : ℕ → src.R → List ℕ × src.R
  random_words zero r = ([], r)
  random_words (suc n) r =
      let (x, r1) = src.lrand48 r in
      let (bytes, r2) = random_words n r1 in
      (x % 256 ∷ x / 256 % 256 ∷ x / 65536 % 256 ∷ x / 16777216 % 256 ∷ bytes, r2)

  -- the three loops that write random data where `n` bytes are left: single bytes up to an address
  -- that four divides, which may be behind `bufEnd`, then words, then single bytes
  unfoldable pub random_data : ℕ → ℕ → src.R → List ℕ × src.R
  unfolding random_bytes random_words
  random_data address n r =
      let aligning = (4 - address % 4) % 4 in
      let (front, r1) = random_bytes aligning r in
      let (words, r2) = random_words ((n - aligning) / 4) r1 in
      let (rest, r3) = random_bytes ((n - aligning) % 4) r2 in (front ++ (words ++ rest), r3)

  -- random data for tests: what has room in the block, and what is written behind it
  unfoldable pub fill_random : Writing src → Writing src
  unfolding subheader_long random_data
  fill_random st =
      let n = st.room - 3 in
      let (sdu, r) = random_data (st.start + length st.bytes + 3) n st.source in
      if ltb 3 st.room
      then record st {
        bytes = st.bytes ++ (subheader_long src.dl_sch_lcid_padding n ++ take n sdu);
        overrun = drop n sdu;
        room = 0;
        sdus = st.sdus + 1;
        source = r;
      }
      else st

  -- the padding header and zeros
  unfoldable pub pad : Writing src → Writing src
  pad st =
      if ltb 0 st.room
      then record st {
        bytes = st.bytes ++ (src.dl_sch_lcid_padding % 64 ∷ replicate (st.room - 1) 0);
        room = 0;
      }
      else st

  -- what the block is filled with
  unfoldable pub fill_body : Bool → Writing src → Option (Writing src)
  unfolding fill_channels fill_random
  fill_body test_mode st =
      if ltb 0 ue.num_total_bytes
      then fill_channels ue.lc_config st
      else some (if test_mode then fill_random st else st)

  -- what is written behind the control elements, from an address on
  abbrev pub begin_body : ℕ → ℕ → List ℕ → src.R → Writing src
  begin_body start room lc_bytes r = record {
    start = start;
    bytes = [];
    overrun = [];
    room = room;
    dlsch_total_bytes = 0;
    sdus = 0;
    lc_bytes = lc_bytes;
    source = r;
    sent = [];
  }

  -- The initial transmission of a block of `tbs` bytes at an address, which begins with the control
  -- elements: the bytes of the block, and what the writing leaves; `none` is a failed assertion.
  unfoldable pub initial_block :
      Bool → ℕ → ℕ → List ℕ → List ℕ → src.R → Option (List ℕ × Writing src)
  unfolding fill_body pad
  initial_block test_mode tbs address control_elements lc_bytes r =
      let written = length control_elements in
      let filled =
        fill_body test_mode (begin_body (address + written) (tbs - written) lc_bytes r) in
      if ltb written tbs
      then elim filled [
        | none ↦ none
        | some st ↦ let st1 = pad st in some (control_elements ++ st1.bytes, st1)
      ]
      else none
