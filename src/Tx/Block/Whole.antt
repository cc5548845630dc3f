-- ===== src/Tx/Block/Whole.antt =====
-- The transport block of an initial transmission as a whole.
use user_ric.Prelude.{
  zero, suc, not, ◌&&◌, ◌/◌, ◌*◌, Bool-cases, inl, inr, length-take, length-drop, ℕ, ◌+◌, ◌-◌, ◌%◌,
  ◌<◌, ◌≤◌, ◌≡◌, refl, sym, ap, ◌∙◌, Bool, true, List, [], ◌∷◌, ◌++◌, Option, none, some,
  if◌then◌else◌, ltb, length, drop, take, All, arith, length-append, length-replicate, replicate,
  if_ind, drop-append, take-append,
}
use mathlib.Core.List.{append-nil}
use mathlib.Core.Path.{subst}
use user_ric.Prelude.Float.{Float}
use user_ric.Dl.{DlUe}
use user_ric.Tx.{Source, Writing}
use user_ric.Tx.Block.{
  random_bytes, random_words, random_data, subheader_long, fill_random, pad, fill_body, begin_body,
  initial_block,
}
use user_ric.Tx.Block.Reads.{read_sdus, Fits, Ending, encode_all, read_sdus-encode_all}
use user_ric.Tx.Block.Exact.{payload, SourceLaws, IsChannel, Written, Filled, fill_channels-Filled}

length-encode_all : (ps : List (ℕ × List ℕ)) (end : List ℕ) → length ps ≤ length (encode_all ps end)
length-encode_all [] end = omega arith
length-encode_all (p ∷ ps) end =
    omega (arith, length-encode_all ps end, length-append p.1 (encode_all ps end))

-- How many bytes the alignment of random data writes behind a block with `room` bytes from an address
-- on: as many as it needs more than there are behind the header.
abbrev pub past_end : Bool → ℕ → ℕ → ℕ
past_end random room address =
    if random && ltb 3 room then (4 - (address + 3) % 4) % 4 - (room - 3) else 0

-- What a transport block of `tbs` bytes holds: the control elements, and behind them the data of the
-- RLC layer, as the receiver reads them; and how many bytes are written behind the block.
pub record Holds (src : Source) (tbs past : ℕ) (control_elements block : List ℕ) (st : Writing src)
    : Type 0 where
  pub full : length block ≡ tbs
  pub elements : take (length control_elements) block ≡ control_elements
  pub read : read_sdus src.dl_sch_lcid_padding tbs (drop (length control_elements) block) ≡ st.sent
  pub total : st.dlsch_total_bytes ≡ payload st.sent
  pub overrun : length st.overrun ≡ past

module _ {fl : Float} (src : Source) (laws : SourceLaws src) (ue : DlUe fl) where
  -- nothing is left to write
  record Finished (size past : ℕ) (st : Writing src) : Type 0 where
    full : length st.bytes ≡ size
    behind : List ℕ
    encoded : st.bytes ≡ encode_all st.sent behind
    ending : Ending src.dl_sch_lcid_padding behind
    fitting : All (Fits src.dl_sch_lcid_padding) st.sent
    total : st.dlsch_total_bytes ≡ payload st.sent
    overrun : length st.overrun ≡ past

  module _ (size : ℕ) (short : size < 65536) where
    pad-Finished :
        (st : Writing src) → Written src laws ue size short st → Finished size 0 (pad src ue st)
    unfolding pad
    pad-Finished st w =
        let zeros : List ℕ = replicate (st.room - 1) 0 in
        let end = src.dl_sch_lcid_padding % 64 ∷ zeros in
        if_ind (Finished size 0) (ltb 0 st.room) (record st { bytes = st.bytes ++ end; room = 0 })
          st
          (λ more. record {
            full = ground (
              arith,
              more,
              length-append st.bytes end,
              length-replicate {A = ℕ} (st.room - 1) 0,
              w.whole,
            );
            behind = end;
            encoded = w.encoded end;
            ending = omega (arith, laws.padding_small);
            fitting = w.fitting;
            total = w.counted.1;
            overrun = ap (length {A = ℕ}) w.inside;
          })
          (λ full. record {
            full = ground (arith, full, w.whole);
            behind = [];
            encoded = sym (append-nil st.bytes) ∙ w.encoded [];
            ending = tt;
            fitting = w.fitting;
            total = w.counted.1;
            overrun = ap (length {A = ℕ}) w.inside;
          })

    length-random_bytes : (n : ℕ) (r : src.R) → length (random_bytes src ue n r).0 ≡ n
    unfolding random_bytes
    length-random_bytes zero r = refl
    length-random_bytes (suc n) r = omega (arith, length-random_bytes n (src.lrand48 r).1)

    length-random_words : (n : ℕ) (r : src.R) → length (random_words src ue n r).0 ≡ 4 * n
    unfolding random_words
    length-random_words zero r = refl
    length-random_words (suc n) r = omega (arith, length-random_words n (src.lrand48 r).1)

    -- the alignment, and the bytes that are left behind it
    length-random_data :
        (address n : ℕ) (r : src.R)
        → length (random_data src ue address n r).0
          ≡ (4 - address % 4) % 4 + (n - (4 - address % 4) % 4)
    unfolding random_data
    length-random_data address n r =
        let a = (4 - address % 4) % 4 in
        let front = random_bytes src ue a r in
        let words = random_words src ue ((n - a) / 4) front.1 in
        let rest = random_bytes src ue ((n - a) % 4) words.1 in
        omega (
          arith,
          length-append front.0 (words.0 ++ rest.0),
          length-append words.0 rest.0,
          length-random_bytes a r,
          length-random_words ((n - a) / 4) front.1,
          length-random_bytes ((n - a) % 4) words.1,
        )

    random-Finished :
        (st : Writing src)
        → Written src laws ue size short st
        → Finished size
            (past_end true st.room (st.start + length st.bytes))
            (pad src ue (fill_random src ue st))
    unfolding pad fill_random subheader_long
    random-Finished st w = elim (Bool-cases (ltb 3 st.room)) [
      | inr none_left ↦ rw none_left (pad-Finished st w)
      | inl more ↦
          let n = st.room - 3 in
          let address = st.start + length st.bytes + 3 in
          let got = random_data src ue address n st.source in
          let padding = src.dl_sch_lcid_padding in
          let behind = subheader_long padding n ++ take n got.0 in
          rw more (record {
            full = ground (
              arith,
              more,
              length-append st.bytes behind,
              length-take n got.0,
              length-random_data address n st.source,
              w.whole,
            );
            behind = behind;
            encoded = w.encoded behind;
            ending = omega (arith, laws.padding_small);
            fitting = w.fitting;
            total = w.counted.1;
            overrun = omega (arith, length-drop n got.0, length-random_data address n st.source);
          })
    ]

    abbrev Paddable : ℕ → Option (Writing src) → Type 0
    Paddable past none = 1 ≤ 0
    Paddable past (some st) = Finished size past (pad src ue st)

    pad_last : (o : Option (Writing src)) → Filled src laws ue size short o → Paddable 0 o
    pad_last none h = h
    pad_last (some st) w = pad-Finished st w

    fill_body-Paddable :
        (test_mode : Bool) (st : Writing src)
        → All (λ c. IsChannel src c.lcid) ue.lc_config
        → Written src laws ue size short st
        → Paddable
            (past_end
              (not (ltb 0 ue.num_total_bytes) && test_mode)
              st.room
              (st.start + length st.bytes))
            (fill_body src ue test_mode st)
    unfolding fill_body
    fill_body-Paddable test_mode st h w = elim (Bool-cases (ltb 0 ue.num_total_bytes)) [
      | inl has_data ↦
          rw has_data (pad_last _ (fill_channels-Filled src laws ue size short ue.lc_config st h w))
      | inr no_data ↦ rw no_data (elim (Bool-cases test_mode) [
        | inl test ↦ rw test (random-Finished st w)
        | inr no_test ↦ rw no_test (pad-Finished st w)
      ])
    ]

    begin-Written :
        (start : ℕ) (lc_bytes : List ℕ) (r : src.R)
        → Written src laws ue size short (begin_body src ue start size lc_bytes r)
    begin-Written start lc_bytes r = record {
      whole = omega arith;
      encoded = λ end. refl;
      fitting = tt;
      counted = (refl, refl);
      inside = refl;
    }

  finished-Holds :
      (tbs past : ℕ) (control_elements : List ℕ) (st : Writing src)
      → length control_elements < tbs
      → Finished (tbs - length control_elements) past st
      → Holds src tbs past control_elements (control_elements ++ st.bytes) st
  finished-Holds tbs past ces st l f =
      let padding = src.dl_sch_lcid_padding in
      let behind = drop-append ces st.bytes ∙ f.encoded in
      let few : length st.sent ≤ tbs =
        omega (arith, length-encode_all st.sent f.behind, ap (length {A = ℕ}) f.encoded, f.full) in
      record {
        full = omega (arith, length-append ces st.bytes, f.full, l);
        elements = take-append ces st.bytes;
        read =
            ap (read_sdus padding tbs) behind
            ∙ read_sdus-encode_all padding tbs st.sent f.behind f.fitting f.ending few;
        total = f.total;
        overrun = f.overrun;
      }

  complete :
      (tbs past : ℕ) (control_elements : List ℕ) (o : Option (Writing src))
      (short : tbs - length control_elements < 65536)
      → length control_elements < tbs
      → Paddable (tbs - length control_elements) short past o
      → (block : List ℕ) × (st : Writing src) × ((elim o as (λ _. Option (List ℕ × Writing src)) [
        | none ↦ none
        | some s ↦ let s1 = pad src ue s in some (control_elements ++ s1.bytes, s1)
      ])
          ≡ some (block, st))
        × Holds src tbs past control_elements block st
  complete tbs past ces none short l p = absurd (omega (arith, p))
  complete tbs past ces (some s) short l p =
      let s1 = pad src ue s in (ces ++ s1.bytes, s1, refl, finished-Holds tbs past ces s1 l p)

  -- If the control elements leave at least one byte of a grant of less than 65536 bytes, the
  -- channels of the UE have numbers of six bits other than that of the padding, which has six bits
  -- too, and the RLC layer gives no more bytes than it is asked for, then the block is filled to its
  -- last byte, within the bound on the rounds of the loops; it begins with the control elements, and
  -- the receiver who reads it from there up to the padding gets the data that the RLC layer has given,
  -- each with its channel, in order. The bytes counted are those of the data. Nothing is written
  -- behind the block, but for the random data of a test mode, which are written when the UE has no
  -- data and more than three bytes are left: their alignment to four bytes is not tested against the
  -- end, and as many bytes are written behind the block as it needs more than there is room for
  -- behind the header.
  pub initial_block-Holds :
      (test_mode : Bool) (tbs address : ℕ) (control_elements lc_bytes : List ℕ) (r : src.R)
      → tbs < 65536
      → length control_elements < tbs
      → All (λ c. IsChannel src c.lcid) ue.lc_config
      → (block : List ℕ) × (st : Writing src) × (initial_block src ue test_mode tbs address
            control_elements lc_bytes r
          ≡ some (block, st))
        × Holds src tbs
            (past_end
              (not (ltb 0 ue.num_total_bytes) && test_mode)
              (tbs - length control_elements)
              (address + length control_elements))
            control_elements
            block
            st
  unfolding initial_block
  initial_block-Holds test_mode tbs address ces lc_bytes r short l h =
      let size = tbs - length ces in
      let start = address + length ces in
      let short1 : size < 65536 = omega (arith, short) in
      let started = begin_body src ue start size lc_bytes r in
      let fits : ltb (length ces) tbs ≡ true = ground (arith, l) in
      let random = not (ltb 0 ue.num_total_bytes) && test_mode in
      let first : start + 0 ≡ start = omega arith in
      let filled =
        subst
          (λ a. Paddable size short1 (past_end random size a) (fill_body src ue test_mode started))
          first
          (fill_body-Paddable size short1 test_mode started h
            (begin-Written size short1 start lc_bytes r)) in
      rw fits (
        complete tbs (past_end random size start) ces (fill_body src ue test_mode started) short1 l
          filled)
