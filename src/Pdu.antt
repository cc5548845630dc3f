-- ===== src/Pdu.antt =====
-- Uplink MAC PDUs: `decode_ul_mac_sub_pdu_header` and `lcid_crnti_lookahead` of
-- gnb_patch/gNB_scheduler_ulsch.c. A PDU is the list of its bytes; reading past its end is an
-- outcome of its own.
pub mod Encoding
pub mod Search
use user_ric.Prelude.{
  ℕ, zero, suc, ◌+◌, ◌-◌, ◌*◌, ◌/◌, ◌%◌, Bool, true, false, not, ◌&&◌, ◌||◌, List, [], ◌∷◌, Option,
  none, some, if◌then◌else◌, ◌==◌, ltb, leb, length, drop, get_or,
}

-- the numbers of the logical channels, which the gNB's headers define
pub record UlLcids : Type 0 where
  pub ccch_64_bits : ℕ
  pub srb1 : ℕ
  pub srb2 : ℕ
  pub dtch : ℕ
  pub l_truncated_bsr : ℕ
  pub l_bsr : ℕ
  pub ccch_48_bits_redcap : ℕ
  pub ccch_48_bits : ℕ
  pub single_entry_phr : ℕ
  pub c_rnti : ℕ
  pub s_truncated_bsr : ℕ
  pub s_bsr : ℕ
  pub padding : ℕ

-- What the cases of the `switch` come to: a payload of known length, a length field, or neither.
pub data Kind : Type 0 where
  fixed : ℕ → Kind
  sized : Kind
  unsized : Kind

-- a header: its length, the logical channel and the length of the payload
pub record Header : Type 0 where
  pub mac_subheader_len : ℕ
  pub lcid : ℕ
  pub mac_len : ℕ

-- what the lookahead comes to: the value returned, a read past the end, or too few rounds
pub data Lookahead : Type 0 where
  returned : ℕ → Lookahead
  over_read : Lookahead
  unfinished : Lookahead

-- the length field behind the first byte, with its F bit
abbrev pub length_field : Bool → List ℕ → ℕ → Option Header
length_field true (b1 ∷ b2 ∷ _) lcid =
    some (record { mac_subheader_len = 3; lcid = lcid; mac_len = b1 * 256 + b2 })
length_field true _ lcid = none
length_field false (b1 ∷ _) lcid =
    some (record { mac_subheader_len = 2; lcid = lcid; mac_len = b1 })
length_field false [] lcid = none

module _ (ids : UlLcids) where
  -- the `switch` over the logical channel
  unfoldable pub header_kind : ℕ → Kind
  header_kind lcid =
      if lcid == ids.ccch_64_bits
      then Kind.fixed 8
      else if (lcid == ids.srb1 || lcid == ids.srb2)
          || ((leb ids.dtch lcid && leb lcid (ids.dtch + 28))
              || (lcid == ids.l_truncated_bsr || lcid == ids.l_bsr))
      then Kind.sized
      else if lcid == ids.ccch_48_bits_redcap || lcid == ids.ccch_48_bits
      then Kind.fixed 6
      else if lcid == ids.single_entry_phr || lcid == ids.c_rnti
      then Kind.fixed 2
      else if lcid == ids.s_truncated_bsr || lcid == ids.s_bsr
      then Kind.fixed 1
      else Kind.unsized

  -- the header that starts with byte `b0`, by the kind of its channel; `before` is `*length` at entry
  abbrev pub header_of : Kind → ℕ → List ℕ → ℕ → Option Header
  header_of (Kind.fixed n) b0 rest before =
      some (record { mac_subheader_len = 1; lcid = b0 % 64; mac_len = n })
  header_of Kind.sized b0 rest before = length_field (b0 / 64 % 2 == 1) rest (b0 % 64)
  header_of Kind.unsized b0 rest before =
      some (record { mac_subheader_len = 1; lcid = b0 % 64; mac_len = before })

  -- `decode_ul_mac_sub_pdu_header`
  unfoldable pub decode_ul_mac_sub_pdu_header : List ℕ → ℕ → Option Header
  unfolding header_kind
  decode_ul_mac_sub_pdu_header [] before = none
  decode_ul_mac_sub_pdu_header (b0 ∷ rest) before = header_of (header_kind (b0 % 64)) b0 rest before

  -- `lcid_crnti_lookahead`, with a bound on its rounds
  unfoldable pub lcid_crnti_lookahead : ℕ → List ℕ → Lookahead
  unfolding decode_ul_mac_sub_pdu_header
  lcid_crnti_lookahead fuel [] = Lookahead.returned 0
  lcid_crnti_lookahead zero (b ∷ bs) = Lookahead.unfinished
  lcid_crnti_lookahead (suc fuel) (b ∷ bs) =
      let pdu = b ∷ bs in
      elim (decode_ul_mac_sub_pdu_header pdu 0) [
        | none ↦ Lookahead.over_read
        | some h ↦
            let next = lcid_crnti_lookahead fuel (drop (h.mac_len + h.mac_subheader_len) pdu) in
            if ltb (length pdu) (h.mac_subheader_len + h.mac_len)
            then Lookahead.returned 0
            else if h.lcid == ids.c_rnti
            then Lookahead.returned (get_or pdu 1 0 * 256 + get_or pdu 2 0)
            else if h.lcid == ids.padding
            then Lookahead.returned 0
            else next
      ]
