-- ===== src/Tests/Pdu.antt =====
-- Uplink MAC PDUs: gnb_patch/gNB_scheduler_ulsch.c.
use user_ric.Prelude.{◌≡◌, refl, List, [], ◌∷◌, arith, inr}
use user_ric.Pdu.{UlLcids, Lookahead, lcid_crnti_lookahead, header_kind}
use user_ric.Pdu.Encoding.{SubPdu, encode_all, UlLcidLaws}
use user_ric.Pdu.Search.{lookahead-encode_all}

abbrev ids : UlLcids
ids = record {
  ccch_64_bits = 0;
  srb1 = 1;
  srb2 = 2;
  dtch = 4;
  l_truncated_bsr = 60;
  l_bsr = 62;
  ccch_48_bits_redcap = 53;
  ccch_48_bits = 52;
  single_entry_phr = 57;
  c_rnti = 58;
  s_truncated_bsr = 59;
  s_bsr = 61;
  padding = 63;
}

ids_laws : UlLcidLaws ids
unfolding header_kind
ids_laws = record {
  c_rnti_small = omega arith;
  c_rnti_fixed = refl;
  padding_small = omega arith;
  padding_unsized = refl;
}

-- A data sub-PDU, a power headroom report and a C-RNTI.
abbrev sub_pdus : List SubPdu
sub_pdus = SubPdu.short 4 (9 ∷ 9 ∷ 9 ∷ []) ∷ SubPdu.plain 57 (1 ∷ 2 ∷ []) ∷ SubPdu.crnti 4660 ∷ []

lookahead-encode_all_example :
    lcid_crnti_lookahead ids 20 (encode_all ids sub_pdus (63 ∷ 0 ∷ [])) ≡ Lookahead.returned 4660
unfolding header_kind
lookahead-encode_all_example =
    lookahead-encode_all ids ids_laws 20 sub_pdus (63 ∷ 0 ∷ [])
      ((omega arith, refl, omega arith), ((omega arith, refl, omega arith), (omega arith, tt)))
      (inr (0 ∷ [], refl)) (omega arith)

-- A last byte that announces a length field makes the search read past the end.
over_read : lcid_crnti_lookahead ids 2 (4 ∷ []) ≡ Lookahead.over_read
unfolding lcid_crnti_lookahead
over_read = refl
