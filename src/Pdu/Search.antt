-- ===== src/Pdu/Search.antt =====
-- The search for a C-RNTI finds the first one of a well-formed PDU.
use user_ric.Prelude.{
  ℕ, zero, suc, ◌+◌, ◌*◌, ◌/◌, ◌%◌, ◌<◌, ◌≡◌, ◌≢◌, refl, sym, ap, ◌∙◌, inl, inr, false, List, [],
  ◌∷◌, ◌++◌, some, ◌==◌, ltb, length, drop, length-append, drop-append, Bool-cases, arith, All,
  ==_iff,
}
use user_ric.Pdu.{
  UlLcids, Kind, Header, Lookahead, header_kind, decode_ul_mac_sub_pdu_header, lcid_crnti_lookahead,
}
use user_ric.Pdu.Encoding.{
  SubPdu, encode, encode_all, IsValid, first_crnti, UlLcidLaws, Trailer, small,
}

module _ (ids : UlLcids) (laws : UlLcidLaws ids) where
  -- A channel whose header has a length is not that of the padding.
  not_padding :
      (lcid : ℕ) (k : Kind)
      → header_kind ids lcid ≡ k
      → k ≢ Kind.unsized
      → (lcid == ids.padding) ≡ false
  not_padding lcid k e d = elim (Bool-cases (lcid == ids.padding)) [
    | inr other ↦ other
    | inl same ↦
        let eq : lcid ≡ ids.padding = (==_iff lcid ids.padding).0 same in
        absurd (d (sym e ∙ ap (header_kind ids) eq ∙ laws.padding_unsized))
  ]

  not_crnti : (lcid : ℕ) → header_kind ids lcid ≡ Kind.sized → (lcid == ids.c_rnti) ≡ false
  not_crnti lcid e = elim (Bool-cases (lcid == ids.c_rnti)) [
    | inr other ↦ other
    | inl same ↦
        let eq : lcid ≡ ids.c_rnti = (==_iff lcid ids.c_rnti).0 same in
        let clash : Kind.sized ≡ Kind.fixed 2 =
          sym e ∙ ap (header_kind ids) eq ∙ laws.c_rnti_fixed in
        absurd (ground (arith, clash))
  ]

  -- The search passes over a sub-PDU of another channel.
  step :
      (fuel b : ℕ) (bs front rest : List ℕ) (h : Header)
      → b ∷ bs ≡ front ++ rest
      → decode_ul_mac_sub_pdu_header ids (b ∷ bs) 0 ≡ some h
      → length front ≡ h.mac_len + h.mac_subheader_len
      → (h.lcid == ids.c_rnti) ≡ false
      → (h.lcid == ids.padding) ≡ false
      → lcid_crnti_lookahead ids (suc fuel) (b ∷ bs) ≡ lcid_crnti_lookahead ids fuel rest
  unfolding lcid_crnti_lookahead
  step fuel b bs front rest h whole d size c p =
      let left : drop (h.mac_len + h.mac_subheader_len) (b ∷ bs) ≡ rest =
        ap (λ n. drop n (b ∷ bs)) (sym size)
        ∙ ap (drop (length front)) whole
        ∙ drop-append front rest in
      let fits : length (b ∷ bs) ≡ length front + length rest =
        ap length whole ∙ length-append front rest in
      let enough : ltb (suc (length bs)) (h.mac_subheader_len + h.mac_len) ≡ false =
        ground (arith, fits, size) in
      rw (lcid_crnti_lookahead, d, enough, c, p, left) refl

  passes_short :
      (fuel lcid : ℕ) (p rest : List ℕ)
      → IsValid ids (SubPdu.short lcid p)
      → lcid_crnti_lookahead ids (suc fuel) (encode ids (SubPdu.short lcid p) ++ rest)
        ≡ lcid_crnti_lookahead ids fuel rest
  unfolding decode_ul_mac_sub_pdu_header
  passes_short fuel lcid p rest (l, k, n) =
      let (a, b, _, _) = small lcid l in
      step fuel lcid (length p ∷ (p ++ rest)) (lcid ∷ length p ∷ p) rest
        (record { mac_subheader_len = 2; lcid = lcid; mac_len = length p }) refl
        (rw (a, k, b) (rw a refl)) (omega arith) (not_crnti lcid k)
        (not_padding lcid Kind.sized k (λ e. ground (arith, e)))

  passes_long :
      (fuel lcid : ℕ) (p rest : List ℕ)
      → IsValid ids (SubPdu.long lcid p)
      → lcid_crnti_lookahead ids (suc fuel) (encode ids (SubPdu.long lcid p) ++ rest)
        ≡ lcid_crnti_lookahead ids fuel rest
  unfolding decode_ul_mac_sub_pdu_header
  passes_long fuel lcid p rest (l, k, n) =
      let (_, _, a, b) = small lcid l in
      let joined : length p / 256 * 256 + length p % 256 ≡ length p = omega arith in
      step fuel (lcid + 64) (length p / 256 ∷ length p % 256 ∷ (p ++ rest))
        ((lcid + 64) ∷ length p / 256 ∷ length p % 256 ∷ p) rest
        (record { mac_subheader_len = 3; lcid = lcid; mac_len = length p }) refl
        (rw (a, k, b, joined) (rw a refl)) (omega arith) (not_crnti lcid k)
        (not_padding lcid Kind.sized k (λ e. ground (arith, e)))

  passes_plain :
      (fuel lcid : ℕ) (p rest : List ℕ)
      → IsValid ids (SubPdu.plain lcid p)
      → lcid_crnti_lookahead ids (suc fuel) (encode ids (SubPdu.plain lcid p) ++ rest)
        ≡ lcid_crnti_lookahead ids fuel rest
  unfolding decode_ul_mac_sub_pdu_header
  passes_plain fuel lcid p rest (l, k, c) =
      let (a, _, _, _) = small lcid l in
      step fuel lcid (p ++ rest) (lcid ∷ p) rest
        (record { mac_subheader_len = 1; lcid = lcid; mac_len = length p }) refl
        (rw (a, k) (rw a refl)) (omega arith) (ground (arith, c))
        (not_padding lcid (Kind.fixed (length p)) k (λ e. ground (arith, e)))

  finds_crnti :
      (fuel r : ℕ) (rest : List ℕ)
      → r < 65536
      → lcid_crnti_lookahead ids (suc fuel) (encode ids (SubPdu.crnti r) ++ rest)
        ≡ Lookahead.returned r
  unfolding lcid_crnti_lookahead decode_ul_mac_sub_pdu_header
  finds_crnti fuel r rest h =
      let (a, _, _, _) = small ids.c_rnti laws.c_rnti_small in
      let joined : r / 256 * 256 + r % 256 ≡ r = omega arith in
      let enough : ltb (suc (suc (suc (length rest)))) 3 ≡ false = ground arith in
      rw (lcid_crnti_lookahead, decode_ul_mac_sub_pdu_header, a, laws.c_rnti_fixed)
        (rw (a, enough) (rw ((==_iff ids.c_rnti ids.c_rnti).1 refl, joined) refl))

  search_stops :
      (fuel : ℕ) (rest : List ℕ)
      → Trailer ids rest
      → length rest < fuel
      → lcid_crnti_lookahead ids fuel rest ≡ Lookahead.returned 0
  unfolding lcid_crnti_lookahead decode_ul_mac_sub_pdu_header
  search_stops fuel rest (inl e) l = rw e refl
  search_stops zero rest (inr (bs, e)) l = absurd (omega arith)
  search_stops (suc fuel) rest (inr (bs, e)) l =
      let (a, _, _, _) = small ids.padding laws.padding_small in
      let other : (ids.padding == ids.c_rnti) ≡ false =
        ground (
          arith,
          not_padding ids.c_rnti (Kind.fixed 2) laws.c_rnti_fixed (λ e. ground (arith, e)),
        ) in
      let enough : ltb (suc (length bs)) 1 ≡ false = ground arith in
      rw (e, lcid_crnti_lookahead, decode_ul_mac_sub_pdu_header, a, laws.padding_unsized)
        (rw (a, enough) (rw (other, (==_iff ids.padding ids.padding).1 refl) refl))

  -- In a PDU of valid sub-PDUs, followed by nothing or by padding, the search, given more rounds than
  -- the PDU has bytes, returns the C-RNTI of the first control element that has one, or 0 if none
  -- has, and does not read past the end.
  pub lookahead-encode_all :
      (fuel : ℕ) (ss : List SubPdu) (rest : List ℕ)
      → All (IsValid ids) ss
      → Trailer ids rest
      → length (encode_all ids ss rest) < fuel
      → lcid_crnti_lookahead ids fuel (encode_all ids ss rest)
        ≡ Lookahead.returned (first_crnti ids ss)
  lookahead-encode_all zero ss rest v t l = absurd (omega arith)
  lookahead-encode_all (suc fuel) [] rest v t l = search_stops (suc fuel) rest t l
  lookahead-encode_all (suc fuel) (SubPdu.crnti r ∷ ss) rest v t l =
      finds_crnti fuel r (encode_all ids ss rest) v.0
  lookahead-encode_all (suc fuel) (SubPdu.short c p ∷ ss) rest v t l =
      passes_short fuel c p (encode_all ids ss rest) v.0
      ∙ lookahead-encode_all fuel ss rest v.1 t
          (omega (arith, l, length-append p (encode_all ids ss rest)))
  lookahead-encode_all (suc fuel) (SubPdu.long c p ∷ ss) rest v t l =
      passes_long fuel c p (encode_all ids ss rest) v.0
      ∙ lookahead-encode_all fuel ss rest v.1 t
          (omega (arith, l, length-append p (encode_all ids ss rest)))
  lookahead-encode_all (suc fuel) (SubPdu.plain c p ∷ ss) rest v t l =
      passes_plain fuel c p (encode_all ids ss rest) v.0
      ∙ lookahead-encode_all fuel ss rest v.1 t
          (omega (arith, l, length-append p (encode_all ids ss rest)))
