-- ===== src/Pdu/Encoding.antt =====
-- The search for a C-RNTI ends, and finds the first one of a well-formed PDU.
use user_ric.Prelude.{
  ℕ, zero, suc, ◌+◌, ◌/◌, ◌%◌, ◌<◌, ◌≤◌, ◌≡◌, ◌≢◌, ◌⊎◌, inl, inr, Bool, true, false, List, [], ◌∷◌,
  ◌++◌, some, ◌==◌, length, drop, length-drop, Option-cases, arith,
}
use user_ric.Pdu.{
  UlLcids, Kind, Header, Lookahead, header_kind, length_field, header_of,
  decode_ul_mac_sub_pdu_header, lcid_crnti_lookahead,
}

module _ (ids : UlLcids) where
  length_field-Header :
      (f : Bool) (rest : List ℕ) (lcid : ℕ) (h : Header)
      → length_field f rest lcid ≡ some h
      → 0 < h.mac_subheader_len
  length_field-Header true [] lcid h e = absurd (ground (arith, e))
  length_field-Header true (a ∷ []) lcid h e = absurd (ground (arith, e))
  length_field-Header true (a ∷ b ∷ rest) lcid h e = ground (arith, e)
  length_field-Header false [] lcid h e = absurd (ground (arith, e))
  length_field-Header false (a ∷ rest) lcid h e = ground (arith, e)

  header_of-Header :
      (k : Kind) (b0 : ℕ) (rest : List ℕ) (before : ℕ) (h : Header)
      → header_of ids k b0 rest before ≡ some h
      → 0 < h.mac_subheader_len
  header_of-Header (Kind.fixed n) b0 rest before h e = ground (arith, e)
  header_of-Header Kind.sized b0 rest before h e =
      length_field-Header (b0 / 64 % 2 == 1) rest (b0 % 64) h e
  header_of-Header Kind.unsized b0 rest before h e = ground (arith, e)

  -- A header takes at least one byte, so the search ends after at most as many rounds as the PDU has
  -- bytes.
  lookahead_ends :
      (fuel : ℕ) (pdu : List ℕ)
      → length pdu ≤ fuel
      → lcid_crnti_lookahead ids fuel pdu ≢ Lookahead.unfinished
  unfolding lcid_crnti_lookahead decode_ul_mac_sub_pdu_header
  lookahead_ends fuel [] l e = ground (arith, e)
  lookahead_ends zero (b ∷ bs) l e = omega arith
  lookahead_ends (suc fuel) (b ∷ bs) l e =
      elim (Option-cases (decode_ul_mac_sub_pdu_header ids (b ∷ bs) 0)) [
        | inl n ↦ ground (arith, n, e)
        | inr (h, d) ↦
            let progress = header_of-Header (header_kind ids (b % 64)) b bs 0 h d in
            let size = length-drop (h.mac_len + h.mac_subheader_len) (b ∷ bs) in
            ground (
              arith,
              d,
              e,
              lookahead_ends fuel (drop (h.mac_len + h.mac_subheader_len) (b ∷ bs))
                  (omega (arith, size, progress)),
            )
      ]

-- One sub-PDU, by the form of its header.
pub data SubPdu : Type 0 where
  short : ℕ → List ℕ → SubPdu
  long : ℕ → List ℕ → SubPdu
  plain : ℕ → List ℕ → SubPdu
  crnti : ℕ → SubPdu

module _ (ids : UlLcids) where
  -- its bytes
  abbrev pub encode : SubPdu → List ℕ
  encode (short lcid p) = lcid ∷ length p ∷ p
  encode (long lcid p) = (lcid + 64) ∷ length p / 256 ∷ length p % 256 ∷ p
  encode (plain lcid p) = lcid ∷ p
  encode (crnti r) = ids.c_rnti ∷ r / 256 ∷ r % 256 ∷ []

  abbrev pub encode_all : List SubPdu → List ℕ → List ℕ
  encode_all [] rest = rest
  encode_all (s ∷ ss) rest = encode s ++ encode_all ss rest

  -- The form fits the channel and the payload.
  abbrev pub IsValid : SubPdu → Type 0
  IsValid (short lcid p) = (lcid < 64) × (header_kind ids lcid ≡ Kind.sized) × (length p < 256)
  IsValid (long lcid p) = (lcid < 64) × (header_kind ids lcid ≡ Kind.sized) × (length p < 65536)
  IsValid (plain lcid p) =
      (lcid < 64) × (header_kind ids lcid ≡ Kind.fixed (length p)) × (lcid ≢ ids.c_rnti)
  IsValid (crnti r) = r < 65536

  -- the C-RNTI of the first control element that has one
  abbrev pub first_crnti : List SubPdu → ℕ
  first_crnti [] = 0
  first_crnti (crnti r ∷ ss) = r
  first_crnti (short _ _ ∷ ss) = first_crnti ss
  first_crnti (long _ _ ∷ ss) = first_crnti ss
  first_crnti (plain _ _ ∷ ss) = first_crnti ss

-- what the standard fixes of the channels of the C-RNTI and of the padding
pub record UlLcidLaws (ids : UlLcids) : Type 0 where
  pub c_rnti_small : ids.c_rnti < 64
  pub c_rnti_fixed : header_kind ids ids.c_rnti ≡ Kind.fixed 2
  pub padding_small : ids.padding < 64
  pub padding_unsized : header_kind ids ids.padding ≡ Kind.unsized

-- what may follow the sub-PDUs: nothing, or padding
abbrev pub Trailer : UlLcids → List ℕ → Type 0
Trailer ids rest = (rest ≡ []) ⊎ ((bs : List ℕ) × (rest ≡ ids.padding ∷ bs))

pub small :
    (l : ℕ)
    → l < 64
    → (l % 64 ≡ l)
      × ((l / 64 % 2 == 1) ≡ false)
      × ((l + 64) % 64 ≡ l)
      × (((l + 64) / 64 % 2 == 1) ≡ true)
small l h = (omega arith, ground arith, omega arith, ground arith)
