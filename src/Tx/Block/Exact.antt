-- ===== src/Tx/Block/Exact.antt =====
-- A transport block has the size of the grant, and the receiver reads from it what the RLC layer gave.
use user_ric.Prelude.{
  ℕ, zero, suc, ◌+◌, ◌-◌, ◌/◌, ◌%◌, ◌<◌, ◌≤◌, ◌≡◌, ◌≢◌, refl, sym, ◌∙◌, Bool, true, false, List, [],
  ◌∷◌, ◌++◌, Option, none, some, ◌==◌, ltb, min, length, get_or, All, arith, length-append, if_ind,
  Bool-cases, inl, inr,
}
use mathlib.Core.List.{append_assoc}
use user_ric.Prelude.Float.{Float}
use user_ric.Dl.{DlUe, LcConfig}
use user_ric.Dl.Buffer.{no_status}
use user_ric.Tx.{Source, Writing}
use user_ric.Tx.Block.{subheader_long, put, fetch, fetch_all, count_channel, fill_channels}
use user_ric.Tx.Block.Reads.{Fits, encode_all, encode_all-append}

-- the bytes of data, without headers
abbrev pub payload : List (ℕ × List ℕ) → ℕ
payload [] = 0
payload (p ∷ ps) = length p.1 + payload ps

payload-append :
    (ps : List (ℕ × List ℕ)) (p : ℕ × List ℕ) → payload (ps ++ p ∷ []) ≡ payload ps + length p.1
payload-append [] p = omega arith
payload-append (q ∷ ps) p = omega (arith, payload-append ps p)

All-append :
    {A : Type 0} (P : A → Type 0) (xs : List A) (x : A) → All P xs → P x → All P (xs ++ x ∷ [])
All-append P [] x h hx = (hx, tt)
All-append P (y ∷ ys) x h hx = (h.0, All-append P ys x h.1 hx)

-- Documented behaviour: the RLC layer gives at most as many bytes as it is asked for, and the number
-- of the padding channel has six bits.
pub record SourceLaws (src : Source) : Type 0 where
  pub data_bound :
      (r : src.R) (rnti lcid n : ℕ) → length (src.nr_mac_rlc_data_req r rnti lcid n).0 ≤ n
  pub padding_small : src.dl_sch_lcid_padding < 64

-- a channel with a number of six bits that is not the padding's
abbrev pub IsChannel : Source → ℕ → Type 0
IsChannel src lcid = (lcid < 64) × (lcid ≢ src.dl_sch_lcid_padding)

module _ {fl : Float} (src : Source) (laws : SourceLaws src) (ue : DlUe fl) (size : ℕ)
    (short : size < 65536) where
  -- A block of `size` bytes is written up to `buf`: what is written is the sub-PDUs of what was sent.
  pub record Written (st : Writing src) : Type 0 where
    pub whole : length st.bytes + st.room ≡ size
    pub encoded : (end : List ℕ) → st.bytes ++ end ≡ encode_all st.sent end
    pub fitting : All (Fits src.dl_sch_lcid_padding) st.sent
    pub counted : (st.sdus ≡ length st.sent) × (st.dlsch_total_bytes ≡ payload st.sent)
    pub inside : st.overrun ≡ []

  put-Written :
      (lcid : ℕ) (b : ℕ) (sdu : List ℕ) (r : src.R) (st : Writing src)
      → IsChannel src lcid
      → length (b ∷ sdu) + 3 ≤ st.room
      → Written st
      → Written (put src ue lcid (b ∷ sdu) r st).1
  unfolding put subheader_long
  put-Written lcid b sdu r st c l w =
      let n = length (b ∷ sdu) in
      let header = (64 + lcid % 64) ∷ n / 256 % 256 ∷ n % 256 ∷ [] in
      record {
        whole = omega (arith, length-append st.bytes (header ++ b ∷ sdu), w.whole, l);
        encoded = λ end.
            append_assoc st.bytes (header ++ b ∷ sdu) end
            ∙ w.encoded (header ++ (b ∷ (sdu ++ end)))
            ∙ sym (encode_all-append st.sent ((lcid, b ∷ sdu) ∷ []) end);
        fitting =
            All-append (Fits src.dl_sch_lcid_padding) st.sent (lcid, b ∷ sdu) w.fitting
              (c.0, c.1, omega (arith, short, w.whole, l));
        counted = (
          omega (arith, w.counted, length-append st.sent ((lcid, b ∷ sdu) ∷ [])),
          omega (arith, w.counted, payload-append st.sent (lcid, b ∷ sdu)),
        );
        inside = w.inside;
      }

  -- A round that goes on has filled at least four bytes.
  abbrev Fetched : Writing src → Bool × Writing src → Type 0
  Fetched st (on, st1) = Written st1 × (on ≡ true → st1.room < st.room)

  put-Fetched :
      (lcid : ℕ) (sdu : List ℕ) (r : src.R) (st : Writing src)
      → IsChannel src lcid
      → length sdu + 3 ≤ st.room
      → Written st
      → Fetched st (put src ue lcid sdu r st)
  unfolding put
  put-Fetched lcid [] r st c l w = (
    record {
      whole = w.whole;
      encoded = w.encoded;
      fitting = w.fitting;
      counted = w.counted;
      inside = w.inside;
    },
    λ e. absurd (ground (arith, e)),
  )
  put-Fetched lcid (b ∷ sdu) r st c l w = (put-Written lcid b sdu r st c l w, λ _. omega (arith, l))

  fetch-Fetched :
      (lcid most : ℕ) (st : Writing src)
      → IsChannel src lcid
      → Written st
      → Fetched st (fetch src ue lcid most st)
  unfolding fetch
  fetch-Fetched lcid most st c w =
      let got = src.nr_mac_rlc_data_req st.source ue.rnti lcid (min most (st.room - 3)) in
      if_ind (Fetched st) (ltb 4 st.room) (put src ue lcid got.0 got.1 st) (false, st)
        (λ space.
          put-Fetched lcid got.0 got.1 st c
            (ground (arith, laws.data_bound st.source ue.rnti lcid (min most (st.room - 3)), space))
            w)
        (λ _. (w, λ e. absurd (ground (arith, e))))

  -- a result that is there, and that is well written
  abbrev pub Filled : Option (Writing src) → Type 0
  Filled none = 1 ≤ 0
  Filled (some st) = Written st

  after_fetch :
      (fuel lcid most : ℕ) (st : Writing src) (next : Bool × Writing src)
      → Fetched st next
      → (next.0 ≡ true → Filled (fetch_all src ue fuel lcid most next.1))
      → Filled (elim next.0 as (λ _. Option (Writing src)) [
        | false ↦ some next.1
        | true ↦ fetch_all src ue fuel lcid most next.1
      ])
  after_fetch fuel lcid most st (false, st1) h more = h.0
  after_fetch fuel lcid most st (true, st1) h more = more refl

  fetch_all-Filled :
      (fuel lcid most : ℕ) (st : Writing src)
      → IsChannel src lcid
      → st.room < fuel
      → Written st
      → Filled (fetch_all src ue fuel lcid most st)
  unfolding fetch_all
  fetch_all-Filled zero lcid most st c l w = absurd (omega (arith, l))
  fetch_all-Filled (suc fuel) lcid most st c l w =
      let next = fetch src ue lcid most st in
      let h = fetch-Fetched lcid most st c w in
      after_fetch fuel lcid most st next h
        (λ on. fetch_all-Filled fuel lcid most next.1 c (omega (arith, h.1 on, l)) h.0)

  after_channel :
      (c : LcConfig) (cs : List LcConfig) (before : ℕ) (o : Option (Writing src))
      → Filled o
      → ((st : Writing src) → Written st → Filled (fill_channels src ue cs st))
      → Filled (elim o as (λ _. Option (Writing src)) [
        | none ↦ none
        | some st1 ↦ fill_channels src ue cs (count_channel src ue c.lcid before st1)
      ])
  unfolding count_channel
  after_channel c cs before none w rest = w
  after_channel c cs before (some st) w rest = rest _ (record {
    whole = w.whole;
    encoded = w.encoded;
    fitting = w.fitting;
    counted = w.counted;
    inside = w.inside;
  })

  pub fill_channels-Filled :
      (cs : List LcConfig) (st : Writing src)
      → All (λ c. IsChannel src c.lcid) cs
      → Written st
      → Filled (fill_channels src ue cs st)
  unfolding fill_channels
  fill_channels-Filled [] st c w = w
  fill_channels-Filled (c ∷ cs) st h w =
      let waiting = (get_or ue.rlc_status c.lcid no_status).bytes_in_buffer in
      let rest = λ (st1 : Writing src) (w1 : Written st1). fill_channels-Filled cs st1 h.1 w1 in
      let filled =
        after_channel c cs st.dlsch_total_bytes _
          (fetch_all-Filled (suc st.room) c.lcid waiting st h.0 (omega arith) w) rest in
      elim (Bool-cases (waiting == 0)) [
        | inl idle ↦ rw (Filled, idle) (rest st w)
        | inr busy ↦ rw (Filled, busy) filled
      ]
