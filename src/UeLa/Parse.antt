-- ===== src/UeLa/Parse.antt =====
-- One line of the uplink policy file: the body of the loop of `rk_ue_la_reload_if_needed` in
-- gnb_patch/rk_ue_la_policy.c, up to the test of the UE's identifier.
use user_ric.Prelude.{ℕ, Bool, ◌||◌, List, [], ◌∷◌, Option, none, some, if◌then◌else◌, ◌==◌}
use user_ric.Prelude.Int.{ℤ, pos, minus_one, ltb_ℤ, leb_ℤ, to_u16}
use user_ric.Prelude.Float.{Float}
use user_ric.CString.{Bytes, codes, is_space, c_string, skip_while, tokens, strip_prefix, atoi}
use user_ric.UeLa.{UlSettings, unset_settings}

-- what stands behind the `=` of `parse_int_kv`
abbrev pub value_after : Bytes → Option ℤ
value_after [] = none
value_after (c ∷ cs) = if c == b'=' then some (atoi cs) else none

-- `parse_int_kv`, with the value in place of the write through `out`
unfoldable pub parse_int_kv : Bytes → Bytes → Option ℤ
unfolding strip_prefix atoi
parse_int_kv tok key = elim (strip_prefix key tok) [ none ↦ none | some rest ↦ value_after rest ]

-- the local variables of the loop
pub record LineFields (fl : Float) : Type 0 where
  pub rnti : ℤ
  pub settings : UlSettings fl

-- `if (parse_int_kv(...)) continue;`, and the rest of the chain
abbrev pub on_value {ℓ κ} : {A : Type ℓ} {B : Type κ} → Option A → (A → B) → B → B
on_value none store rest = rest
on_value (some v) store rest = store v

module _ (fl : Float) where
  -- the float after a prefix that ends in `=`
  abbrev pub float_after : Bytes → Bytes → Option fl.F
  float_after tok key = elim (strip_prefix key tok) [
    | none ↦ none
    | some rest ↦ some (fl.atof rest)
  ]

  -- the variables before the first token
  abbrev pub no_fields : LineFields fl
  no_fields = record { rnti = minus_one; settings = unset_settings fl }

  -- the body of the token loop
  unfoldable pub read_token : LineFields fl → Bytes → LineFields fl
  unfolding parse_int_kv
  read_token f tok =
      let s = f.settings in
      let int = λ (key : Bytes). parse_int_kv tok key in
      on_value (int (codes "rnti")) (λ v. record f { rnti = v })
        (on_value (int (codes "ul_max_mcs"))
          (λ v. record f { settings = record s { ul_max_mcs = v } })
          (on_value (int (codes "min_grant_prb"))
            (λ v. record f { settings = record s { min_grant_prb = v } })
            (on_value (int (codes "ulsch_max_frame_inactivity"))
              (λ v. record f { settings = record s { ulsch_max_frame_inactivity = v } })
              (on_value (int (codes "pusch_target_snrx10"))
                (λ v. record f { settings = record s { pusch_target_snrx10 = v } })
                (on_value (float_after tok (codes "ul_sched_mul="))
                  (λ v. record f { settings = record s { ul_sched_mul = v } })
                  (on_value (int (codes "ul_maxcg_override"))
                    (λ v. record f { settings = record s { ul_maxcg_override = v } })
                    (on_value (int (codes "ul_small_burst_bytes"))
                      (λ v. record f { settings = record s { ul_small_burst_bytes = v } })
                      (on_value (float_after tok (codes "ul_small_burst_mul="))
                        (λ v. record f { settings = record s { ul_small_burst_mul = v } }) f))))))))

  -- the token loop
  unfoldable pub read_tokens : LineFields fl → List Bytes → LineFields fl
  unfolding read_token
  read_tokens f [] = f
  read_tokens f (tok ∷ toks) = read_tokens (read_token f tok) toks

  -- `rnti <= 0 || rnti > 0xFFFF`
  abbrev pub bad_rnti : ℤ → Bool
  bad_rnti r = leb_ℤ r (pos 0) || ltb_ℤ (pos 65535) r

  -- the UE of a line and its settings, unless its identifier is out of range
  abbrev pub accept : LineFields fl → Option (ℕ × UlSettings fl)
  accept f = if bad_rnti f.rnti then none else some (to_u16 f.rnti, f.settings)

  -- `*p == '\0' || *p == '#'`, and else the token loop
  abbrev pub read_text : Bytes → Option (ℕ × UlSettings fl)
  read_text [] = none
  read_text (c ∷ cs) = if c == b'#' then none else accept (read_tokens no_fields (tokens (c ∷ cs)))

  -- one line: the UE and the settings that it gives, if it is not skipped
  unfoldable pub read_line : Bytes → Option (ℕ × UlSettings fl)
  unfolding read_tokens c_string skip_while tokens to_u16
  read_line line = read_text (skip_while is_space (c_string line))
