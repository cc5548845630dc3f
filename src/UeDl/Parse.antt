-- ===== src/UeDl/Parse.antt =====
-- One line of the downlink policy file: `rk_ue_dl_parse_line` of gnb_patch/rk_ue_dl_policy.c, and
-- the part of the loop of `rk_ue_dl_reload_if_needed` in front of it.
use user_ric.Prelude.{ℕ, Bool, true, ◌||◌, List, [], ◌∷◌, Option, none, some, if◌then◌else◌, ◌==◌}
use user_ric.Prelude.Float.{Float}
use user_ric.CString.{Bytes, codes, c_string, skip_while, tokens, strip_prefix, atoi, strtoul_u16}
use user_ric.UeDl.{DlSettings, DlEntry, reset_entry}

-- `if (strncmp(tok, key, strlen(key)) == 0) ... else ...`
abbrev pub on_key {ℓ} : {A : Type ℓ} → Bytes → Bytes → (Bytes → A) → A → A
on_key tok key store rest = elim (strip_prefix key tok) [ none ↦ rest | some v ↦ store v ]

module _ (fl : Float) where
  -- The body of the token loop. `used` is set together with `saw_rnti`, and stands for it.
  unfoldable pub read_token : DlEntry fl → Bytes → DlEntry fl
  unfolding strip_prefix atoi strtoul_u16
  read_token e tok =
      let s = e.settings in
      on_key tok (codes "rnti=") (λ v. record e { rnti = strtoul_u16 v; used = true })
        (on_key tok (codes "dl_max_mcs=")
          (λ v. record e { settings = record s { dl_max_mcs = atoi v } })
          (on_key tok (codes "dl_min_grant_prb=")
            (λ v. record e { settings = record s { dl_min_grant_prb = atoi v } })
            (on_key tok (codes "dl_sched_mul=")
              (λ v. record e { settings = record s { dl_sched_mul = fl.atof v } })
              (on_key tok (codes "dl_maxcg_override=")
                (λ v. record e { settings = record s { dl_maxcg_override = atoi v } })
                (on_key tok (codes "dl_small_burst_bytes=")
                  (λ v. record e { settings = record s { dl_small_burst_bytes = atoi v } })
                  (on_key tok (codes "dl_small_burst_mul=")
                    (λ v. record e { settings = record s { dl_small_burst_mul = fl.atof v } })
                    e))))))

  -- the token loop
  unfoldable pub read_tokens : DlEntry fl → List Bytes → DlEntry fl
  unfolding read_token
  read_tokens e [] = e
  read_tokens e (tok ∷ toks) = read_tokens (read_token e tok) toks

  -- `rk_ue_dl_parse_line`: the entry, if the line names a UE
  unfoldable pub parse_line : Bytes → Option (ℕ × DlSettings fl)
  unfolding read_tokens tokens
  parse_line line =
      let e = read_tokens (reset_entry fl) (tokens line) in
      if e.used then some (e.rnti, e.settings) else none

  abbrev pub is_blank : ℕ → Bool
  is_blank c = c == b' ' || c == b'\t'

  -- `*p == '#' || *p == '\n' || *p == '\0'`, and else the line
  abbrev pub read_text : Bytes → Option (ℕ × DlSettings fl)
  read_text [] = none
  read_text (c ∷ cs) = if c == b'#' || c == b'\n' then none else parse_line (c ∷ cs)

  -- one line: the UE and the settings that it gives, if it is not skipped
  unfoldable pub read_line : Bytes → Option (ℕ × DlSettings fl)
  unfolding parse_line c_string skip_while
  read_line buf = read_text (skip_while is_blank (c_string buf))
