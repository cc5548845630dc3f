-- ===== src/UeDl/Reload.antt =====
-- `rk_ue_dl_reload_if_needed` of gnb_patch/rk_ue_dl_policy.c: when the file is read again, and what
-- the table holds then.
pub mod Laws
use user_ric.Prelude.{
  ℕ, Bool, true, false, ◌&&◌, List, [], ◌∷◌, Option, none, some, if◌then◌else◌, ◌==◌,
}
use user_ric.Prelude.Float.{Float}
use user_ric.Prelude.Alloc.{write_through}
use user_ric.CString.{Bytes, fgets_all}
use user_ric.UeDl.{DlSettings, DlEntry, reset_entry, reset_tbl, find_or_alloc, table_size}
use user_ric.UeDl.Parse.{read_line}

-- What the call finds: whether `path` is a null pointer, `stat` of the path (time of the last change
-- in seconds and size; `none` if it fails) and `fopen` with the bytes of the file.
pub record Environment : Type 0 where
  pub null_path : Bool
  pub status : Option (ℕ × ℕ)
  pub content : Option Bytes

-- the static variables
pub record DlState (fl : Float) : Type 0 where
  pub tbl : List (DlEntry fl)
  pub mtime : ℕ
  pub size : ℕ
  pub loaded : Bool

module _ (fl : Float) where
  -- `*slot = tmp`, with the UE of the line
  abbrev pub overwrite : ℕ → DlSettings fl → DlEntry fl → DlEntry fl
  overwrite rnti s _ = record { used = true; rnti = rnti; settings = s }

  -- what the loop does for one line
  unfoldable pub load_line : List (DlEntry fl) → Option (ℕ × DlSettings fl) → List (DlEntry fl)
  load_line t none = t
  load_line t (some (rnti, s)) = write_through (overwrite rnti s) (find_or_alloc fl rnti t)

  -- the loop over the lines
  unfoldable pub load_lines : List Bytes → List (DlEntry fl) → List (DlEntry fl)
  unfolding load_line
  load_lines [] t = t
  load_lines (l ∷ ls) t = load_lines ls (load_line t (read_line fl l))

  -- from `fopen` on
  unfoldable pub read_file : DlState fl → ℕ × ℕ → Option Bytes → DlState fl
  unfolding load_lines
  read_file st status none = st
  read_file st status (some bytes) = record {
    tbl = load_lines (fgets_all bytes) (reset_tbl fl);
    mtime = status.0;
    size = status.1;
    loaded = true;
  }

  -- from `stat` on
  unfoldable pub check_file : DlState fl → Option (ℕ × ℕ) → Option Bytes → DlState fl
  unfolding read_file
  check_file st none content = st
  check_file st (some status) content =
      if st.loaded && (status.0 == st.mtime && status.1 == st.size)
      then st
      else read_file st status content

  -- `rk_ue_dl_reload_if_needed`
  unfoldable pub reload_if_needed : Environment → DlState fl → DlState fl
  unfolding check_file
  reload_if_needed env st = if env.null_path then st else check_file st env.status env.content
