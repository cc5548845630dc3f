-- ===== src/UeLa/Reload.antt =====
-- `rk_ue_la_reload_if_needed` of gnb_patch/rk_ue_la_policy.c: when the file is read again, and what
-- the table holds then.
pub mod Laws
use user_ric.Prelude.{
  ℕ, ◌+◌, Bool, true, false, ◌&&◌, List, [], ◌∷◌, Option, none, some, if◌then◌else◌, ◌==◌, ltb,
}
use user_ric.Prelude.Float.{Float}
use user_ric.Prelude.Alloc.{write_through}
use user_ric.CString.{Bytes, fgets_all}
use user_ric.UeLa.{UlSettings, LaEntry, zero_entry, clear_all, alloc}
use user_ric.UeLa.Parse.{read_line}

-- What the call finds: the clock in milliseconds, `stat` of the path (seconds and nanoseconds of
-- the last change; `none` if it fails) and `fopen` with the bytes of the file.
pub record Environment : Type 0 where
  pub now_ms : ℕ
  pub mtime : Option (ℕ × ℕ)
  pub content : Option Bytes

-- the static variables
pub record LaState (fl : Float) : Type 0 where
  pub tbl : List (LaEntry fl)
  pub last_mtime_sec : ℕ
  pub last_mtime_nsec : ℕ
  pub last_check_ms : ℕ

module _ (fl : Float) where
  -- when the program starts: static storage is zero
  abbrev pub initial : LaState fl
  initial = record {
    tbl = clear_all fl;
    last_mtime_sec = 0;
    last_mtime_nsec = 0;
    last_check_ms = 0;
  }

  -- the assignments of a line's settings through `e`
  abbrev pub assign : UlSettings fl → LaEntry fl → LaEntry fl
  assign s e = record e { settings = s }

  -- what the loop does for one line
  unfoldable pub load_line : List (LaEntry fl) → Option (ℕ × UlSettings fl) → List (LaEntry fl)
  load_line t none = t
  load_line t (some (rnti, s)) = write_through (assign s) (alloc fl rnti t)

  -- the loop over the lines
  unfoldable pub load_lines : List Bytes → List (LaEntry fl) → List (LaEntry fl)
  unfolding load_line
  load_lines [] t = t
  load_lines (l ∷ ls) t = load_lines ls (load_line t (read_line fl l))

  -- from `fopen` on
  unfoldable pub read_file : LaState fl → ℕ × ℕ → Option Bytes → LaState fl
  unfolding load_lines
  read_file st mtime none = st
  read_file st mtime (some bytes) = record st {
    tbl = load_lines (fgets_all bytes) (clear_all fl);
    last_mtime_sec = mtime.0;
    last_mtime_nsec = mtime.1;
  }

  -- from `stat` on
  unfoldable pub check_file : LaState fl → Option (ℕ × ℕ) → Option Bytes → LaState fl
  unfolding read_file
  check_file st none content = st
  check_file st (some mtime) content =
      if mtime.0 == st.last_mtime_sec && mtime.1 == st.last_mtime_nsec
      then st
      else read_file st mtime content

  -- `rk_ue_la_reload_if_needed`
  unfoldable pub reload_if_needed : Environment → LaState fl → LaState fl
  unfolding check_file
  reload_if_needed env st =
      if ltb env.now_ms (st.last_check_ms + 100)
      then st
      else check_file (record st { last_check_ms = env.now_ms }) env.mtime env.content
