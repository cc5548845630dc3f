-- ===== src/UeDl/Reload/Laws.antt =====
-- The table after a reload as a map from UEs to settings, and when a reload changes nothing.
use user_ric.Prelude.{
  ℕ, ◌≤◌, ◌≡◌, refl, ap, ◌∙◌, ◌⊎◌, inl, inr, true, false, ◌&&◌, List, [], ◌∷◌, Option, none, some,
  ◌==◌, length, Bool-cases, arith, Option-cases,
}
use user_ric.Prelude.Slots.{find, count}
use user_ric.Prelude.Float.{Float}
use user_ric.Prelude.Alloc.{write_through}
use user_ric.Prelude.Keyed
use user_ric.Prelude.Keyed.{Keyed, put_all, last_for, HoldsOnce, add_some}
use user_ric.Prelude.Fill.{put_all-view, length-put_all, put_all-HoldsOnce, newcomers}
use user_ric.CString.{Bytes, fgets_all}
use user_ric.UeDl.{DlSettings, DlEntry, holds, fresh, reset_tbl, table_size}
use user_ric.UeDl.Slots.{find_or_alloc-eq-find_or_create}
use user_ric.UeDl.Parse.{read_line}
use user_ric.UeDl.Reload.{Environment, DlState, load_lines, reload_if_needed, overwrite}

module _ (fl : Float) where
  pub holds-valid : (k : ℕ) (e : DlEntry fl) → holds fl k e ≡ true → e.used ≡ true
  holds-valid k e h = ground arith

  pub holds_once : (j k : ℕ) (e : DlEntry fl) → holds fl j e ≡ true → holds fl k e ≡ true → j ≡ k
  holds_once j k e h h' = ground (arith, h, h')

  pub holds-fresh : (k : ℕ) (e : DlEntry fl) → holds fl k (fresh fl k e) ≡ true
  holds-fresh k e = ground arith

  pub holds-put :
      (k : ℕ) (s : DlSettings fl) (e : DlEntry fl)
      → holds fl k e ≡ true
      → holds fl k (overwrite fl k s e) ≡ true
  holds-put k s e h = ground arith

  -- the table as a keyed table
  abbrev pub policies : Keyed (DlEntry fl) (DlSettings fl)
  policies = record {
    holds = holds fl;
    valid = λ e. e.used;
    value = λ e. e.settings;
    fresh = fresh fl;
    put = overwrite fl;
    holds-valid = holds-valid;
    holds_once = holds_once;
    holds-fresh = holds-fresh;
    holds-put = holds-put;
    value-put = λ k v e. refl;
  }

  -- the settings that the table gives a UE
  abbrev pub view : List (DlEntry fl) → ℕ → Option (DlSettings fl)
  view = Keyed.view policies

  -- the lines that give settings, in order
  abbrev pub given : List Bytes → List (ℕ × DlSettings fl)
  given [] = []
  given (l ∷ ls) = add_some (read_line fl l) (given ls)

  load_lines-eq-put_all :
      (ls : List Bytes) (t : List (DlEntry fl)) → load_lines fl ls t ≡ put_all policies (given ls) t
  unfolding load_lines put_all Keyed.update
  load_lines-eq-put_all [] t = refl
  load_lines-eq-put_all (l ∷ ls) t = elim (Option-cases (read_line fl l)) [
    | inl n ↦ rw n (load_lines-eq-put_all ls t)
    | inr (p, e) ↦ rw e (
        load_lines-eq-put_all ls _
        ∙ ap (λ r. put_all policies (given ls) (write_through (overwrite fl p.0 p.1) r))
            (find_or_alloc-eq-find_or_create fl p.0 t))
  ]

  reset_tbl_empty :
      (q : ℕ)
      → (view (reset_tbl fl) q ≡ none)
        × (length (reset_tbl fl) ≡ table_size)
        × (Keyed.used policies (reset_tbl fl) ≡ 0)
        × HoldsOnce policies (reset_tbl fl)
  unfolding Keyed.view Keyed.used reset_tbl find count
  reset_tbl_empty q = (refl, refl, refl, λ k. omega arith)

  -- the table that a file's bytes make
  unfoldable pub loaded : Bytes → List (DlEntry fl)
  loaded bytes = load_lines fl (fgets_all bytes) (reset_tbl fl)

  -- The file names no more different UEs than the table has entries.
  abbrev pub HasRoom : Bytes → Type 0
  HasRoom bytes = newcomers policies (given (fgets_all bytes)) (reset_tbl fl) ≤ table_size

  loaded-view :
      (bytes : Bytes) (q : ℕ)
      → HasRoom bytes
      → view (loaded bytes) q ≡ last_for q (given (fgets_all bytes)) none
  unfolding loaded
  loaded-view bytes q room =
      let (empty, size, unused, _) = reset_tbl_empty q in
      rw load_lines-eq-put_all (
        put_all-view policies (given (fgets_all bytes)) (reset_tbl fl) q
          (omega (arith, room, size, unused))
        ∙ rw empty)

  -- This call reads the file: there is a path, `stat` and `fopen` succeed, and no file has been read
  -- yet or the time of change or the size differs from the one stored.
  pub record Reads (env : Environment) (st : DlState fl) (status : ℕ × ℕ) (bytes : Bytes)
      : Type 0 where
    pub path : env.null_path ≡ false
    pub found : env.status ≡ some status
    pub changed : (st.loaded && (status.0 == st.mtime && status.1 == st.size)) ≡ false
    pub opened : env.content ≡ some bytes

  Reads-state :
      (env : Environment) (st : DlState fl) (status : ℕ × ℕ) (bytes : Bytes)
      → Reads env st status bytes
      → reload_if_needed fl env st
        ≡ record { tbl = loaded bytes; mtime = status.0; size = status.1; loaded = true }
  unfolding reload_if_needed loaded
  Reads-state env st status bytes r = rw (r.path, r.found, r.opened) (rw r.changed)

  -- When the file is read again, the new table depends on the file alone: whatever it held before,
  -- each UE now has the settings of its last valid line, and a UE without one has none, provided
  -- the file names at most 128 different UEs.
  pub dl_reload-view :
      (env : Environment) (st : DlState fl) (status : ℕ × ℕ) (bytes : Bytes) (q : ℕ)
      → Reads env st status bytes
      → HasRoom bytes
      → view (reload_if_needed fl env st).tbl q ≡ last_for q (given (fgets_all bytes)) none
  dl_reload-view env st status bytes q r room =
      rw (Reads-state env st status bytes r) (loaded-view bytes q room)

  -- The table keeps its 128 entries, and no UE has two.
  abbrev pub IsWellFormed : List (DlEntry fl) → Type 0
  IsWellFormed t = (length t ≡ table_size) × HoldsOnce policies t

  loaded-IsWellFormed : (bytes : Bytes) → IsWellFormed (loaded bytes)
  unfolding loaded
  loaded-IsWellFormed bytes =
      let (_, size, _, once) = reset_tbl_empty 0 in
      rw load_lines-eq-put_all (
        length-put_all policies (given (fgets_all bytes)) (reset_tbl fl) ∙ size,
        put_all-HoldsOnce policies (given (fgets_all bytes)) (reset_tbl fl) once,
      )

  -- A call either reads the file, or leaves all as it was.
  reload_cases :
      (env : Environment) (st : DlState fl)
      → ((status : ℕ × ℕ) × (bytes : Bytes) × Reads env st status bytes)
        ⊎ (reload_if_needed fl env st ≡ st)
  unfolding reload_if_needed
  reload_cases env st = elim (Bool-cases env.null_path) [
    | inl null ↦ inr (rw null)
    | inr path ↦ elim (Option-cases env.status) [
      | inl n ↦ inr (rw (path, n))
      | inr (m, e) ↦ elim (Bool-cases (st.loaded && (m.0 == st.mtime && m.1 == st.size))) [
        | inl same ↦ inr (rw (path, e) (rw same))
        | inr changed ↦ elim (Option-cases env.content) [
          | inl n ↦ inr (rw (path, e, n) (rw changed))
          | inr (bytes, o) ↦
              inl (m, bytes, record { path = path; found = e; changed = changed; opened = o })
        ]
      ]
    ]
  ]

  -- Whatever the file holds and whatever fails, a call keeps the table well formed.
  pub dl_reload-IsWellFormed :
      (env : Environment) (st : DlState fl)
      → IsWellFormed st.tbl
      → IsWellFormed (reload_if_needed fl env st).tbl
  dl_reload-IsWellFormed env st w = elim (reload_cases env st) [
    | inl (status, bytes, r) ↦ rw (Reads-state env st status bytes r) (loaded-IsWellFormed bytes)
    | inr same ↦ rw same w
  ]

  -- Once a call has read the file, later calls change nothing until the file's time of change or its
  -- size is another one.
  dl_reload-reload :
      (env env' : Environment) (st : DlState fl) (status : ℕ × ℕ) (bytes : Bytes)
      → Reads env st status bytes
      → env'.status ≡ env.status
      → reload_if_needed fl env' (reload_if_needed fl env st) ≡ reload_if_needed fl env st
  dl_reload-reload env env' st status bytes r same =
      elim (reload_cases env' (reload_if_needed fl env st)) [
        | inr kept ↦ kept
        | inl (m, _, again) ↦
            let e : m ≡ status = ground (arith, again.found, r.found, same) in
            absurd (ground (arith, rw (Reads-state env st status bytes r) at again.changed, e))
      ]
