-- ===== src/UeLa/Reload/Laws.antt =====
-- The table after a reload as a map from UEs to settings, and when a reload changes nothing.
use user_ric.Prelude.{
  ℕ, ◌+◌, ◌≤◌, ◌≡◌, refl, ◌∙◌, ◌⊎◌, inl, inr, true, false, ◌&&◌, List, [], ◌∷◌, Option, none, some,
  ◌==◌, ltb, length, Bool-cases, arith, Option-cases,
}
use user_ric.Prelude.Slots.{find, count}
use user_ric.Prelude.Float.{Float}
use user_ric.Prelude.Keyed
use user_ric.Prelude.Keyed.{Keyed, put_all, last_for, HoldsOnce, add_some}
use user_ric.Prelude.Fill.{put_all-view, length-put_all, put_all-HoldsOnce, newcomers}
use user_ric.CString.{Bytes, fgets_all}
use user_ric.UeLa.{UlSettings, LaEntry, holds, fresh, clear_all, alloc, ue_la_max}
use user_ric.UeLa.Parse.{read_line}
use user_ric.UeLa.Reload.{Environment, LaState, load_lines, reload_if_needed, assign}

module _ (fl : Float) where
  pub holds-valid : (k : ℕ) (e : LaEntry fl) → holds fl k e ≡ true → e.valid ≡ true
  holds-valid k e h = ground arith

  pub holds_once : (j k : ℕ) (e : LaEntry fl) → holds fl j e ≡ true → holds fl k e ≡ true → j ≡ k
  holds_once j k e h h' = ground (arith, h, h')

  pub holds-fresh : (k : ℕ) (e : LaEntry fl) → holds fl k (fresh fl k e) ≡ true
  holds-fresh k e = ground arith

  -- the table as a keyed table
  abbrev pub policies : Keyed (LaEntry fl) (UlSettings fl)
  policies = record {
    holds = holds fl;
    valid = λ e. e.valid;
    value = λ e. e.settings;
    fresh = fresh fl;
    put = λ _ s e. assign fl s e;
    holds-valid = holds-valid;
    holds_once = holds_once;
    holds-fresh = holds-fresh;
    holds-put = λ k v e h. h;
    value-put = λ k v e. refl;
  }

  -- the settings that the table gives a UE
  abbrev pub view : List (LaEntry fl) → ℕ → Option (UlSettings fl)
  view = Keyed.view policies

  -- the lines that give settings, in order
  abbrev pub given : List Bytes → List (ℕ × UlSettings fl)
  given [] = []
  given (l ∷ ls) = add_some (read_line fl l) (given ls)

  load_lines-eq-put_all :
      (ls : List Bytes) (t : List (LaEntry fl)) → load_lines fl ls t ≡ put_all policies (given ls) t
  unfolding load_lines put_all Keyed.update alloc
  load_lines-eq-put_all [] t = refl
  load_lines-eq-put_all (l ∷ ls) t = elim (Option-cases (read_line fl l)) [
    | inl n ↦ rw n (load_lines-eq-put_all ls t)
    | inr (p, e) ↦ rw e (load_lines-eq-put_all ls _)
  ]

  clear_all_empty :
      (q : ℕ)
      → (view (clear_all fl) q ≡ none)
        × (length (clear_all fl) ≡ ue_la_max)
        × (Keyed.used policies (clear_all fl) ≡ 0)
        × HoldsOnce policies (clear_all fl)
  unfolding Keyed.view Keyed.used clear_all find count
  clear_all_empty q = (refl, refl, refl, λ k. omega arith)

  -- the table that a file's bytes make
  unfoldable pub loaded : Bytes → List (LaEntry fl)
  loaded bytes = load_lines fl (fgets_all bytes) (clear_all fl)

  -- The file names no more different UEs than the table has entries.
  abbrev pub HasRoom : Bytes → Type 0
  HasRoom bytes = newcomers policies (given (fgets_all bytes)) (clear_all fl) ≤ ue_la_max

  loaded-view :
      (bytes : Bytes) (q : ℕ)
      → HasRoom bytes
      → view (loaded bytes) q ≡ last_for q (given (fgets_all bytes)) none
  unfolding loaded
  loaded-view bytes q room =
      let (empty, size, unused, _) = clear_all_empty q in
      rw load_lines-eq-put_all (
        put_all-view policies (given (fgets_all bytes)) (clear_all fl) q
          (omega (arith, room, size, unused))
        ∙ rw empty)

  -- This call reads the file: the last check is 100 ms old, `stat` and `fopen` succeed, and the
  -- time of change differs from the one stored.
  pub record Reads (env : Environment) (st : LaState fl) (mtime : ℕ × ℕ) (bytes : Bytes)
      : Type 0 where
    pub due : ltb env.now_ms (st.last_check_ms + 100) ≡ false
    pub found : env.mtime ≡ some mtime
    pub changed : (mtime.0 == st.last_mtime_sec && mtime.1 == st.last_mtime_nsec) ≡ false
    pub opened : env.content ≡ some bytes

  Reads-state :
      (env : Environment) (st : LaState fl) (mtime : ℕ × ℕ) (bytes : Bytes)
      → Reads env st mtime bytes
      → reload_if_needed fl env st ≡ record {
        tbl = loaded bytes;
        last_mtime_sec = mtime.0;
        last_mtime_nsec = mtime.1;
        last_check_ms = env.now_ms;
      }
  unfolding reload_if_needed loaded
  Reads-state env st mtime bytes r = rw (r.due, r.found, r.opened) (rw r.changed)

  -- When the file is read again, the new table depends on the file alone: whatever it held before,
  -- each UE now has the settings of its last valid line, and a UE without one has none, provided
  -- the file names at most 256 different UEs.
  pub la_reload-view :
      (env : Environment) (st : LaState fl) (mtime : ℕ × ℕ) (bytes : Bytes) (q : ℕ)
      → Reads env st mtime bytes
      → HasRoom bytes
      → view (reload_if_needed fl env st).tbl q ≡ last_for q (given (fgets_all bytes)) none
  la_reload-view env st mtime bytes q r room =
      rw (Reads-state env st mtime bytes r) (loaded-view bytes q room)

  -- The table keeps its 256 entries, and no UE has two.
  abbrev pub IsWellFormed : List (LaEntry fl) → Type 0
  IsWellFormed t = (length t ≡ ue_la_max) × HoldsOnce policies t

  loaded-IsWellFormed : (bytes : Bytes) → IsWellFormed (loaded bytes)
  unfolding loaded
  loaded-IsWellFormed bytes =
      let (_, size, _, once) = clear_all_empty 0 in
      rw load_lines-eq-put_all (
        length-put_all policies (given (fgets_all bytes)) (clear_all fl) ∙ size,
        put_all-HoldsOnce policies (given (fgets_all bytes)) (clear_all fl) once,
      )

  -- A call either reads the file, or leaves the table and the stored time of change as they were.
  reload_cases :
      (env : Environment) (st : LaState fl)
      → ((mtime : ℕ × ℕ) × (bytes : Bytes) × Reads env st mtime bytes)
        ⊎ (((reload_if_needed fl env st).tbl ≡ st.tbl)
            × ((reload_if_needed fl env st).last_mtime_sec ≡ st.last_mtime_sec)
            × ((reload_if_needed fl env st).last_mtime_nsec ≡ st.last_mtime_nsec))
  unfolding reload_if_needed
  reload_cases env st = elim (Bool-cases (ltb env.now_ms (st.last_check_ms + 100))) [
    | inl wait ↦ inr (rw wait (refl, refl, refl))
    | inr due ↦ elim (Option-cases env.mtime) [
      | inl n ↦ inr (rw (due, n) (refl, refl, refl))
      | inr (m, e) ↦ elim (Bool-cases (m.0 == st.last_mtime_sec && m.1 == st.last_mtime_nsec)) [
        | inl same ↦ inr (rw (due, e) (rw same (refl, refl, refl)))
        | inr changed ↦ elim (Option-cases env.content) [
          | inl n ↦ inr (rw (due, e, n) (rw changed (refl, refl, refl)))
          | inr (bytes, o) ↦
              inl (m, bytes, record { due = due; found = e; changed = changed; opened = o })
        ]
      ]
    ]
  ]

  -- Whatever the file holds and whatever fails, a call keeps the table well formed.
  pub la_reload-IsWellFormed :
      (env : Environment) (st : LaState fl)
      → IsWellFormed st.tbl
      → IsWellFormed (reload_if_needed fl env st).tbl
  la_reload-IsWellFormed env st w = elim (reload_cases env st) [
    | inl (mtime, bytes, r) ↦ rw (Reads-state env st mtime bytes r) (loaded-IsWellFormed bytes)
    | inr (same, _, _) ↦ rw same w
  ]

  -- Once a call has read the file, later calls leave the table alone, at whatever time, until the
  -- file's time of change is another one.
  la_reload-reload :
      (env env' : Environment) (st : LaState fl) (mtime : ℕ × ℕ) (bytes : Bytes)
      → Reads env st mtime bytes
      → env'.mtime ≡ env.mtime
      → (reload_if_needed fl env' (reload_if_needed fl env st)).tbl
        ≡ (reload_if_needed fl env st).tbl
  la_reload-reload env env' st mtime bytes r same =
      elim (reload_cases env' (reload_if_needed fl env st)) [
        | inr (kept, _, _) ↦ kept
        | inl (m, _, again) ↦
            let e : m ≡ mtime = ground (arith, again.found, r.found, same) in
            absurd (ground (arith, rw (Reads-state env st mtime bytes r) at again.changed, e))
      ]
