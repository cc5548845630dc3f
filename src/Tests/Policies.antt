-- ===== src/Tests/Policies.antt =====
-- The policies of single UEs: gnb_patch/rk_ue_la_policy.c and gnb_patch/rk_ue_dl_policy.c.
use user_ric.Prelude.{◌≡◌, refl, List, [], ◌∷◌, none, some, arith, true, false}
use mathlib.Core.List.{flatten}
use user_ric.Prelude.Int.{pos}
use user_ric.Prelude.Slots.{find, count}
use user_ric.Prelude.Alloc.{find_or_create}
use user_ric.Prelude.Keyed
use user_ric.CString.{Bytes, codes, fgets_all}
use user_ric.Prelude.{All}
use user_ric.CString.Lines.{IsPiece, flatten-fgets_all, fgets_all-IsPiece}
use user_ric.UeLa
use user_ric.UeLa.Parse
use user_ric.UeLa.Reload as LaReload
use user_ric.UeLa.Reload.Laws as LaLaws
use user_ric.UeDl
use user_ric.UeDl.Parse as DlParse
use user_ric.UeDl.Reload as DlReload
use user_ric.UeDl.Reload.Laws as DlLaws
use user_ric.UeDl.Slots as DlSlots
use user_ric.Tests.Decimal.{milli}

abbrev file : Bytes
file =
    codes
      "# policies\nrnti=4660 ul_max_mcs=9 dl_max_mcs=5\n\nrnti=70000 ul_max_mcs=1\nrnti=4660 ul_max_mcs=12 ul_sched_mul=2\n"

abbrev la_environment : LaReload.Environment
la_environment = record { now_ms = 1000; mtime = some (5, 7); content = some file }

abbrev la_state : LaReload.LaState milli
la_state = LaReload.initial milli

la_room : LaLaws.HasRoom milli file
unfolding Keyed.view UeLa.clear_all find count fgets_all Parse.read_line
la_room = omega arith

la_environment-Reads : LaLaws.Reads milli la_environment la_state (5, 7) file
la_environment-Reads = record { due = refl; found = refl; changed = refl; opened = refl }

-- The last line of UE 4660 counts, and the line of UE 70000 is dropped.
la_given :
    Keyed.last_for 4660 (LaLaws.given milli (fgets_all file)) none
    ≡ some (record (UeLa.unset_settings milli) { ul_max_mcs = pos 12; ul_sched_mul = pos 2000 })
unfolding fgets_all Parse.read_line
la_given = refl

la_reload-view_example :
    LaLaws.view milli (LaReload.reload_if_needed milli la_environment la_state).tbl 4660
    ≡ Keyed.last_for 4660 (LaLaws.given milli (fgets_all file)) none
la_reload-view_example =
    LaLaws.la_reload-view milli la_environment la_state (5, 7) file 4660 la_environment-Reads
      la_room

la_start : LaLaws.IsWellFormed milli la_state.tbl
unfolding UeLa.clear_all count
la_start = (refl, λ q. omega arith)

la_reload-IsWellFormed_example :
    LaLaws.IsWellFormed milli (LaReload.reload_if_needed milli la_environment la_state).tbl
la_reload-IsWellFormed_example =
    LaLaws.la_reload-IsWellFormed milli la_environment la_state la_start

abbrev la_table : List (UeLa.LaEntry milli)
la_table =
    record {
      rnti = 4660;
      valid = true;
      settings = record (UeLa.unset_settings milli) { ul_max_mcs = pos 30 };
    }
    ∷ []

la_absent : LaLaws.view milli la_table 5 ≡ none
unfolding Keyed.view find
la_absent = refl

abbrev dl_environment : DlReload.Environment
dl_environment = record { null_path = false; status = some (5, 90); content = some file }

abbrev dl_state : DlReload.DlState milli
dl_state = record { tbl = UeDl.reset_tbl milli; mtime = 0; size = 0; loaded = false }

dl_room : DlLaws.HasRoom milli file
unfolding Keyed.view UeDl.reset_tbl find fgets_all DlParse.read_line
dl_room = omega arith

dl_environment-Reads : DlLaws.Reads milli dl_environment dl_state (5, 90) file
dl_environment-Reads = record { path = refl; found = refl; changed = refl; opened = refl }

dl_reload-view_example :
    DlLaws.view milli (DlReload.reload_if_needed milli dl_environment dl_state).tbl 4660
    ≡ Keyed.last_for 4660 (DlLaws.given milli (fgets_all file)) none
dl_reload-view_example =
    DlLaws.dl_reload-view milli dl_environment dl_state (5, 90) file 4660 dl_environment-Reads
      dl_room

dl_start : DlLaws.IsWellFormed milli dl_state.tbl
unfolding UeDl.reset_tbl count
dl_start = (refl, λ q. omega arith)

dl_reload-IsWellFormed_example :
    DlLaws.IsWellFormed milli (DlReload.reload_if_needed milli dl_environment dl_state).tbl
dl_reload-IsWellFormed_example =
    DlLaws.dl_reload-IsWellFormed milli dl_environment dl_state dl_start

abbrev dl_table : List (UeDl.DlEntry milli)
dl_table =
    record {
      rnti = 4660;
      used = true;
      settings = record (UeDl.unset_settings milli) { dl_max_mcs = pos 30 };
    }
    ∷ []

dl_absent : DlLaws.view milli dl_table 5 ≡ none
unfolding Keyed.view find
dl_absent = refl

flatten-fgets_all_example : flatten (fgets_all file) ≡ file
flatten-fgets_all_example = flatten-fgets_all file

fgets_all-IsPiece_example : All (IsPiece 511) (fgets_all file)
fgets_all-IsPiece_example = fgets_all-IsPiece file

find_or_alloc-eq-find_or_create_example :
    UeDl.find_or_alloc milli 5 dl_table
    ≡ find_or_create
        (UeDl.holds milli 5)
        (DlSlots.is_free {fl = milli})
        (UeDl.fresh milli 5)
        true
        dl_table
find_or_alloc-eq-find_or_create_example = DlSlots.find_or_alloc-eq-find_or_create milli 5 dl_table
