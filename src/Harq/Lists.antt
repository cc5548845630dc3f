-- ===== src/Harq/Lists.antt =====
-- What the lists of HARQ processes hold: the documented behaviour of `nr_list_t`, and how often a
-- process stands in the lists of a UE.
use user_ric.Prelude.{
  ℕ, ◌+◌, ◌<◌, ◌≡◌, List, [], ◌∷◌, ◌++◌, Option, none, some, if◌then◌else◌, ◌==◌, arith,
}
use user_ric.Prelude.Slots.{count, count-append}
use user_ric.Harq.{NrList, UlHarq}

abbrev pub first : List ℕ → Option ℕ
first [] = none
first (x ∷ xs) = some x

abbrev pub tail : List ℕ → List ℕ
tail [] = []
tail (x ∷ xs) = xs

-- a list without the first occurrence of a process
abbrev pub without : ℕ → List ℕ → List ℕ
without pid [] = []
without pid (x ∷ xs) = if x == pid then xs else x ∷ without pid xs

-- A list is first in, first out, but for `remove_nr_list`, which takes out a given process and fails
-- if the process is not in the list.
pub record NrListLaws (nr : NrList) : Type 0 where
  pub contents : nr.L → List ℕ
  pub head-contents : (l : nr.L) → nr.head l ≡ first (contents l)
  pub contents-add_tail : (l : nr.L) (x : ℕ) → contents (nr.add_tail l x) ≡ contents l ++ x ∷ []
  pub remove-some :
      (l : nr.L) (x : ℕ)
      → 0 < count (λ y. y == x) (contents l)
      → (l' : nr.L) × (nr.remove l x ≡ some l') × (contents l' ≡ without x (contents l))
  pub remove-none : (l : nr.L) (x : ℕ) → count (λ y. y == x) (contents l) ≡ 0 → nr.remove l x ≡ none
  pub contents-remove_front : (l : nr.L) → contents (nr.remove_front l) ≡ tail (contents l)

module _ {nr : NrList} (laws : NrListLaws nr) where
  -- the processes that wait for feedback, in order
  abbrev pub waiting : UlHarq nr → List ℕ
  waiting st = laws.contents st.feedback_ul_harq

  abbrev pub occurs : ℕ → nr.L → ℕ
  occurs pid l = count (λ x. x == pid) (laws.contents l)

  -- how often a process stands in the three lists
  abbrev pub tally : ℕ → UlHarq nr → ℕ
  tally pid st =
      occurs pid st.available_ul_harq
      + occurs pid st.feedback_ul_harq
      + occurs pid st.retrans_ul_harq

  pub occurs-add_tail :
      (pid x : ℕ) (l : nr.L)
      → occurs pid (nr.add_tail l x) ≡ occurs pid l + (if x == pid then 1 else 0)
  unfolding count
  occurs-add_tail pid x l =
      rw (laws.contents-add_tail l x, count-append (λ x. x == pid) (laws.contents l) (x ∷ []))
        (ground arith)
