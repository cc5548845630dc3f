-- ===== src/Frame/Next/Ahead.antt =====
-- Searches for the next uplink slot, one after the other, do not go back.
use user_ric.Prelude.{
  ℕ, ◌+◌, ◌-◌, ◌*◌, ◌<◌, ◌≤◌, ◌≡◌, refl, sym, ap, ◌∙◌, ◌⊎◌, inl, inr, Bool, arith, if_ind,
  Bool-cases, leb,
}
use user_ric.Prelude.Int.{pos, pos_part, leb_ℤ}
use user_ric.Frame.{Fsn, fs_add_delta, fs_get_diff, fs_get_max}
use user_ric.Frame.Laws.{IsFsn, fs_add_delta-fs_add_delta, fs_get_diff-fs_add_delta}
use user_ric.Frame.Next.Later.{UplinkAfter}

module _ (n : ℕ) (current : Fsn) (some_slot : 0 < n) (v : IsFsn n current) where
  -- the slot that lies `d` slots after `current`
  abbrev pub after : ℕ → Fsn
  after d = fs_add_delta n 1024 d current

  pub after_again : (d e : ℕ) → fs_add_delta n 1024 e (after d) ≡ after (d + e)
  after_again d e = (fs_add_delta-fs_add_delta n d e current some_slot).1

  pub after-IsFsn : (d : ℕ) → IsFsn n (after d)
  after-IsFsn d = (fs_add_delta-fs_add_delta n d 0 current some_slot).0

  after_injective : (d e : ℕ) → d < 512 * n → e < 512 * n → after d ≡ after e → d ≡ e
  after_injective d e l m eq =
      let same : pos d ≡ pos e =
        sym (fs_get_diff-fs_add_delta n d current some_slot v l)
        ∙ ap (λ a. fs_get_diff n a current) eq
        ∙ fs_get_diff-fs_add_delta n e current some_slot v m in
      ap pos_part same

  -- a slot at least `j` slots after `current`, and a frame before half of all slots have passed
  abbrev pub Ahead : ℕ → Fsn → Type 0
  Ahead j a = (d : ℕ) × (a ≡ after d) × (j ≤ d) × (d + n < 512 * n)

  -- the later of two slots is not before the first
  max-Ahead :
      (d m : ℕ) → d + n < 512 * n → m + n < 512 * n → Ahead d (fs_get_max n (after d) (after m))
  unfolding fs_get_max
  max-Ahead d m l k =
      let diff = fs_get_diff n (after d) (after m) in
      if_ind (Ahead d) (leb_ℤ diff (pos 0)) (after m) (after d)
        (λ not_later. elim (Bool-cases (leb d m)) [
          | inl le ↦ (m, refl, ground (arith, le), k)
          | inr gt ↦
              let lt : m < d = ground (arith, gt) in
              let apart : d ≡ m + (d - m) = omega (arith, lt) in
              let whole : after d ≡ fs_add_delta n 1024 (d - m) (after m) =
                ap after apart ∙ sym (after_again m (d - m)) in
              let e : diff ≡ pos (d - m) =
                ap (λ a. fs_get_diff n a (after m)) whole
                ∙ fs_get_diff-fs_add_delta n (d - m) (after m) some_slot (after-IsFsn m)
                    (omega (arith, l, lt)) in
              absurd (ground (arith, not_later, e, lt))
        ])
        (λ _. (d, refl, omega arith, l))

  -- a slot from which the search starts: any valid one before the first pass, and then one that is
  -- ahead
  abbrev pub StartsAt : ℕ → Fsn → Type 0
  StartsAt j a = IsFsn n a × ((j ≡ 0) ⊎ Ahead j a)

  -- the search does not go back
  pub search_later :
      (is_ul_slot : ℕ → Bool) (j m k : ℕ) (a b : Fsn)
      → StartsAt j a
      → m + n < 512 * n
      → k < 512 * n
      → UplinkAfter n is_ul_slot some_slot (fs_get_max n a (after m)) n b
      → b ≡ after k
      → j ≤ k
  search_later is_ul_slot j m k a b (w, inl z) l h up eq = omega (arith, z)
  search_later is_ul_slot j m k a b (w, inr (d, a_eq, j_le, room)) l h (up, e, e_le, b_eq) eq =
      let (x, max_eq, d_le, x_room) = max-Ahead d m room l in
      let place : after (x + e) ≡ after k =
        sym (after_again x e)
        ∙ ap (fs_add_delta n 1024 e) (sym (ap (λ s. fs_get_max n s (after m)) a_eq ∙ max_eq))
        ∙ sym b_eq
        ∙ eq in
      let same = after_injective (x + e) k (omega (arith, x_room, e_le)) h place in
      omega (arith, same, j_le, d_le)
