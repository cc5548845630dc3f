-- ===== src/Frame/Distance.antt =====
-- The distance of two slots determines the later one.
use user_ric.Prelude.{
  ℕ, ◌+◌, ◌*◌, ◌/◌, ◌<◌, ◌≡◌, sym, ap, ◌∙◌, ◌⊎◌, inl, inr, if◌then◌else◌, arith, Bool-cases, ltb,
}
use user_ric.Prelude.Int.{pos, ◌+ℤ◌, ◌-ℤ◌, ltb_ℤ}
use native.Mathlib.Nat.{div-eq_of_lt, mul-add-div_right}
use user_ric.Frame.{Fsn, fs_add_delta, fs_get_diff}
use user_ric.Frame.Laws.{index, IsFsn, add_lem, index_bound, fs_add_delta-fs_add_delta}

-- the frame of a slot that is counted from the start of frame 0
frame_of : (n : ℕ) (a : Fsn) → 0 < n → IsFsn n a → index n a / n ≡ a.f
frame_of n a h v =
    let under : a.s / n ≡ 0 = div-eq_of_lt v.1 in mul-add-div_right h a.f a.s ∙ omega (arith, under)

eq_of_index : (n : ℕ) (a b : Fsn) → 0 < n → IsFsn n a → IsFsn n b → index n a ≡ index n b → a ≡ b
eq_of_index n a b h v w e =
    let f_eq : a.f ≡ b.f = sym (frame_of n a h v) ∙ ap (λ i. i / n) e ∙ frame_of n b h w in
    let over : a.f * n ≡ b.f * n = ap (λ x. x * n) f_eq in
    let s_eq : a.s ≡ b.s = omega (arith, over, e) in λ i. record { f = f_eq i; s = s_eq i }

-- The two numbers of slots that a difference can stand for.
unwrap_lem :
    (i j d half : ℕ)
    → i < 2 * half
    → j < 2 * half
    → d < half
    → let diff = pos j -ℤ pos i in
      (if ltb_ℤ diff (pos 0 -ℤ pos half)
          then diff +ℤ pos (2 * half)
          else if ltb_ℤ (pos half) diff
          then diff -ℤ pos (2 * half)
          else diff)
        ≡ pos d
      → (j ≡ i + d) ⊎ (j + 2 * half ≡ i + d)
unfolding ◌+ℤ◌ ◌-ℤ◌
unwrap_lem i j d half l m small e = elim (Bool-cases (ltb j i)) [
  | inl behind ↦ inr (ground (arith, behind, e, l, m, small))
  | inr ahead ↦ inl (ground (arith, ahead, e, l, m, small))
]

-- two slots at the same distance from a third one, below half of all slots, are the same
pub fs_get_diff_inverse :
    (n d : ℕ) (a b : Fsn)
    → 0 < n
    → IsFsn n a
    → IsFsn n b
    → d < 512 * n
    → fs_get_diff n b a ≡ pos d
    → b ≡ fs_add_delta n 1024 d a
unfolding fs_get_diff ◌-ℤ◌ ◌+ℤ◌
fs_get_diff_inverse n d a b h v w l e =
    let c = fs_add_delta n 1024 d a in
    let valid = (fs_add_delta-fs_add_delta n d 0 a h).0 in
    let twice : 2 * (512 * n) ≡ 1024 * n = omega arith in
    let in_a = index_bound n a v in
    let in_b = index_bound n b w in
    let in_c = index_bound n c valid in
    let where_b =
      unwrap_lem (index n a) (index n b) d (512 * n) (omega (arith, in_a)) (omega (arith, in_b)) l
        (rw twice e) in
    eq_of_index n b c h w valid (elim where_b [
      | inl eb ↦ elim (add_lem n d a h v l) [
        | inl ec ↦ omega (arith, eb, ec)
        | inr ec ↦ omega (arith, eb, ec, in_a, in_b, in_c)
      ]
      | inr eb ↦ elim (add_lem n d a h v l) [
        | inl ec ↦ omega (arith, eb, ec, in_a, in_b, in_c)
        | inr ec ↦ omega (arith, eb, ec)
      ]
    ])
