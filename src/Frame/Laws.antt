-- ===== src/Frame/Laws.antt =====
-- Adding slots and counting them agree, past the end of the last frame too.
use user_ric.Prelude.{
  ℕ, ◌+◌, ◌*◌, ◌/◌, ◌%◌, ◌<◌, ◌≤◌, ◌≡◌, ap, ◌∙◌, ◌⊎◌, inl, inr, if◌then◌else◌, arith, Bool-cases,
  ltb,
}
use user_ric.Prelude.Int.{pos, ◌+ℤ◌, ◌-ℤ◌, ltb_ℤ}
use native.Mathlib.Nat.{
  add-mul, mod-lt, mod-add-mod, div-add-mod', mul-add-div_right, mul-le-mul_right,
  lt_of_mul-lt-mul_right,
}
use user_ric.Frame.{Fsn, fs_add_delta, fs_get_diff, fs_get_max}

-- the slots since the start of frame 0
abbrev pub index : ℕ → Fsn → ℕ
index slots_frame a = a.f * slots_frame + a.s

-- a frame number and a slot of a frame
abbrev pub IsFsn : ℕ → Fsn → Type 0
IsFsn slots_frame a = (a.f < 1024) × (a.s < slots_frame)

-- The difference of two numbers of slots, brought into the half circle of 512 frames.
wrap_lem :
    (i j d half : ℕ)
    → d < half
    → (j ≡ i + d) ⊎ (j + 2 * half ≡ i + d)
    → i < 2 * half
    → let diff = pos j -ℤ pos i in
      (if ltb_ℤ diff (pos 0 -ℤ pos half)
        then diff +ℤ pos (2 * half)
        else if ltb_ℤ (pos half) diff
        then diff -ℤ pos (2 * half)
        else diff)
      ≡ pos d
unfolding ◌+ℤ◌ ◌-ℤ◌
wrap_lem i j d half h (inl e) l = ground (arith, h, e, l)
wrap_lem i j d half h (inr e) l = ground (arith, h, e, l)

-- the slots past the start of frame 0, after `d` more
pub add_lem :
    (n d : ℕ) (a : Fsn)
    → 0 < n
    → IsFsn n a
    → d < 512 * n
    → let b = fs_add_delta n 1024 d a in
      (index n b ≡ index n a + d) ⊎ (index n b + 1024 * n ≡ index n a + d)
unfolding fs_add_delta
add_lem n d a h v l =
    let q = (a.s + d) / n in
    let parts : q * n + (a.s + d) % n ≡ a.s + d = div-add-mod' (a.s + d) n in
    let joined : (a.f + q) * n ≡ a.f * n + q * n = add-mul a.f q n in
    elim (Bool-cases (ltb (a.f + q) 1024)) [
      | inl same ↦
          let e : (a.f + q) % 1024 ≡ a.f + q = ground (arith, same) in
          let e' : (a.f + q) % 1024 * n ≡ (a.f + q) * n = ap (λ x. x * n) e in
          inl (omega (arith, parts, joined, e'))
      | inr next ↦
          let small : q < 514 = lt_of_mul-lt-mul_right n (omega (arith, parts, v, l, h)) in
          let e : (a.f + q) % 1024 + 1024 ≡ a.f + q = ground (arith, next, small, v) in
          let e' : ((a.f + q) % 1024 + 1024) * n ≡ (a.f + q) * n = ap (λ x. x * n) e in
          let apart = add-mul ((a.f + q) % 1024) 1024 n in
          inr (omega (arith, parts, joined, e', apart))
    ]

pub index_bound : (n : ℕ) (a : Fsn) → IsFsn n a → index n a < 1024 * n
index_bound n a v =
    let full : (a.f + 1) * n ≤ 1024 * n = mul-le-mul_right n (omega (arith, v)) in
    omega (arith, full, add-mul a.f 1 n, v)

-- Where frames are numbered from 0 to 1023, the distance from a slot to the one that lies `d` slots
-- later is `d`, for any `d` below half of all slots, past the last frame too.
pub fs_get_diff-fs_add_delta :
    (n d : ℕ) (a : Fsn)
    → 0 < n
    → IsFsn n a
    → d < 512 * n
    → fs_get_diff n (fs_add_delta n 1024 d a) a ≡ pos d
unfolding fs_get_diff
fs_get_diff-fs_add_delta n d a h v l =
    let twice : 2 * (512 * n) ≡ 1024 * n = omega arith in
    let w =
      wrap_lem (index n a) (index n (fs_add_delta n 1024 d a)) d (512 * n) l
        (elim (add_lem n d a h v l) [ inl e ↦ inl e | inr e ↦ inr (omega (arith, e)) ])
        (omega (arith, index_bound n a v)) in
    rw twice at w

-- Adding slots keeps the numbers valid, and adding them in two steps is adding them at once.
pub fs_add_delta-fs_add_delta :
    (n d e : ℕ) (a : Fsn)
    → 0 < n
    → IsFsn n (fs_add_delta n 1024 d a)
      × (fs_add_delta n 1024 e (fs_add_delta n 1024 d a) ≡ fs_add_delta n 1024 (d + e) a)
unfolding fs_add_delta
fs_add_delta-fs_add_delta n d e a h =
    let q = (a.s + d) / n in
    let r = (a.s + d) % n in
    let whole : a.s + (d + e) ≡ q * n + (r + e) = omega (arith, div-add-mod' (a.s + d) n) in
    let frames : (a.s + (d + e)) / n ≡ q + (r + e) / n =
      ap (λ x. x / n) whole ∙ mul-add-div_right h q (r + e) in
    let slots : (r + e) % n ≡ (a.s + (d + e)) % n =
      mod-add-mod (a.s + d) n e ∙ ap (λ x. x % n) (omega arith) in
    let f_eq : ((a.f + q) % 1024 + (r + e) / n) % 1024 ≡ (a.f + (a.s + (d + e)) / n) % 1024 =
      mod-add-mod (a.f + q) 1024 ((r + e) / n) ∙ ap (λ x. x % 1024) (omega (arith, frames)) in
    ((omega arith, mod-lt (a.s + d) h), λ i. record { f = f_eq i; s = slots i })

-- Of a slot and the one that lies `d` slots later, `d` positive and below half of all slots, the later
-- one is the second, past the last frame too.
fs_get_max_later :
    (n d : ℕ) (a : Fsn)
    → 0 < n
    → IsFsn n a
    → 0 < d
    → d < 512 * n
    → fs_get_max n (fs_add_delta n 1024 d a) a ≡ fs_add_delta n 1024 d a
unfolding fs_get_max
fs_get_max_later n d a h v some_slot l =
    let e = fs_get_diff-fs_add_delta n d a h v l in rw e (ground (arith, some_slot))
