-- ===== src/Ethernet/Pages.antt =====
-- What the first loop of `en_ll_input` copies.
use prpl_hypervisor.Base.{
  ℕ, zero, suc, ◌+◌, ◌-◌, ◌*◌, ◌/◌, ◌%◌, ◌^◌, ◌≤◌, ◌<◌, ◌≡◌, ◌≢◌, refl, ap, ap₂, ◌∙◌, subst, ◌⊎◌,
  inl, inr, arith, some, ==-ne, ==-refl, true, false, ◌||◌, ◌==◌, if◌then◌else◌, sub32, add32,
}
use native.Mathlib.Decide.{ℕ_discrete, dec_lt}
use prpl_hypervisor.Libc.{memcpy}
use prpl_hypervisor.Libc.Copy.{within, memcpy_lem}
use prpl_hypervisor.Ethernet.{
  Desc, desc_eown, desc_eop, desc_bytecnt, mach_phys_to_virt, min_word, copy_pages,
}

-- The descriptor `i` places behind the index.
abbrev pub page : (ℕ → Desc) → ℕ → ℕ → Desc
page desc index i = desc ((index + i) % 48)

-- Where the bytes of a descriptor are.
abbrev pub source : Desc → ℕ
source d = mach_phys_to_virt (add32 d.paddr 0)

-- The `k + 1` descriptors from the index on hold a frame of `size` bytes: none is the controller's, all
-- but the last are full, and the last one ends the frame.
pub record HoldsFrame (desc : ℕ → Desc) (index k size : ℕ) : Type 0 where
  pub owned : (i : ℕ) → i ≤ k → desc_eown (page desc index i) ≡ false
  pub full : (i : ℕ) → i < k → desc_bytecnt (page desc index i) ≡ 128
  pub inner : (i : ℕ) → i < k → desc_eop (page desc index i) ≡ false
  pub ends : desc_eop (page desc index k) ≡ true
  pub last : desc_bytecnt (page desc index k) + 128 * k ≡ size
  pub fits : (128 * k < size) × (size ≤ 128 * (k + 1)) × (k < 48)

-- The buffer for the frame is apart from where its bytes are.
abbrev pub Clear : (ℕ → Desc) → ℕ → ℕ → ℕ → ℕ → Type 0
Clear desc index k size buf =
    (i : ℕ) → i ≤ k → let s = source (page desc index i) in (buf + size ≤ s) ⊎ (s + 128 ≤ buf)

-- How many bytes the loop copies.
abbrev pub copied : ℕ → ℕ
copied size = if size % 256 == 0 then size / 2 else size

-- The byte `t` of the frame.
abbrev pub frame_byte : (ℕ → Desc) → ℕ → (ℕ → ℕ) → ℕ → ℕ
frame_byte desc index m t = m (source (page desc index (t / 128)) + t % 128)

-- The first `n` bytes of the frame are in the buffer, and all else is as it was.
abbrev pub IsCopied : (ℕ → Desc) → ℕ → ℕ → (ℕ → ℕ) → (ℕ → ℕ) → ℕ → Type 0
IsCopied desc index buf m m' n =
    ((t : ℕ) → t < n → m' (buf + t) ≡ frame_byte desc index m t)
    × ((a : ℕ) → (a < buf) ⊎ (buf + n ≤ a) → m' a ≡ m a)

min_word_lem : (n size : ℕ) → n ≤ size → n < 2 ^ 32 → min_word (sub32 n 0) size ≡ n
unfolding min_word
min_word_lem n size h k = ground arith

-- One round of the loop at a descriptor of `n` bytes.
copy_page :
    (fuel : ℕ) (desc : ℕ → Desc) (index n size read buf : ℕ) (m : ℕ → ℕ)
    → desc_eown (desc index) ≡ false
    → desc_bytecnt (desc index) ≡ n
    → size ≢ 0
    → n ≤ size
    → n < 2 ^ 32
    → let m' = (memcpy m buf (source (desc index)) n).0 in
      copy_pages (suc fuel) desc index 0 size read buf m ≡ (
        if desc_eop (desc index) || (read + n == size - n)
        then some m'
        else copy_pages fuel desc ((index + 1) % 48) 0 (size - n) (read + n) (buf + n) m')
unfolding copy_pages
copy_page fuel desc index n size read buf m own bytes z h w =
    rw (==-ne size 0 z, own, bytes, min_word_lem n size h w, zero_add n, ==-refl n) refl
  where
    zero_add : (n : ℕ) → 0 + n ≡ n
    zero_add n = omega arith

-- The arguments of a round, with the numbers written in two ways.
pub same_call :
    (fuel : ℕ) (desc : ℕ → Desc) (m : ℕ → ℕ) (i i' s s' r r' b b' : ℕ)
    → i ≡ i'
    → s ≡ s'
    → r ≡ r'
    → b ≡ b'
    → copy_pages fuel desc i 0 s r b m ≡ copy_pages fuel desc i' 0 s' r' b' m
same_call fuel desc m i i' s s' r r' b b' e f g h = cc

-- Half of the frame is read when as much is left.
half :
    (i size : ℕ)
    → 128 * i + 128 ≡ size - 128 * i - 128
    → 128 * (i + 1) < size
    → 128 * i + 128 ≡ copied size
half i size e h = ground arith

not_half :
    (i size : ℕ)
    → 128 * i + 128 ≢ size - 128 * i - 128
    → 128 * (i + 1) < size
    → 128 * i < copied size
    → 128 * (i + 1) < copied size
not_half i size n h l = ground arith

within-true : (a dst n : ℕ) → dst ≤ a → a < dst + n → within a dst n ≡ true
within-true a dst n h k = ground arith

module _ (desc : ℕ → Desc) (index k size buf : ℕ) (h : HoldsFrame desc index k size)
    (c : Clear desc index k size buf) (m : ℕ → ℕ) where
  -- One more page, or the last part of one.
  IsCopied-page :
      (i cb : ℕ) (m' : ℕ → ℕ)
      → i ≤ k
      → cb ≤ 128
      → 128 * i + cb ≤ size
      → IsCopied desc index buf m m' (128 * i)
      → IsCopied desc index buf m
          (memcpy m' (buf + 128 * i) (source (page desc index i)) cb).0
          (128 * i + cb)
  IsCopied-page i cb m' l w e p = (inside, outside)
    where
      from : ℕ
      from = source (page desc index i)

      to : ℕ
      to = buf + 128 * i

      split : (to ≤ from) ⊎ (from + cb ≤ to)
      split = elim (c i l) [ inl d ↦ inl (omega arith) | inr d ↦ inr (omega arith) ]

      moved :
          (a : ℕ)
          → (memcpy m' to from cb).0 a ≡ (if within a to cb then m' (from + (a - to)) else m' a)
      moved a = (memcpy_lem m' to from cb a (omega arith) split).0

      kept : (a : ℕ) → (a < to) ⊎ (to + cb ≤ a) → (memcpy m' to from cb).0 a ≡ m' a
      kept a d = let q = moved a in ground (arith, q, d)

      inside :
          (t : ℕ)
          → t < 128 * i + cb
          → (memcpy m' to from cb).0 (buf + t) ≡ frame_byte desc index m t
      inside t lt = elim (dec_lt t (128 * i)) [
        | yes d ↦ kept (buf + t) (inl (omega arith)) ∙ p.0 t d
        | no d ↦
            let u : ℕ = t - 128 * i in
            let at : (memcpy m' to from cb).0 (buf + t) ≡ m' (from + u) =
              moved (buf + t)
              ∙ ap (λ b. if b then m' (from + (buf + t - to)) else m' (buf + t))
                  (within-true (buf + t) to cb (omega arith) (omega arith))
              ∙ ap (λ z. m' (from + z)) (omega arith) in
            let same : m' (from + u) ≡ m (from + u) =
              p.1 (from + u)
                (elim (c i l) [ inl z ↦ inr (omega arith) | inr z ↦ inl (omega arith) ]) in
            at ∙ same ∙ ap₂ (λ j r. m (source (page desc index j) + r)) (omega arith) (omega arith)
      ]

      outside : (a : ℕ) → (a < buf) ⊎ (buf + (128 * i + cb) ≤ a) → (memcpy m' to from cb).0 a ≡ m a
      outside a (inl d) = kept a (inl (omega arith)) ∙ p.1 a (inl d)
      outside a (inr d) = kept a (inr (omega arith)) ∙ p.1 a (inr (omega arith))

  -- From page `i` on the loop ends with the bytes that it copies.
  pub copy_pages_lem :
      (j i fuel : ℕ) (m' : ℕ → ℕ)
      → i + j ≡ k
      → 128 * i < copied size
      → j < fuel
      → IsCopied desc index buf m m' (128 * i)
      → (m'' : ℕ → ℕ) × (copy_pages fuel desc
            ((index + i) % 48)
            0
            (size - 128 * i)
            (128 * i)
            (buf + 128 * i)
            m'
          ≡ some m'')
        × IsCopied desc index buf m m'' (copied size)
  copy_pages_lem j i zero m' e less f p = absurd (omega arith)
  copy_pages_lem zero i (suc fuel) m' e less f p =
      let at : i ≡ k = omega arith in
      let left : ℕ = size - 128 * i in
      let bytes : desc_bytecnt (page desc index i) ≡ left =
        ap (λ y. desc_bytecnt (page desc index y)) at ∙ omega (arith, h.last, at) in
      let fits = h.fits in
      let eop : desc_eop (page desc index i) ≡ true =
        ap (λ y. desc_eop (page desc index y)) at ∙ h.ends in
      let all : 128 * i + left ≡ copied size = whole i (omega arith) less in
      (
        (memcpy m' (buf + 128 * i) (source (page desc index i)) left).0,
        copy_page fuel desc ((index + i) % 48) left left (128 * i) (buf + 128 * i) m'
              (h.owned i (omega arith)) bytes (λ z. omega arith) (omega arith) (omega arith)
            ∙ rw eop refl,
        subst
            (IsCopied desc index buf m
              (memcpy m' (buf + 128 * i) (source (page desc index i)) left).0)
            all (IsCopied-page i left m' (omega arith) (omega arith) (omega arith) p),
      )
    where
      whole : (i : ℕ) → i ≡ k → 128 * i < copied size → 128 * i + (size - 128 * i) ≡ copied size
      whole i e less = let fits = h.fits in ground arith
  copy_pages_lem (suc j) i (suc fuel) m' e less f p =
      let left : ℕ = size - 128 * i in
      let fits = h.fits in
      let bytes : desc_bytecnt (page desc index i) ≡ 128 = h.full i (omega arith) in
      let eop : desc_eop (page desc index i) ≡ false = h.inner i (omega arith) in
      let m1 = (memcpy m' (buf + 128 * i) (source (page desc index i)) 128).0 in
      let copied_page : IsCopied desc index buf m m1 (128 * i + 128) =
        IsCopied-page i 128 m' (omega arith) (omega arith) (omega arith) p in
      let round =
        copy_page fuel desc ((index + i) % 48) 128 left (128 * i) (buf + 128 * i) m'
          (h.owned i (omega arith)) bytes (λ z. omega arith) (omega arith) (omega arith) in
      elim (ℕ_discrete (128 * i + 128) (left - 128)) [
        | yes d ↦
            let stop : (128 * i + 128 == left - 128) ≡ true =
              ap (λ y. y == left - 128) d ∙ ==-refl (left - 128) in
            (
              m1,
              round ∙ rw (eop, stop) refl,
              subst (IsCopied desc index buf m m1) (half i size d (omega arith)) copied_page,
            )
        | no d ↦
            let rest =
              copy_pages_lem j (i + 1) fuel m1 (omega arith) (not_half i size d (omega arith) less)
                (omega arith) (subst (IsCopied desc index buf m m1) (omega arith) copied_page) in
            (
              rest.0,
              round
                  ∙ rw (eop, ==-ne (128 * i + 128) (left - 128) d) refl
                  ∙ same_call fuel desc m1 (((index + i) % 48 + 1) % 48) ((index + (i + 1)) % 48)
                      (left - 128) (size - 128 * (i + 1)) (128 * i + 128) (128 * (i + 1))
                      (buf + 128 * i + 128) (buf + 128 * (i + 1)) (omega arith) (omega arith)
                      (omega arith) (omega arith)
                  ∙ rest.1,
              rest.2,
            )
      ]
