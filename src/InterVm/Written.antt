-- ===== src/InterVm/Written.antt =====
-- What copies from and into the memory of a guest read and leave there, byte by byte.
use prpl_hypervisor.Base.{
  ℕ, zero, suc, ◌+◌, ◌%◌, ◌^◌, ◌<◌, ◌≡◌, ◌≢◌, refl, sym, ap, ◌∙◌, List, [], ◌∷◌, arith, length,
  get_or, add32, ◌==◌, ==-ne, ==-refl, if◌then◌else◌,
}
use prpl_hypervisor.Machine.{Cpu, store}
use prpl_hypervisor.InterVm.{read_bytes, write_bytes}

-- The address `t` bytes behind `a`.
abbrev pub behind : ℕ → ℕ → ℕ
behind a t = (a + t) % 2 ^ 32

-- The translation keeps the `n` addresses from `a` on apart.
abbrev pub AreApart : (ℕ → ℕ) → ℕ → ℕ → Type 0
AreApart mmu a n = (s t : ℕ) → s < n → t < n → mmu (behind a s) ≡ mmu (behind a t) → s ≡ t

-- Between two memories, the bytes from `a` on, as translated, have become `bytes`, and no other byte
-- has changed.
pub record IsWritten (mmu : ℕ → ℕ) (a : ℕ) (bytes : List ℕ) (before after : ℕ → ℕ) : Type 0 where
  pub inside : (t : ℕ) → t < length bytes → after (mmu (behind a t)) ≡ get_or bytes t 0
  pub outside : (x : ℕ) → ((t : ℕ) → t < length bytes → x ≢ mmu (behind a t)) → after x ≡ before x

behind-step : (a t : ℕ) → behind (add32 a 1) t ≡ behind a (suc t)
behind-step a t = omega arith

apart-step : (mmu : ℕ → ℕ) (a n : ℕ) → AreApart mmu a (suc n) → AreApart mmu (add32 a 1) n
apart-step mmu a n ap' s t hs ht e =
    let same : suc s ≡ suc t =
      ap' (suc s) (suc t) (omega arith) (omega arith)
        (ap mmu (sym (behind-step a s)) ∙ e ∙ ap mmu (behind-step a t)) in
    omega arith

write-outside :
    (mmu : ℕ → ℕ) (c : Cpu) (a : ℕ) (bs : List ℕ) (x : ℕ)
    → a < 2 ^ 32
    → ((t : ℕ) → t < length bs → x ≢ mmu (behind a t))
    → (write_bytes mmu c a bs).byte x ≡ c.byte x
unfolding write_bytes
write-outside mmu c a [] x l n = refl
write-outside mmu c a (b ∷ bs) x l n =
    write-outside mmu (record c { byte = store c.byte (mmu a) b }) (add32 a 1) bs x (omega arith)
      (λ t h e. n (suc t) (omega arith) (e ∙ ap mmu (behind-step a t)))
    ∙ ap (λ q. if q then b else c.byte x)
        (==-ne x (mmu a) (λ e. n 0 (omega arith) (e ∙ ap mmu (omega arith))))

write-inside :
    (mmu : ℕ → ℕ) (c : Cpu) (a : ℕ) (bs : List ℕ) (t : ℕ)
    → a < 2 ^ 32
    → AreApart mmu a (length bs)
    → t < length bs
    → (write_bytes mmu c a bs).byte (mmu (behind a t)) ≡ get_or bs t 0
unfolding write_bytes
write-inside mmu c a [] t l p h = absurd (omega arith)
write-inside mmu c a (b ∷ bs) zero l p h =
    write-outside mmu (record c { byte = store c.byte (mmu a) b }) (add32 a 1) bs (mmu (behind a 0))
      (omega arith)
      (λ t k e.
        let z : zero ≡ suc t =
          p 0 (suc t) (omega arith) (omega arith) (e ∙ ap mmu (behind-step a t)) in
        omega arith)
    ∙ ap (λ x. if x == mmu a then b else c.byte x) (ap mmu first)
    ∙ ap (λ q. if q then b else c.byte (mmu a)) (==-refl (mmu a))
  where
    first : behind a 0 ≡ a
    first = omega arith
write-inside mmu c a (b ∷ bs) (suc t) l p h =
    ap
      (λ x.
        (write_bytes mmu (record c { byte = store c.byte (mmu a) b }) (add32 a 1) bs).byte (mmu x))
      (sym (behind-step a t))
    ∙ write-inside mmu (record c { byte = store c.byte (mmu a) b }) (add32 a 1) bs t (omega arith)
        (apart-step mmu a (length bs) p) (omega arith)

-- `write_bytes` writes the bytes where the translation keeps the addresses apart.
pub write_bytes-IsWritten :
    (mmu : ℕ → ℕ) (c : Cpu) (a : ℕ) (bs : List ℕ)
    → a < 2 ^ 32
    → AreApart mmu a (length bs)
    → IsWritten mmu a bs c.byte (write_bytes mmu c a bs).byte
write_bytes-IsWritten mmu c a bs l p = record {
  inside = λ t. write-inside mmu c a bs t l p;
  outside = λ x. write-outside mmu c a bs x l;
}

-- `read_bytes` reads the bytes from `a` on, as translated.
pub get_or-read_bytes :
    (mmu : ℕ → ℕ) (c : Cpu) (a n t : ℕ)
    → a < 2 ^ 32
    → t < n
    → get_or (read_bytes mmu c a n) t 0 ≡ c.byte (mmu (behind a t))
unfolding read_bytes
get_or-read_bytes mmu c a zero t l h = absurd (omega arith)
get_or-read_bytes mmu c a (suc n) zero l h = ap (λ x. c.byte (mmu x)) (omega arith)
get_or-read_bytes mmu c a (suc n) (suc t) l h =
    get_or-read_bytes mmu c (add32 a 1) n t (omega arith) (omega arith)
    ∙ ap (λ x. c.byte (mmu x)) (behind-step a t)
