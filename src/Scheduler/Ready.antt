-- ===== src/Scheduler/Ready.antt =====
-- The scheduler's invariant under each choice and under fast interrupt delivery.
use prpl_hypervisor.Base.{
  ℕ, suc, ◌+◌, ◌≤◌, ◌<◌, ◌^◌, ◌≡◌, refl, sym, ap, ◌∙◌, subst, inl, inr, List, [], ◌∷◌, ◌++◌, arith,
  length, All, In, Distinct, ◌==◌, Bool-cases, take, drop, length-take_of_le, take-append-drop,
  All-swap, All-in, All-of_In, Distinct-swap, add32, sub32,
}
use prpl_hypervisor.Queue.Valid.{contents, length-contents}
use prpl_hypervisor.Machine.{Cpu, Hypervisor, Vcpu, store}
use prpl_hypervisor.Scheduler.{take_urgent, take_best, fast_interrupt_delivery, is_urgent}
use prpl_hypervisor.Scheduler.Rotate.{turns, turns-IsValid, contents-turns}
use prpl_hypervisor.Scheduler.Choose.{Choice, urgent_at, best, choose, later, IsUrgent}
use prpl_hypervisor.Scheduler.Loops.{NonNull, rotated, lower_each}
use prpl_hypervisor.Scheduler.Lowered.{aged, lower_each-keeps, lower_each-In}
use prpl_hypervisor.Scheduler.Pending.{
  flag, critical_count, critical_count-le, critical_count_congr, critical_count-append,
  critical_count-store, critical_count-pos,
}
use prpl_hypervisor.Scheduler.Select.{full_turn, IsReady, IsWord, ready, lowered}

-- A search stops within the list.
abbrev pub Within : ℕ → Choice → Type 0
Within n (urgent_at m p) = m ≤ n
Within n (best p) = Unit

Within-later : (n : ℕ) (c : Choice) → Within n c → Within (suc n) (later c)
Within-later n (urgent_at m p) h = omega arith
Within-later n (best p) h = tt

pub choose-Within :
    (f : ℕ → Vcpu) (xs : List ℕ) (hp aux : ℕ) → Within (length xs) (choose f hp aux xs)
unfolding choose
choose-Within f [] hp aux = tt
choose-Within f (x ∷ xs) hp aux = elim (Bool-cases (is_urgent (f x))) [
  | inl u ↦ rw u (omega arith)
  | inr u ↦ rw u (Within-later (length xs) _ (choose-Within f xs _ _))
]

pub ready-rotated :
    (n : ℕ) (h : Hypervisor)
    → IsReady h
    → n ≤ length (ready h)
    → ready (rotated n h) ≡ drop n (ready h) ++ take n (ready h)
ready-rotated n h r k =
    ap (λ m. contents (turns m h.vcpu_ready_list)) (sym (length-take_of_le n (ready h) k))
    ∙ contents-turns (take n (ready h)) (drop n (ready h)) r.valid
        (sym (take-append-drop n (ready h)))

pub rotated-IsReady :
    (n : ℕ) {h : Hypervisor} → IsReady h → n ≤ length (ready h) → IsReady (rotated n h)
rotated-IsReady n {h} r k = record {
  valid = turns-IsValid n r.valid;
  non_null = over NonNull r.non_null;
  distinct = subst Distinct (sym e) (Distinct-swap xs ys (subst Distinct (sym split) r.distinct));
  words = over (λ p. IsWord (h.vcpu p)) r.words;
  counted = omega (
    arith,
    r.counted,
    ap (critical_count h.vcpu) split,
    ap (critical_count h.vcpu) e,
    critical_count-append h.vcpu xs ys,
    critical_count-append h.vcpu ys xs,
  );
}
  where
    xs : List ℕ
    xs = take n (ready h)

    ys : List ℕ
    ys = drop n (ready h)

    split : xs ++ ys ≡ ready h
    split = take-append-drop n (ready h)

    e : ready (rotated n h) ≡ ys ++ xs
    e = ready-rotated n h r k

    over : (P : ℕ → Type 0) → All P (ready h) → All P (ready (rotated n h))
    over P a = subst (All P) (sym e) (All-swap P xs ys (subst (All P) (sym split) a))

-- Other contents of the VCPUs, with as many critical flags as `pending` then counts.
with_vcpus :
    (h : Hypervisor) (f : ℕ → Vcpu) (n : ℕ)
    → IsReady h
    → ((p : ℕ) → In p (ready h) → IsWord (f p))
    → n ≡ critical_count f (ready h)
    → IsReady (record h { vcpu = f; pending = n })
with_vcpus h f n r w c = record {
  valid = r.valid;
  non_null = r.non_null;
  distinct = r.distinct;
  words = All-of_In (λ p. IsWord (f p)) (ready h) w;
  counted = c;
}

pub IsWord-of : (h : Hypervisor) → IsReady h → (p : ℕ) → In p (ready h) → IsWord (h.vcpu p)
IsWord-of h r = All-in (λ p. IsWord (h.vcpu p)) (ready h) r.words

store-IsWord :
    (h : Hypervisor) (q : ℕ) (v : Vcpu)
    → IsReady h
    → IsWord v
    → (p : ℕ) → In p (ready h)
    → IsWord (store h.vcpu q v p)
store-IsWord h q v r w p i = elim (Bool-cases (p == q)) [
  | inl e ↦ rw e w
  | inr e ↦ rw e (IsWord-of h r p i)
]

pending-lt : (h : Hypervisor) → IsReady h → h.pending < 2 ^ 30
pending-lt h r = omega (
  arith,
  r.counted,
  critical_count-le h.vcpu (ready h),
  length-contents h.vcpu_ready_list,
  r.valid,
)

pub with_vcpu :
    (h : Hypervisor) (p : ℕ) (v : Vcpu) (n : ℕ)
    → IsReady h
    → In p (ready h)
    → IsWord v
    → n + flag (h.vcpu p) ≡ h.pending + flag v
    → IsReady (record h { vcpu = store h.vcpu p v; pending = n })
with_vcpu h p v n r i w e =
    with_vcpus h (store h.vcpu p v) n r (store-IsWord h p v r w)
      (omega (arith, e, r.counted, critical_count-store h.vcpu p v (ready h) r.distinct i))

urgent-flag : (v : Vcpu) → IsUrgent v → flag v ≡ 1
urgent-flag v u = ground arith

flag-le : (h : Hypervisor) (p : ℕ) → IsReady h → In p (ready h) → flag (h.vcpu p) ≤ h.pending
flag-le h p r i = omega (arith, r.counted, critical_count-pos h.vcpu p (ready h) i)

pub take_urgent-IsReady :
    (h : Hypervisor) (p : ℕ)
    → IsReady h
    → In p (ready h)
    → IsUrgent (h.vcpu p)
    → IsReady (take_urgent p h)
unfolding take_urgent
take_urgent-IsReady h p r i u =
    with_vcpu h p (record (h.vcpu p) { critical = 0; bgjobs = add32 (h.vcpu p).bgjobs 1 })
      (sub32 h.pending 1) r i (IsWord-of h r p i)
      (omega (arith, urgent-flag (h.vcpu p) u, flag-le h p r i, pending-lt h r))

pub take_best-IsReady :
    (h : Hypervisor) (p : ℕ) → IsReady h → In p (ready h) → IsReady (take_best p h)
unfolding take_best
take_best-IsReady h p r i =
    with_vcpu h p
      (record (h.vcpu p) { priority_rem = (h.vcpu p).priority; bgjobs = add32 (h.vcpu p).bgjobs 1 })
      h.pending r i ((IsWord-of h r p i).1, (IsWord-of h r p i).1) refl

-- `fast_interrupt_delivery` to a VCPU of the ready list keeps the invariant.
pub fast_interrupt_delivery-IsReady :
    (h : Hypervisor) (target : ℕ)
    → IsReady h
    → In target (ready h)
    → IsReady (fast_interrupt_delivery h target)
unfolding fast_interrupt_delivery
fast_interrupt_delivery-IsReady h target r i = elim (Bool-cases (h.vcpu_executing == target)) [
  | inl e ↦ rw e r
  | inr e ↦ rw e (elim (Bool-cases ((h.vcpu target).critical == 0)) [
    | inl z ↦ rw z (
        with_vcpu h target (record (h.vcpu target) { critical = 1 }) (add32 h.pending 1) r i
          (IsWord-of h r target i) (ground (arith, pending-lt h r)))
    | inr z ↦ rw z r
  ])
]

lower_each-IsWord :
    (h : Hypervisor) (p : ℕ)
    → IsReady h
    → (q : ℕ) → In q (ready h)
    → IsWord (lower_each h.vcpu p (ready h) q)
unfolding aged
lower_each-IsWord h p r q i =
    subst IsWord (sym (lower_each-In h.vcpu p (ready h) q r.distinct i))
      (ground (arith, IsWord-of h r q i))

pub lowered-IsReady : (h : Hypervisor) (p : ℕ) → IsReady h → IsReady (lowered h p)
unfolding lowered
lowered-IsReady h p r =
    with_vcpus (rotated n (rotated n h)) (lower_each h.vcpu p (ready h)) h.pending twice
      (λ q i. lower_each-IsWord h p r q (subst (In q) same i))
      (ground (
        arith,
        r.counted,
        ap (critical_count (lower_each h.vcpu p (ready h))) same,
        critical_count_congr h.vcpu (lower_each h.vcpu p (ready h)) (ready h)
            (λ q. ap (λ v. v.critical) (lower_each-keeps h.vcpu p (ready h) q)),
      ))
  where
    n : ℕ
    n = length (ready h)

    once : IsReady (rotated n h)
    once = rotated-IsReady n r (omega arith)

    e : ready (rotated n h) ≡ ready h
    e = full_turn h r

    same : ready (rotated n (rotated n h)) ≡ ready h
    same =
        ap (λ m. ready (rotated m (rotated n h))) (sym (ap length e))
        ∙ full_turn (rotated n h) once
        ∙ e

    twice : IsReady (rotated n (rotated n h))
    twice = rotated-IsReady n once (omega (arith, ap length e))

-- The invariant speaks of the VCPUs, the ready list and `pending` only.
pub IsReady-frame :
    {h : Hypervisor} (executing ticks : ℕ) (c : Cpu)
    → IsReady h
    → IsReady (record h { vcpu_executing = executing; tick_count = ticks; cpu = c })
IsReady-frame executing ticks c r = record {
  valid = r.valid;
  non_null = r.non_null;
  distinct = r.distinct;
  words = r.words;
  counted = r.counted;
}
