-- ===== src/Uart/Table.antt =====
-- Changes of one place of the table of transfers.
use prpl_hypervisor.Base.{
  ℕ, suc, ◌<◌, ◌≡◌, ◌≢◌, sym, ap, ◌∙◌, subst, ◌⊎◌, inl, inr, List, arith, length, get_or,
  get_or-set_self, get_or-set_ne, set, negative,
}
use native.Mathlib.Decide.{ℕ_discrete}
use prpl_hypervisor.Machine.{Hypervisor, Vcpu, put_vcpu, store}
use prpl_hypervisor.Uart.{Uart, TransferInfo, no_transfer}
use prpl_hypervisor.Uart.Loops.{IsQueued}

-- What a place of the table holds: no transfer, or a queued one.
abbrev pub Fits : (ℕ → Vcpu) → ℕ → TransferInfo → Type 0
Fits vcpus j t = (t.vcpu ≡ 0) ⊎ IsQueued vcpus j t

-- A VCPU waits for a transfer that is active.
abbrev pub IsActive : Uart → Type 0
IsActive u = u.active_transfer ≢ negative 1

-- One place is changed, and the other transfers stay queued.
pub each-set :
    (v v' : ℕ → Vcpu) (ts : List TransferInfo) (j : ℕ) (t : TransferInfo)
    → ((k : ℕ) → Fits v k (get_or ts k no_transfer))
    → j < length ts
    → Fits v' j t
    → ((k : ℕ) (s : TransferInfo) → k ≢ j → IsQueued v k s → IsQueued v' k s)
    → (k : ℕ) → Fits v' k (get_or (set ts j t) k no_transfer)
each-set v v' ts j t each l fit keep k = elim (ℕ_discrete k j) [
  | yes e ↦
      subst (Fits v' k)
        (sym (ap (λ i. get_or (set ts j t) i no_transfer) e ∙ get_or-set_self ts j t no_transfer l))
        (subst (λ i. Fits v' i t) (sym e) fit)
  | no n ↦
      subst (Fits v' k) (sym (get_or-set_ne ts t no_transfer (λ e. n (sym e)))) (kept n (each k))
]
  where
    kept : k ≢ j → Fits v k (get_or ts k no_transfer) → Fits v' k (get_or ts k no_transfer)
    kept n (inl z) = inl z
    kept n (inr q) = inr (keep k (get_or ts k no_transfer) n q)

pub same_owner :
    (ts : List TransferInfo) (i : ℕ) (t : TransferInfo)
    → i < length ts
    → t.vcpu ≡ (get_or ts i no_transfer).vcpu
    → (j : ℕ) → (get_or (set ts i t) j no_transfer).vcpu ≡ (get_or ts j no_transfer).vcpu
same_owner ts i t l e j = elim (ℕ_discrete i j) [
  | yes same ↦
      ap (λ k. (get_or (set ts i t) k no_transfer).vcpu) (sym same)
      ∙ ap (λ x. x.vcpu) (get_or-set_self ts i t no_transfer l)
      ∙ e
      ∙ ap (λ k. (get_or ts k no_transfer).vcpu) same
  | no n ↦ ap (λ x. x.vcpu) (get_or-set_ne ts t no_transfer n)
]

-- A change of one VCPU that no other transfer waits for.
pub others_wait :
    (h : Hypervisor) (j p : ℕ) (v : Vcpu) (k : ℕ) (s : TransferInfo)
    → (h.vcpu p).id ≡ suc j
    → k ≢ j
    → IsQueued h.vcpu k s
    → IsQueued (put_vcpu h p v).vcpu k s
others_wait h j p v k s id n q = record {
  non_null = q.non_null;
  more = q.more;
  fits = q.fits;
  owner = ap (λ w. w.id) same ∙ q.owner;
  waits = ap (λ w. w.state) same ∙ q.waits;
}
  where
    apart : s.vcpu ≢ p
    apart e = n (omega (arith, q.owner, id, ap (λ x. (h.vcpu x).id) e))

    same : store h.vcpu p v s.vcpu ≡ h.vcpu s.vcpu
    same = ground (arith, apart)
