-- ===== src/Scheduler/Select.antt =====
-- `round_robin_scheduler` as a whole, on a well-formed state, as a choice from the list of the ready
-- VCPUs.
use prpl_hypervisor.Base.{
  ℕ, ◌<◌, ◌^◌, ◌≡◌, refl, sym, ap, ◌∙◌, inl, inr, List, [], append-nil, some, arith, length, All,
  Distinct, ◌==◌, if◌then◌else◌, Bool-cases,
}
use prpl_hypervisor.Queue.{count}
use prpl_hypervisor.Queue.Valid.{IsValid, contents, length-contents}
use prpl_hypervisor.Machine.{Hypervisor, Vcpu}
use prpl_hypervisor.Scheduler.{round_robin, take_urgent, take_best, search_highest, lower_all}
use prpl_hypervisor.Scheduler.Pending.{critical_count}
use prpl_hypervisor.Scheduler.Rotate.{turns-IsValid, contents-turns}
use prpl_hypervisor.Scheduler.Choose.{Choice, urgent_at, best, choose, chosen}
use prpl_hypervisor.Scheduler.Loops.{
  NonNull, rotated, outcome, search_highest_lem, lower_each, lower_all_lem,
}

abbrev pub IsWord : Vcpu → Type 0
IsWord v = (v.priority_rem < 2 ^ 32) × (v.priority < 2 ^ 32)

abbrev pub ready : Hypervisor → List ℕ
ready h = contents h.vcpu_ready_list

-- The invariant of the scheduler: the ready list is a valid queue of distinct VCPUs, and `pending`
-- counts those with a critical event.
pub record IsReady (h : Hypervisor) : Type 0 where
  pub valid : IsValid h.vcpu_ready_list
  pub non_null : All NonNull (ready h)
  pub distinct : Distinct (ready h)
  pub words : All (λ p. IsWord (h.vcpu p)) (ready h)
  pub counted : h.pending ≡ critical_count h.vcpu (ready h)

unfoldable pub lowered : Hypervisor → ℕ → Hypervisor
lowered h p =
    let n = length (ready h) in
    record (rotated n (rotated n h)) { vcpu = lower_each h.vcpu p (ready h) }

unfoldable pub select : Hypervisor → Choice → ℕ × Hypervisor
unfolding lowered
select h (urgent_at m p) = (p, take_urgent p (rotated m h))
select h (best p) =
    if p == 0 then (0, rotated (length (ready h)) h) else (p, take_best p (lowered h p))

pub full_turn : (h : Hypervisor) → IsReady h → ready (rotated (length (ready h)) h) ≡ ready h
full_turn h r = contents-turns (ready h) [] r.valid (sym (append-nil (ready h)))

lower_pass :
    (h : Hypervisor) (aux : ℕ)
    → IsReady h
    → lower_all (count h.vcpu_ready_list) aux (rotated (length (ready h)) h) ≡ some (lowered h aux)
unfolding lowered count
lower_pass h aux r =
    ap (λ n. lower_all n aux (rotated (length (ready h)) h))
      (sym (length-contents h.vcpu_ready_list))
    ∙ lower_all_lem aux (ready h) [] (rotated (length (ready h)) h)
        (turns-IsValid (length (ready h)) r.valid) (full_turn h r ∙ sym (append-nil (ready h)))
        r.non_null

round_robin_choice :
    (h : Hypervisor) (c : Choice)
    → IsReady h
    → search_highest (count h.vcpu_ready_list) 255 0 h ≡ outcome h (length (ready h)) c
    → round_robin h ≡ some (select h c)
unfolding round_robin select
round_robin_choice h (urgent_at m p) r e = rw (e, round_robin)
round_robin_choice h (best p) r e =
    rw (e, round_robin)
      (elim (Bool-cases (p == 0)) [ inl z ↦ rw z | inr n ↦ rw (n, lower_pass h p r) ])

-- In a well-formed state the scheduler returns, and what it returns is the selection from the
-- ready list.
pub round_robin_lem :
    (h : Hypervisor) → IsReady h → round_robin h ≡ some (select h (choose h.vcpu 255 0 (ready h)))
unfolding count
round_robin_lem h r = round_robin_choice h (choose h.vcpu 255 0 (ready h)) r (
    ap (λ n. search_highest n 255 0 h) (sym (length-contents h.vcpu_ready_list))
    ∙ search_highest_lem 255 0 (ready h) [] h r.valid (sym (append-nil (ready h))) r.non_null)

pub select-chosen : (h : Hypervisor) (c : Choice) → (select h c).0 ≡ chosen c
unfolding select
select-chosen h (urgent_at m p) = refl
select-chosen h (best p) = ground arith
