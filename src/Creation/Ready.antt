-- ===== src/Creation/Ready.antt =====
-- The ready list and the VCPUs that the start-up leaves.
use prpl_hypervisor.Base.{
  ℕ, suc, ◌+◌, ◌<◌, ◌^◌, ◌≡◌, ◌≢◌, refl, sym, ap, ◌∙◌, subst, List, [], ◌∷◌, ◌++◌, append-nil, some,
  arith, length, All, All-append, append_assoc, ==-refl, Distinct, add32,
}
use prpl_hypervisor.Queue.{Queue, create}
use prpl_hypervisor.Queue.Valid.{IsValid, create-IsValid, addtail-IsValid, addtail_room}
use prpl_hypervisor.Queue.Refine.{contents-addtail}
use prpl_hypervisor.Machine.{Hypervisor, Vcpu, VmConf, store}
use prpl_hypervisor.Scheduler.Pending.{critical_count}
use prpl_hypervisor.Scheduler.Loops.{NonNull}
use prpl_hypervisor.Scheduler.Select.{IsReady, IsWord, ready}
use prpl_hypervisor.Creation.{
  Boot, Blocks, create_vm, create_vcpu, create_vms, initialize_machines, new_vcpu, num_shadow_gprs,
  fill_tlb, entry_point_of,
}

-- A VCPU as it is created: without a critical event, and with the priorities of a word.
abbrev pub IsNew : Vcpu → Type 0
IsNew v = (v.critical ≡ 0) × IsWord v

-- The priority is a word, and the VCPU is allocated.
abbrev pub IsAllocated : VmConf × Blocks → Type 0
IsAllocated m = (m.0.priority < 2 ^ 32) × NonNull m.1.vcpu_at

-- The state while VMs are created, whose VCPUs are at `xs`, with room for `n` more.
record Creating (b : Boot) (xs : List ℕ) (n : ℕ) : Type 0 where
  valid : IsValid b.hypervisor.vcpu_ready_list
  holds : ready b.hypervisor ≡ xs
  room : b.hypervisor.vcpu_ready_list.elem + n < b.hypervisor.vcpu_ready_list.size
  non_null : All NonNull xs
  fresh : All (λ p. IsNew (b.hypervisor.vcpu p)) xs
  quiet : b.hypervisor.pending ≡ 0

All-store :
    (f : ℕ → Vcpu) (p : ℕ) (v : Vcpu) (xs : List ℕ)
    → IsNew v
    → All (λ q. IsNew (f q)) xs
    → All (λ q. IsNew (store f p v q)) xs
All-store f p v [] i a = tt
All-store f p v (x ∷ xs) i a = (here, All-store f p v xs i a.1)
  where
    here : IsNew (store f p v x)
    here = ground (arith, i, a.0)

create_vm-Creating :
    (b : Boot) (conf : VmConf) (blocks : Blocks) (xs : List ℕ) (n : ℕ)
    → IsAllocated (conf, blocks)
    → Creating b xs (suc n)
    → Creating (create_vm b conf blocks) (xs ++ blocks.vcpu_at ∷ []) n
unfolding create_vm create_vcpu new_vcpu
create_vm-Creating b conf blocks xs n a c = record {
  valid = addtail-IsValid blocks.vcpu_at c.valid;
  holds =
      contents-addtail blocks.vcpu_at c.valid space ∙ ap (λ l. l ++ blocks.vcpu_at ∷ []) c.holds;
  room = rw (addtail_room blocks.vcpu_at c.valid space) (omega (arith, c));
  non_null = All-append NonNull xs (blocks.vcpu_at ∷ []) c.non_null (a.1, tt);
  fresh =
      All-append (λ p. IsNew ((create_vm b conf blocks).hypervisor.vcpu p)) xs (blocks.vcpu_at ∷ [])
        (All-store b.hypervisor.vcpu blocks.vcpu_at made xs made-IsNew c.fresh) (last, tt);
  quiet = c.quiet;
}
  where
    space : b.hypervisor.vcpu_ready_list.elem + 1 < b.hypervisor.vcpu_ready_list.size
    space = omega (arith, c)

    made : Vcpu
    made =
        new_vcpu blocks b.vcpu_id
          (num_shadow_gprs
            (fill_tlb b.vm_id b.hypervisor.cpu b.tlbindex conf.num_tlb_entries conf.tlb).0)
          (entry_point_of conf.os_type) conf.priority

    last : IsNew ((create_vm b conf blocks).hypervisor.vcpu blocks.vcpu_at)
    last = rw (==-refl blocks.vcpu_at) (refl, (a.0, a.0))

    made-IsNew : IsNew made
    made-IsNew = (refl, (a.0, a.0))

-- The addresses of the VCPUs.
abbrev pub vcpus_of : List (VmConf × Blocks) → List ℕ
vcpus_of [] = []
vcpus_of (m ∷ ms) = m.1.vcpu_at ∷ vcpus_of ms

create_vms-Creating :
    (ms : List (VmConf × Blocks)) (b : Boot) (xs : List ℕ)
    → All IsAllocated ms
    → Creating b xs (length ms)
    → Creating (create_vms b ms) (xs ++ vcpus_of ms) 0
unfolding create_vms
create_vms-Creating [] b xs a c = subst (λ l. Creating b l 0) (sym (append-nil xs)) c
create_vms-Creating (m ∷ ms) b xs a c =
    subst (λ l. Creating (create_vms (create_vm b m.0 m.1) ms) l 0)
      (append_assoc xs (m.1.vcpu_at ∷ []) (vcpus_of ms))
      (create_vms-Creating ms (create_vm b m.0 m.1) (xs ++ m.1.vcpu_at ∷ []) a.1
        (create_vm-Creating b m.0 m.1 xs (length ms) a.0 c))

critical_count-new :
    (f : ℕ → Vcpu) (xs : List ℕ) → All (λ p. IsNew (f p)) xs → critical_count f xs ≡ 0
critical_count-new f [] a = refl
critical_count-new f (x ∷ xs) a = ground (arith, a.0, critical_count-new f xs a.1)

words_of : (f : ℕ → Vcpu) (xs : List ℕ) → All (λ p. IsNew (f p)) xs → All (λ p. IsWord (f p)) xs
words_of f [] a = tt
words_of f (x ∷ xs) a = (a.0.1, words_of f xs a.1)

Creating-IsReady : (b : Boot) (xs : List ℕ) → Distinct xs → Creating b xs 0 → IsReady b.hypervisor
Creating-IsReady b xs d c = record {
  valid = c.valid;
  non_null = subst (All NonNull) (sym c.holds) c.non_null;
  distinct = subst Distinct (sym c.holds) d;
  words =
      subst (All (λ p. IsWord (b.hypervisor.vcpu p))) (sym c.holds)
        (words_of b.hypervisor.vcpu xs c.fresh);
  counted =
      c.quiet
      ∙ sym (critical_count-new b.hypervisor.vcpu xs c.fresh)
      ∙ ap (critical_count b.hypervisor.vcpu) (sym c.holds);
}

initialize_machines-create :
    (ms : List (VmConf × Blocks)) (storage : List ℕ) (q_addr data_addr : ℕ) (h : Hypervisor)
    (q : Queue)
    → create q_addr data_addr (length ms) storage ≡ some q
    → initialize_machines (length ms) ms storage q_addr data_addr h
      ≡ some (
          create_vms
            (record {
              hypervisor = record h { vcpu_ready_list = q };
              vm_id = 1;
              tlbindex = 0;
              vcpu_id = 1;
            })
            ms)
unfolding initialize_machines
initialize_machines-create ms storage q_addr data_addr h q e = rw (e, initialize_machines) refl

-- For at most 2^30 - 1 machines, with words as priorities and their VCPUs at distinct addresses that
-- are not NULL, and a queue that is allocated, `initializeMachines` returns; the ready list then holds
-- the VCPUs in the order of the configuration, and the state is one on which the scheduler can run.
pub initialize_machines-IsReady :
    (ms : List (VmConf × Blocks)) (storage : List ℕ) (q_addr data_addr : ℕ) (h : Hypervisor)
    → length ms < 2 ^ 30
    → length storage ≡ length ms + 1
    → q_addr ≢ 0
    → data_addr ≢ 0
    → All IsAllocated ms
    → Distinct (vcpus_of ms)
    → h.pending ≡ 0
    → (b : Boot) × (initialize_machines (length ms) ms storage q_addr data_addr h ≡ some b)
      × (ready b.hypervisor ≡ vcpus_of ms)
      × IsReady b.hypervisor
unfolding create
initialize_machines-IsReady ms storage q_addr data_addr h lt l q d a ds z = (
  create_vms started ms,
  initialize_machines-create ms storage q_addr data_addr h empty made,
  c.holds,
  Creating-IsReady (create_vms started ms) (vcpus_of ms) ds c,
)
  where
    empty : Queue
    empty = record { size = add32 (length ms) 1; elem = 0; head = 0; tail = 0; slots = storage }

    made : create q_addr data_addr (length ms) storage ≡ some empty
    made = ground (arith, q, d)

    started : Boot
    started = record {
      hypervisor = record h { vcpu_ready_list = empty };
      vm_id = 1;
      tlbindex = 0;
      vcpu_id = 1;
    }

    sound : IsValid empty × (empty.elem ≡ 0) × (empty.size ≡ length ms + 1)
    sound = create-IsValid q_addr data_addr (length ms) storage lt l made

    c : Creating (create_vms started ms) (vcpus_of ms) 0
    c = create_vms-Creating ms started [] a (record {
      valid = sound.0;
      holds = refl;
      room = omega (arith, sound);
      non_null = tt;
      fresh = tt;
      quiet = z;
    })
