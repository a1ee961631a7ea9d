-- ===== src/Redirect/Setup.antt =====
-- What `interrupt_redirect_init` enters in the list of mappings.
use prpl_hypervisor.Base.{
  ℕ, zero, suc, ◌+◌, ◌<◌, ◌^◌, ◌≡◌, ◌≢◌, refl, sym, ap, ap₂, ◌∙◌, inl, inr, List, [], ◌∷◌, ◌++◌,
  Option, none, some, All, All-append, In, arith, length, length-append, add32, set, ==-ne,
}
use prpl_hypervisor.Machine.{Hypervisor, VmConf}
use prpl_hypervisor.Scheduler.{get_vcpu_from_id}
use prpl_hypervisor.Scheduler.Select.{IsReady, ready}
use prpl_hypervisor.Scheduler.Lookup.{get_vcpu_from_id-Found}
use prpl_hypervisor.Redirect.{
  InterruptMapping, Redirection, mapping_size, redirect_vm, redirect_all, enable_irq,
  interrupt_redirect_init,
}
use prpl_hypervisor.Hypercall.{entry}
use prpl_hypervisor.Hypercall.Laws.{register_or_stop_free}
use prpl_hypervisor.Interrupts.{register_interrupt}
use prpl_hypervisor.Redirect.Inject.{IsMapped}

-- The configuration of the VM whose VCPU has the id.
abbrev pub conf_of_id : Hypervisor → ℕ → VmConf
conf_of_id h id = (h.vm (h.vcpu (get_vcpu_from_id h id)).vm).vmconf

-- The VCPUs `i + 1` to `i + left` are in the ready list, and their interrupts are counted right.
abbrev pub IsRedirectable : Hypervisor → ℕ → ℕ → Type 0
IsRedirectable h i zero = Unit
IsRedirectable h i (suc left) =
    (get_vcpu_from_id h (add32 i 1) ≢ 0)
    × ((conf_of_id h (add32 i 1)).interrupt_redirect_sz
        ≡ length (conf_of_id h (add32 i 1)).interrupt_redirect)
    × IsRedirectable h (add32 i 1) left

-- How many interrupts the VMs redirect.
abbrev pub total : Hypervisor → ℕ → ℕ → ℕ
total h i zero = 0
total h i (suc left) =
    length (conf_of_id h (add32 i 1)).interrupt_redirect + total h (add32 i 1) left

mapping_size-total :
    (h : Hypervisor) (i left : ℕ)
    → IsRedirectable h i left
    → total h i left < 2 ^ 32
    → mapping_size h i left ≡ total h i left
unfolding mapping_size
mapping_size-total h i zero r lt = refl
mapping_size-total h i (suc left) r lt =
    omega (arith, r.1, mapping_size-total h (add32 i 1) left r.2 (omega arith))

found-In :
    (h : Hypervisor) (id : ℕ)
    → IsReady h
    → get_vcpu_from_id h id ≢ 0
    → In (get_vcpu_from_id h id) (ready h)
found-In h id r n = elim (get_vcpu_from_id-Found h id r.valid) [
  | inl (z, all) ↦ absurd (n z)
  | inr (i, same) ↦ i
]

module _ (poke : (ℕ → ℕ) → ℕ → ℕ → ℕ → ℕ) (offset : ℕ) where
  length-redirect_vm :
      (p j : ℕ) (irqs : List ℕ) (d : ℕ → ℕ)
      → length (redirect_vm poke offset p j (length irqs) irqs d).0 ≡ length irqs
  unfolding redirect_vm
  length-redirect_vm p j [] d = refl
  length-redirect_vm p j (irq ∷ irqs) d =
      ap suc (length-redirect_vm p (suc j) irqs (enable_irq poke offset d irq))

  redirect_vm-IsMapped :
      (h : Hypervisor) (p j left : ℕ) (irqs : List ℕ) (d : ℕ → ℕ)
      → In p (ready h)
      → All (IsMapped h) (redirect_vm poke offset p j left irqs d).0
  unfolding redirect_vm
  redirect_vm-IsMapped h p j zero irqs d i = tt
  redirect_vm-IsMapped h p j (suc left) [] d i = tt
  redirect_vm-IsMapped h p j (suc left) (irq ∷ irqs) d i =
      (i, redirect_vm-IsMapped h p (suc j) left irqs (enable_irq poke offset d irq) i)

  -- The mappings of one VM before those of the others.
  redirect_more :
      (h : Hypervisor) (i left : ℕ) (d : ℕ → ℕ)
      → IsReady h
      → IsRedirectable h i (suc left)
      → let conf = conf_of_id h (add32 i 1) in
        let p = get_vcpu_from_id h (add32 i 1) in
        let first =
          redirect_vm poke offset p 0 conf.interrupt_redirect_sz conf.interrupt_redirect d in
        (rest : List InterruptMapping)
        → length rest ≡ total h (add32 i 1) left
        → All (IsMapped h) rest
        → (length (first.0 ++ rest) ≡ total h i (suc left)) × All (IsMapped h) (first.0 ++ rest)
  redirect_more h i left d r w rest l a = (
    length-append first rest ∙ ap₂ ◌+◌ counted l,
    All-append (IsMapped h) first rest
        (redirect_vm-IsMapped h p 0 conf.interrupt_redirect_sz conf.interrupt_redirect d
          (found-In h (add32 i 1) r w.0))
        a,
  )
    where
      p : ℕ
      p = get_vcpu_from_id h (add32 i 1)

      conf : VmConf
      conf = conf_of_id h (add32 i 1)

      first : List InterruptMapping
      first = (redirect_vm poke offset p 0 conf.interrupt_redirect_sz conf.interrupt_redirect d).0

      counted : length first ≡ length conf.interrupt_redirect
      counted =
          ap (λ n. length (redirect_vm poke offset p 0 n conf.interrupt_redirect d).0) w.1
          ∙ length-redirect_vm p 0 conf.interrupt_redirect d

  redirect_all_lem :
      (h : Hypervisor) (i left : ℕ) (d : ℕ → ℕ)
      → IsReady h
      → IsRedirectable h i left
      → (length (redirect_all poke offset h i left d).0 ≡ total h i left)
        × All (IsMapped h) (redirect_all poke offset h i left d).0
  unfolding redirect_all
  redirect_all_lem h i zero d r w = (refl, tt)
  redirect_all_lem h i (suc left) d r w =
      let conf = conf_of_id h (add32 i 1) in
      let p = get_vcpu_from_id h (add32 i 1) in
      let first =
        redirect_vm poke offset p 0 conf.interrupt_redirect_sz conf.interrupt_redirect d in
      let (l, a) = redirect_all_lem h (add32 i 1) left first.1 r w.2 in
      redirect_more h i left d r w (redirect_all poke offset h (add32 i 1) left first.1).0 l a

module _ {ℓ κ} {I : Type ℓ} {H : Type κ} (poke : (ℕ → ℕ) → ℕ → ℕ → ℕ → ℕ) where
  set_up : ℕ → I → H → Hypervisor → List (Option I) → List (Option H) → Redirection I H
  set_up machines injection reenabling h vector table =
      let (vector', offset) = register_interrupt vector injection in
      let (mapping, device) = redirect_all poke offset h 0 machines h.cpu.device in
      record {
        interrupt_mapping_sz = mapping_size h 0 machines;
        interrupt_mapping_list = mapping;
        vector = vector';
        table = set table 13 (some reenabling);
        device = device;
      }

  init-set_up :
      (machines mapping_at : ℕ) (injection : I) (reenabling : H) (h : Hypervisor)
      (vector : List (Option I)) (table : List (Option H))
      → mapping_size h 0 machines ≢ 0
      → entry table 13 ≡ none
      → mapping_at ≢ 0
      → interrupt_redirect_init poke machines injection reenabling mapping_at h vector table
        ≡ some (set_up machines injection reenabling h vector table)
  unfolding interrupt_redirect_init set_up
  init-set_up machines mapping_at injection reenabling h vector table n free at =
      rw (==-ne (mapping_size h 0 machines) 0 n) (
        register_or_stop_free table reenabling 13 _ _ (omega arith) free
        ∙ rw (==-ne mapping_at 0 at) refl)

  -- In a well-formed state with the VCPUs 1 to `machines` in the ready list, whose redirected interrupts
  -- are counted right, at least one of them and fewer than 2^32, with a free place for the hypercall and
  -- memory for the mappings, the driver's initialisation returns; its list has exactly as many mappings
  -- as were allocated, each to a VCPU of the ready list.
  pub interrupt_redirect_init_lem :
      (machines mapping_at : ℕ) (injection : I) (reenabling : H) (h : Hypervisor)
      (vector : List (Option I)) (table : List (Option H))
      → IsReady h
      → IsRedirectable h 0 machines
      → 0 < total h 0 machines
      → total h 0 machines < 2 ^ 32
      → entry table 13 ≡ none
      → mapping_at ≢ 0
      → (r : Redirection I H) × (interrupt_redirect_init poke machines injection reenabling
            mapping_at h vector table
          ≡ some r)
        × (r.interrupt_mapping_sz ≡ total h 0 machines)
        × (length r.interrupt_mapping_list ≡ r.interrupt_mapping_sz)
        × All (IsMapped h) r.interrupt_mapping_list
  unfolding set_up
  interrupt_redirect_init_lem machines mapping_at injection reenabling h vector table r w pos lt
        free at =
      (
        set_up machines injection reenabling h vector table,
        init-set_up machines mapping_at injection reenabling h vector table
            (λ z. omega (arith, size)) free at,
        size,
        (mappings.0 ∙ sym size),
        mappings.1,
      )
    where
      size : mapping_size h 0 machines ≡ total h 0 machines
      size = mapping_size-total h 0 machines w lt

      mappings :
          (length
              (redirect_all poke
                (register_interrupt vector injection).1
                h
                0
                machines
                h.cpu.device).0
            ≡ total h 0 machines)
          × All
              (IsMapped h)
              (redirect_all poke
                (register_interrupt vector injection).1
                h
                0
                machines
                h.cpu.device).0
      mappings =
          redirect_all_lem poke (register_interrupt vector injection).1 h 0 machines h.cpu.device r
            w
