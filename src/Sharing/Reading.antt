-- ===== src/Sharing/Reading.antt =====
-- A frame that is read, and the loop of `receive_frame`, on rings with room.
use prpl_hypervisor.Base.{
  ◌∷◌, [], ◌++◌, ◌≢◌, ap, lt→ltb, ==-refl, ℕ, zero, suc, ◌<◌, ◌≡◌, refl, ◌∙◌, subst, arith, Option,
  some, none, ◌==◌, if◌then◌else◌, Bool, true, false, ltb, ltb→lt, ◌&&◌,
}
use prpl_hypervisor.Machine.{Cpu, reg_v0}
use prpl_hypervisor.InterVm.{reply}
use prpl_hypervisor.Ethernet.{Port, en_ll_input}
use prpl_hypervisor.Sharing.{
  Net, get_free_buffer, get_vm_destination, hand_over, octets, maccmp, to_one, to_all, is_broadcast,
  sort_frame, sort_input, read_frame, go_on, read_frames, frame_at,
}
use prpl_hypervisor.Sharing.Kept.{IsShared, HasRoom}
use prpl_hypervisor.Sharing.Rings.{pending, pushed, pending-pushed}
use prpl_hypervisor.Sharing.Kept.{store_at, store_off}
use prpl_hypervisor.Sharing.{push}
use prpl_hypervisor.Sharing.Rounds.{
  Keeps, Steps, Keeps-agree, if_either, destination_lem, to_one-Keeps, to_all-Keeps, less_room,
}

some-eq {ℓ} : {A : Type ℓ} (a b : A) → some a ≡ some b → a ≡ b
some-eq a b e = cc

none-ne {ℓ} : {A : Type ℓ} (a : A) → ¬ (none ≡ some a)
none-ne a e = cc

module _ (mmu : Cpu → ℕ → ℕ) (b_buf : ℕ) where
  hand_over-Keeps :
      (n : Net) (mapped k size c r : ℕ)
      → Keeps c r n
      → Keeps c r (hand_over mmu b_buf n mapped k size)
  unfolding hand_over
  hand_over-Keeps n mapped k size c r h =
      Keeps-agree c r n (hand_over mmu b_buf n mapped k size) h refl (λ a. refl) refl

  sort_frame-Keeps :
      (n : Net) (j mapped k size r : ℕ)
      → IsShared n
      → HasRoom n (suc r)
      → k < 10
      → Steps n.vm_counter r (sort_frame mmu b_buf n j mapped k size)
  unfolding sort_frame
  sort_frame-Keeps n j mapped k size r h room b =
      let f : ℕ → ℕ = octets mmu b_buf n k in
      let i : ℕ = get_vm_destination n f in
      let shown : Net = hand_over mmu b_buf n mapped k size in
      let seen : Keeps n.vm_counter (suc r) shown =
        hand_over-Keeps n mapped k size n.vm_counter (suc r) (h, room, refl) in
      let plain : Keeps n.vm_counter r shown =
        (seen.0, (λ a l. let w = seen.1 a l in omega arith), seen.2) in
      if_either (Steps n.vm_counter r) (maccmp f (n.vms j).mac == 0 && is_broadcast f == 0)
        (if ltb i 2 then some (to_one n i k size, false) else none)
        (if is_broadcast f == 0 then some (shown, true) else some (to_all shown j k size, true))
        (λ t.
          if_either (Steps n.vm_counter r) (ltb i 2) (some (to_one n i k size, false)) none
            (λ u. to_one-Keeps n i k size r h room (destination_lem n f h.few (ltb→lt i 2 u)) b) tt)
        (if_either (Steps n.vm_counter r) (is_broadcast f == 0) (some (shown, true))
          (some (to_all shown j k size, true)) (λ t. plain)
          (subst (λ c. Keeps c r (to_all shown j k size)) seen.2
            (to_all-Keeps shown j k size r seen.0 seen.1 b)))

  sort_input-Keeps :
      (input : Option (Port × ℕ)) (n : Net) (j mapped k r : ℕ)
      → IsShared n
      → HasRoom n (suc r)
      → k < 10
      → Steps n.vm_counter r (sort_input mmu b_buf input n j mapped k)
  unfolding sort_input
  sort_input-Keeps none n j mapped k r h room b = tt
  sort_input-Keeps (some (p, size)) n j mapped k r h room b =
      let n' : Net = record n { port = p } in
      let here : Keeps n.vm_counter (suc r) n' =
        Keeps-agree n.vm_counter (suc r) n n' (h, room, refl) refl (λ a. refl) refl in
      let idle : Net = record n' { hv = reply n.hv reg_v0 0 } in
      if_either (Steps n.vm_counter r) (size == 0) (some (idle, true))
        (sort_frame mmu b_buf n' j mapped k size)
        (λ z. Keeps-agree n.vm_counter r n idle (less_room n r h room) refl (λ a. refl) refl)
        (sort_frame-Keeps n' j mapped k size r here.0 here.1 b)

  read_frame-Keeps :
      (fuel : ℕ) (n : Net) (j mapped r : ℕ)
      → IsShared n
      → HasRoom n (suc r)
      → Steps n.vm_counter r (read_frame mmu b_buf fuel n j mapped)
  unfolding read_frame
  read_frame-Keeps fuel n j mapped r h room =
      let k : ℕ = get_free_buffer n in
      if_either (Steps n.vm_counter r) (ltb k 10)
        (sort_input mmu b_buf (en_ll_input fuel (frame_at mmu b_buf k) n.port) n j mapped k) none
        (λ t.
          sort_input-Keeps (en_ll_input fuel (frame_at mmu b_buf k) n.port) n j mapped k r h room
            (ltb→lt k 10 t))
        tt

  go_on-Keeps :
      (c r : ℕ) (m : Net) (o : Option (Net × Bool)) (again : Net → Option Net)
      → Steps c r o
      → ((n' : Net) → Keeps c r n' → again n' ≡ some m → IsShared m × (m.vm_counter ≡ c))
      → go_on mmu b_buf o again ≡ some m
      → IsShared m × (m.vm_counter ≡ c)
  unfolding go_on
  go_on-Keeps c r m none again w f e = absurd (none-ne m e)
  go_on-Keeps c r m (some (a, true)) again w f e =
      subst (λ y. IsShared y × (y.vm_counter ≡ c)) (some-eq a m e) (w.0, w.2)
  go_on-Keeps c r m (some (a, false)) again w f e = f a w e

  -- With room for as many buffers as rounds are made, the loop keeps the buffers.
  read_frames-Keeps :
      (rounds fuel : ℕ) (n : Net) (j mapped : ℕ)
      → IsShared n
      → HasRoom n rounds
      → (m : Net) → read_frames mmu b_buf rounds fuel n j mapped ≡ some m
      → IsShared m × (m.vm_counter ≡ n.vm_counter)
  unfolding read_frames
  read_frames-Keeps zero fuel n j mapped h room m e = absurd (none-ne m e)
  read_frames-Keeps (suc rounds) fuel n j mapped h room m e =
      go_on-Keeps n.vm_counter rounds m (read_frame mmu b_buf fuel n j mapped)
        (λ n'. read_frames mmu b_buf rounds fuel n' j mapped)
        (read_frame-Keeps fuel n j mapped rounds h room)
        (λ n' k d.
          let (shared, same) = read_frames-Keeps rounds fuel n' j mapped k.0 (λ a l. k.1 a l) m d in
          (shared, same ∙ k.2))
        e

  -- A frame of `size` bytes in buffer `k` that is neither for all nor for the VM that reads, but for another VM
  -- that the driver knows, is taken up while all rings have room: the buffer gets the size and the last
  -- place in the ring of that VM, no other ring changes, the buffers stay counted, and the loop goes on.
  pub sort_frame_lem :
      (n : Net) (j mapped k size : ℕ)
      → IsShared n
      → HasRoom n 1
      → k < 10
      → maccmp (octets mmu b_buf n k) (n.vms j).mac ≡ 0
      → is_broadcast (octets mmu b_buf n k) ≡ 0
      → get_vm_destination n (octets mmu b_buf n k) < 2
      → let i = get_vm_destination n (octets mmu b_buf n k) in
        (m : Net) × (sort_frame mmu b_buf n j mapped k size ≡ some (m, false))
        × (pending (m.vms i) ≡ pending (n.vms i) ++ k ∷ [])
        × ((a : ℕ) → a ≢ i → m.vms a ≡ n.vms a)
        × ((m.buf k).frame_size ≡ size)
        × IsShared m
  unfolding sort_frame to_one push
  sort_frame_lem n j mapped k size h room b other one known =
      let i : ℕ = get_vm_destination n (octets mmu b_buf n k) in
      let inside : i < n.vm_counter = destination_lem n (octets mmu b_buf n k) h.few known in
      (
        to_one n i k size,
        rw (other, one, lt→ltb i 2 known) refl,
        ap pending (store_at n.vms i (pushed (n.vms i) k))
            ∙ pending-pushed (n.vms i) (h.rings i inside) k (omega (arith, room i inside)),
        (λ a d. store_off n.vms i a (pushed (n.vms i) k) d),
        rw (==-refl k) refl,
        (to_one-Keeps n i k size 0 h room inside b).0,
      )
