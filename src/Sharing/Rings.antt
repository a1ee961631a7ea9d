-- ===== src/Sharing/Rings.antt =====
-- The ring of a VM as the sequence of the buffers that wait for it.
use prpl_hypervisor.Base.{
  ℕ, suc, ◌+◌, ◌-◌, ◌%◌, ◌<◌, ◌≡◌, ◌≢◌, sym, ap, ◌∙◌, subst, arith, List, [], ◌∷◌, ◌++◌, length,
  length-set, All, All-append, get_or, set, add32,
}
use prpl_hypervisor.Queue.Window.{window, window_of_pos, window-set_end}
use prpl_hypervisor.Sharing.{VmCtrl, no_buffer}

-- How many buffers wait, as the indices show.
abbrev pub waiting : VmCtrl → ℕ
waiting v = (v.input + 10 - v.output) % 10

-- The buffers that wait, oldest first.
abbrev pub pending : VmCtrl → List ℕ
pending v = window no_buffer v.frame_list 10 v.output (waiting v)

pub record IsRing (v : VmCtrl) : Type 0 where
  pub places : length v.frame_list ≡ 10
  pub input_in : v.input < 10
  pub output_in : v.output < 10
  pub buffers : All (λ k. k < 10) (pending v)

-- What push and pop make of a ring.
abbrev pub pushed : VmCtrl → ℕ → VmCtrl
pushed v k = record v { frame_list = set v.frame_list v.input k; input = add32 v.input 1 % 10 }

abbrev pub popped : VmCtrl → VmCtrl
popped v = record v { output = add32 v.output 1 % 10 }

module _ (v : VmCtrl) (r : IsRing v) where
  -- With fewer than nine buffers waiting, one more is behind them.
  pub pending-pushed : (k : ℕ) → waiting v < 9 → pending (pushed v k) ≡ pending v ++ k ∷ []
  pending-pushed k room =
      let at = r.input_in in
      let from = r.output_in in
      let one : waiting (pushed v k) ≡ suc (waiting v) = omega arith in
      ap (window no_buffer (set v.frame_list v.input k) 10 v.output) one
      ∙ window-set_end no_buffer v.frame_list 10 k (waiting v) v.output v.input
          (omega (arith, r.places)) from (omega arith) (omega arith)

  pub waiting-pushed : (k : ℕ) → waiting v < 9 → waiting (pushed v k) ≡ waiting v + 1
  waiting-pushed k room = let at = r.input_in in let from = r.output_in in omega arith

  pub pushed-IsRing : (k : ℕ) → waiting v < 9 → k < 10 → IsRing (pushed v k)
  pushed-IsRing k room l = record {
    places = length-set v.frame_list v.input k ∙ r.places;
    input_in = omega arith;
    output_in = r.output_in;
    buffers =
        subst (All (λ i. i < 10)) (sym (pending-pushed k room))
          (All-append (λ i. i < 10) (pending v) (k ∷ []) r.buffers (l, tt));
  }

  abbrev pub oldest : ℕ
  oldest = get_or v.frame_list v.output no_buffer

  pub pending-popped : waiting v ≢ 0 → pending v ≡ oldest ∷ pending (popped v)
  pending-popped some_wait =
      let at = r.input_in in
      let from = r.output_in in
      let next : (v.output + 1) % 10 ≡ add32 v.output 1 % 10 = omega arith in
      let less : waiting v - 1 ≡ waiting (popped v) = omega arith in
      window_of_pos no_buffer v.frame_list 10 v.output (waiting v) some_wait
      ∙ ap (λ h. oldest ∷ window no_buffer v.frame_list 10 h (waiting v - 1)) next
      ∙ ap (λ n. oldest ∷ window no_buffer v.frame_list 10 (add32 v.output 1 % 10) n) less

  pub popped-IsRing : waiting v ≢ 0 → IsRing (popped v) × (oldest < 10)
  popped-IsRing some_wait =
      let all : All (λ i. i < 10) (oldest ∷ pending (popped v)) =
        subst (All (λ i. i < 10)) (pending-popped some_wait) r.buffers in
      (
        record {
          places = r.places;
          input_in = r.input_in;
          output_in = omega arith;
          buffers = all.1;
        },
        all.0,
      )
