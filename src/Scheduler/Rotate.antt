-- ===== src/Scheduler/Rotate.antt =====
-- Sending the head of a queue to its tail.
use prpl_hypervisor.Base.{
  ℕ, zero, suc, ◌+◌, ◌<◌, ◌≡◌, sym, ap, ◌∙◌, ◌≢◌, List, [], ◌∷◌, ◌++◌, arith, length, append-nil,
  append_assoc,
}
use prpl_hypervisor.Queue.{Queue, addtail, remhead}
use prpl_hypervisor.Queue.Valid.{
  IsValid, contents, length-contents, addtail-IsValid, remhead-IsValid, addtail_room, remhead_some,
}
use prpl_hypervisor.Queue.Refine.{remhead_refines, contents-addtail}
use prpl_hypervisor.Queue.Fifo.{pop}

unfoldable pub turn : Queue → Queue
turn q = let (q', v) = remhead q in (addtail q' v).0

unfoldable pub turns : ℕ → Queue → Queue
unfolding turn
turns zero q = q
turns (suc n) q = turns n (turn q)

pub turn-IsValid : {q : Queue} → IsValid q → IsValid (turn q)
unfolding turn
turn-IsValid {q} v = addtail-IsValid (remhead q).1 (remhead-IsValid v)

pub turns-IsValid : (n : ℕ) {q : Queue} → IsValid q → IsValid (turns n q)
unfolding turns
turns-IsValid zero v = v
turns-IsValid (suc n) v = turns-IsValid n (turn-IsValid v)

module _ {q : Queue} (x : ℕ) (xs : List ℕ) (v : IsValid q) (e : contents q ≡ x ∷ xs) where
  occupied : q.elem ≢ 0
  occupied z = omega (arith, ap length e, length-contents q)

  pub remhead-head : (remhead q).1 ≡ x
  unfolding pop
  remhead-head = ground (arith, remhead_refines v, e)

  contents-remhead : contents (remhead q).0 ≡ xs
  unfolding pop
  contents-remhead = ground (arith, remhead_refines v, e)

  room : (remhead q).0.elem + 1 < (remhead q).0.size
  room = ground (arith, remhead_some v occupied, occupied, v)

  pub addtail-remhead : (addtail (remhead q).0 x).1 ≡ 0
  addtail-remhead = ap (λ r. r.1) (addtail_room x (remhead-IsValid v) room)

  pub contents-turn : contents (turn q) ≡ xs ++ x ∷ []
  unfolding turn
  contents-turn =
      ap (λ y. contents (addtail (remhead q).0 y).0) remhead-head
      ∙ contents-addtail x (remhead-IsValid v) room
      ∙ ap (λ l. l ++ x ∷ []) contents-remhead

-- After as many turns as there are pointers before `ys`, those stand behind `ys`.
pub contents-turns :
    (xs ys : List ℕ) {q : Queue}
    → IsValid q
    → contents q ≡ xs ++ ys
    → contents (turns (length xs) q) ≡ ys ++ xs
unfolding turns
contents-turns [] ys v e = e ∙ sym (append-nil ys)
contents-turns (x ∷ xs) ys {q} v e =
    contents-turns xs (ys ++ x ∷ []) (turn-IsValid v)
      (contents-turn x (xs ++ ys) v e ∙ append_assoc xs ys (x ∷ []))
    ∙ append_assoc ys (x ∷ []) xs
