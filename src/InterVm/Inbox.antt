-- ===== src/InterVm/Inbox.antt =====
-- The circular buffer of messages as a bounded sequence of what was sent.
use prpl_hypervisor.Base.{
  ap₂, length-drop, All-set, All-get_elem, ℕ, zero, suc, ◌+◌, ◌%◌, ◌≤◌, ◌<◌, ◌≡◌, ◌≢◌, refl, ap,
  ◌∙◌, List, [], ◌∷◌, ◌++◌, map, arith, length, length-set, length-append, set, get_or, take, drop,
  All, add32,
}
use prpl_hypervisor.Machine.{Message, MessageBuffer}
use prpl_hypervisor.Queue.Window.{window, length-window, window_of_pos, window-set_end}
use prpl_hypervisor.InterVm.{enqueue, dequeue, messagelist_sz, message_sz, no_message}

-- What a message says: who sent it, and its bytes.
abbrev pub said : Message → ℕ × List ℕ
said m = (m.source_id, take m.size m.message)

-- Each message fits its array of 256 bytes.
abbrev pub Fits : Message → Type 0
Fits m = (m.size ≤ message_sz) × (length m.message ≡ message_sz)

pub record IsValid (b : MessageBuffer) : Type 0 where
  pub places : length b.message_list ≡ messagelist_sz
  pub fit : All Fits b.message_list
  pub out_in : b.out_index < messagelist_sz
  pub bounded : b.num_messages ≤ messagelist_sz
  pub in_at : b.in_index ≡ (b.out_index + b.num_messages) % messagelist_sz

-- The messages that wait, oldest first.
abbrev pub held : MessageBuffer → List Message
held b = window no_message b.message_list messagelist_sz b.out_index b.num_messages

abbrev pub inbox : MessageBuffer → List (ℕ × List ℕ)
inbox b = map said (held b)

pub length-held : (b : MessageBuffer) → length (held b) ≡ b.num_messages
length-held b = length-window no_message b.message_list messagelist_sz b.out_index b.num_messages

take-append {ℓ} : {A : Type ℓ} (xs ys : List A) (n : ℕ) → length xs ≡ n → take n (xs ++ ys) ≡ xs
take-append [] ys zero e = refl
take-append [] ys (suc n) e = absurd (omega arith)
take-append (x ∷ xs) ys zero e = absurd (omega arith)
take-append (x ∷ xs) ys (suc n) e = ap (◌∷◌ x) (take-append xs ys n (omega arith))

map-append-end {ℓ κ} :
    {A : Type ℓ} {B : Type κ} (f : A → B) (xs : List A) (x : A)
    → map f (xs ++ x ∷ []) ≡ map f xs ++ f x ∷ []
map-append-end f [] x = refl
map-append-end f (y ∷ xs) x = ap (◌∷◌ (f y)) (map-append-end f xs x)

module _ {b : MessageBuffer} (v : IsValid b) where
  -- A message is added behind the others while fewer than five wait.
  pub inbox-enqueue :
      (source size : ℕ) (bytes : List ℕ)
      → b.num_messages < messagelist_sz
      → length bytes ≡ size
      → inbox (enqueue b source size bytes) ≡ inbox b ++ (source, bytes) ∷ []
  unfolding enqueue
  inbox-enqueue source size bytes room e =
      ap
        (λ n.
          map said
            (window no_message (set b.message_list b.in_index m) messagelist_sz b.out_index n))
        grown
      ∙ ap (map said) (
          window-set_end no_message b.message_list messagelist_sz m b.num_messages b.out_index
            b.in_index (omega (arith, v)) v.out_in room v.in_at)
      ∙ map-append-end said (held b) m
      ∙ ap (λ t. inbox b ++ (source, t) ∷ []) (take-append bytes (drop size old.message) size e)
    where
      grown : add32 b.num_messages 1 ≡ suc b.num_messages
      grown = omega arith

      old : Message
      old = get_or b.message_list b.in_index no_message

      m : Message
      m = record { source_id = source; size = size; message = bytes ++ drop size old.message }

  pub enqueue-IsValid :
      (source size : ℕ) (bytes : List ℕ)
      → b.num_messages < messagelist_sz
      → length bytes ≡ size
      → size ≤ message_sz
      → IsValid (enqueue b source size bytes)
  unfolding enqueue
  enqueue-IsValid source size bytes room e le = record {
    places = length-set b.message_list b.in_index m ∙ v.places;
    fit = All-set Fits b.message_list b.in_index m v.fit (
      le,
      omega (
        arith,
        length-append bytes (drop size old.message),
        length-drop size old.message,
        old_fits,
      ),
    );
    out_in = v.out_in;
    bounded = omega arith;
    in_at = omega (arith, v);
  }
    where
      old : Message
      old = get_or b.message_list b.in_index no_message

      old_fits : Fits old
      old_fits = All-get_elem Fits b.message_list b.in_index no_message v.fit (omega (arith, v))

      m : Message
      m = record { source_id = source; size = size; message = bytes ++ drop size old.message }

  -- The oldest message is taken out.
  pub inbox-dequeue :
      b.num_messages ≢ 0
      → inbox b ≡ said (get_or b.message_list b.out_index no_message) ∷ inbox (dequeue b)
  unfolding dequeue
  inbox-dequeue n =
      ap (map said)
        (window_of_pos no_message b.message_list messagelist_sz b.out_index b.num_messages n)
      ∙ ap₂
          (λ o k.
            said (get_or b.message_list b.out_index no_message)
            ∷ map said (window no_message b.message_list messagelist_sz o k))
          (omega (arith, v)) (omega (arith, v))

  pub dequeue-IsValid : b.num_messages ≢ 0 → IsValid (dequeue b)
  unfolding dequeue
  dequeue-IsValid n = record {
    places = v.places;
    fit = v.fit;
    out_in = omega arith;
    bounded = omega (arith, v);
    in_at = omega (arith, v);
  }
