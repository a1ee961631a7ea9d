-- ===== src/Malloc/Gap.antt =====
-- The distance from one address up to another, around the end of the 32-bit addresses.
use prpl_hypervisor.Base.{
  ℕ, ◌+◌, ◌-◌, ◌^◌, ◌≤◌, ◌<◌, ◌≡◌, ◌≢◌, arith, ltb, if◌then◌else◌, true, false, ◌⊎◌,
}
use prpl_hypervisor.Malloc.{is_place}

-- An address is at the distance 2 ^ 32 of itself.
unfoldable pub gap : ℕ → ℕ → ℕ
gap a x = if ltb a x then x - a else x + 2 ^ 32 - a

module _ (p bp : ℕ) (hp : p < 2 ^ 32) (hb : bp < 2 ^ 32) (n : p ≢ bp) (next : ℕ → ℕ) where
  pub is_place-true : is_place next bp p ≡ true → gap p bp < gap p (next p)
  unfolding is_place gap
  is_place-true h = ground arith

  pub is_place-false : is_place next bp p ≡ false → next p < 2 ^ 32 → gap p (next p) ≤ gap p bp
  unfolding is_place gap
  is_place-false h w = ground arith

-- Behind the successor the rest is nearer.
pub gap-next :
    (p n x : ℕ)
    → p < 2 ^ 32
    → n < 2 ^ 32
    → x < 2 ^ 32
    → n ≢ x
    → gap p n ≤ gap p x
    → gap n x < gap p x
unfolding gap
gap-next p n x hp hn hx d h = ground arith

-- Without `p` its predecessor's successor is the next.
pub gap-skip :
    (a p n x : ℕ)
    → a < 2 ^ 32
    → p < 2 ^ 32
    → n < 2 ^ 32
    → x < 2 ^ 32
    → x ≢ p
    → gap a p ≤ gap a x
    → gap p n ≤ gap p x
    → gap p n ≤ gap p a
    → gap a n ≤ gap a x
unfolding gap
gap-skip a p n x ha hp hn hx d h k l = ground arith

-- A new address behind `p` is in no other gap,
pub gap-between :
    (a na p n b : ℕ)
    → a < 2 ^ 32
    → na < 2 ^ 32
    → p < 2 ^ 32
    → n < 2 ^ 32
    → b < 2 ^ 32
    → a ≢ p
    → a ≢ b
    → gap p b < gap p n
    → gap p n ≤ gap p a
    → gap a na ≤ gap a p
    → gap a na ≤ gap a b
unfolding gap
gap-between a na p n b ha hna hp hn hb d d' h k l = ground arith

-- and the old successor is its own.
pub gap-after :
    (p n b x : ℕ)
    → p < 2 ^ 32
    → n < 2 ^ 32
    → b < 2 ^ 32
    → x < 2 ^ 32
    → gap p b < gap p n
    → (x ≡ b) ⊎ (gap p n ≤ gap p x)
    → gap b n ≤ gap b x
unfolding gap
gap-after p n b x hp hn hb hx h k = ground arith

-- Of the blocks above an address in the gap of `q` the next one is the lowest,
pub gap-above :
    (q n b a : ℕ)
    → q < 2 ^ 32
    → n < 2 ^ 32
    → b < 2 ^ 32
    → a < 2 ^ 32
    → q ≢ b
    → gap q b < gap q n
    → gap q n ≤ gap q a
    → b < a
    → (b < n) × (n ≤ a)
unfolding gap
gap-above q n b a hq hn hb ha d h k l = ground arith

-- and of those below it `q` is the highest.
pub gap-below :
    (q n b a : ℕ)
    → q < 2 ^ 32
    → n < 2 ^ 32
    → b < 2 ^ 32
    → a < 2 ^ 32
    → q ≢ b
    → gap q b < gap q n
    → gap q n ≤ gap q a
    → a < b
    → (q < b) × (a ≤ q)
unfolding gap
gap-below q n b a hq hn hb ha d h k l = ground arith
