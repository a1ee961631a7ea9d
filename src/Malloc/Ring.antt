-- ===== src/Malloc/Ring.antt =====
-- The ring of the free blocks, as the list of their addresses from freep on.
use prpl_hypervisor.Base.{ℕ, ◌≡◌, refl, ap, ◌∙◌, ◌⊎◌, inl, inr, List, [], ◌∷◌, ◌++◌, In}

-- The blocks from `p` on are the listed ones, and then comes `e`.
abbrev pub Link : (ℕ → ℕ) → ℕ → List ℕ → ℕ → Type 0
Link next p [] e = next p ≡ e
Link next p (t ∷ ts) e = (next p ≡ t) × Link next t ts e

abbrev pub Ring : (ℕ → ℕ) → List ℕ → Type 0
Ring next [] = ⊥
Ring next (p ∷ ts) = Link next p ts p

Link-append :
    (ts : List ℕ) (next : ℕ → ℕ) (p b e : ℕ)
    → Link next p ts b
    → next b ≡ e
    → Link next p (ts ++ b ∷ []) e
Link-append [] next p b e l h = (l, h)
Link-append (t ∷ ts) next p b e l h = (l.0, Link-append ts next t b e l.1 h)

-- The ring from the next block on.
pub Ring-rotate :
    (next : ℕ → ℕ) (p t : ℕ) (ts : List ℕ) → Ring next (p ∷ t ∷ ts) → Ring next (t ∷ ts ++ p ∷ [])
Ring-rotate next p t ts l = Link-append ts next t p t l.1 l.0

-- Only the words of the blocks before `e` are read.
pub Link-agree :
    (ts : List ℕ) (next next' : ℕ → ℕ) (p e : ℕ)
    → ((a : ℕ) → In a (p ∷ ts) → next' a ≡ next a)
    → Link next p ts e
    → Link next' p ts e
Link-agree [] next next' p e h l = h p (inl refl) ∙ l
Link-agree (t ∷ ts) next next' p e h l =
    (h p (inl refl) ∙ l.0, Link-agree ts next next' t e (λ a i. h a (inr i)) l.1)

-- The next block of each is in the ring.
Link-In :
    (ts : List ℕ) (next : ℕ → ℕ) (p e a : ℕ)
    → Link next p ts e
    → In a (p ∷ ts)
    → In (next a) ts ⊎ (next a ≡ e)
Link-In [] next p e a l (inl k) = inr (ap next k ∙ l)
Link-In [] next p e a l (inr i) = absurd i
Link-In (t ∷ ts) next p e a l (inl k) = inl (inl (ap next k ∙ l.0))
Link-In (t ∷ ts) next p e a l (inr i) = elim (Link-In ts next t e a l.1 i) [
  | inl j ↦ inl (inr j)
  | inr j ↦ inr j
]

pub Ring-In : (rs : List ℕ) (next : ℕ → ℕ) (a : ℕ) → Ring next rs → In a rs → In (next a) rs
Ring-In [] next a r i = absurd i
Ring-In (p ∷ ts) next a r i = elim (Link-In ts next p p a r i) [ inl j ↦ inr j | inr e ↦ inl e ]
