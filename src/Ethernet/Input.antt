-- ===== src/Ethernet/Input.antt =====
-- What `en_ll_input` does with a frame.
use prpl_hypervisor.Base.{
  ℕ, ◌+◌, ◌-◌, ◌*◌, ◌%◌, ◌<◌, ◌≡◌, ◌≢◌, refl, sym, ap, ◌∙◌, arith, some, ==-ne, false,
}
use prpl_hypervisor.Ethernet.{Port, desc_eown, desc_framesz, en_ll_input, input_frame, input_size}
use prpl_hypervisor.Ethernet.Pages.{HoldsFrame, Clear, IsCopied, copied, copy_pages_lem, same_call}
use prpl_hypervisor.Ethernet.Return.{IsReturned, give_back_lem}

-- A frame of `size` bytes waits in `k + 1` descriptors, and the buffer is apart from its bytes.
pub record IsWaiting (p : Port) (k size frame : ℕ) : Type 0 where
  pub up : p.is_up ≢ 0
  pub index : p.receive_index < 48
  pub holds : HoldsFrame p.rx_desc p.receive_index k size
  pub announced : desc_framesz (p.rx_desc p.receive_index) ≡ size
  pub clear : Clear p.rx_desc p.receive_index k size frame

-- With a frame waiting en_ll_input gets through and returns its size. Its bytes are in the buffer, but of
-- a frame whose size is a multiple of 256 only the first half; no other byte of memory changes. The
-- frame's descriptors, and no others, are the controller's again, which is told how many, and the index
-- is behind them.
pub en_ll_input_lem :
    (fuel frame k size : ℕ) (p : Port)
    → IsWaiting p k size frame
    → k < fuel
    → (p' : Port) × (m : ℕ → ℕ) × (en_ll_input fuel frame p ≡ some (p', size))
      × IsReturned (record p { memory = m }) k p'
      × IsCopied p.rx_desc p.receive_index frame p.memory m (copied size)
unfolding en_ll_input input_frame input_size
en_ll_input_lem fuel frame k size p w f =
    let h = w.holds in
    let fits = h.fits in
    let start : (p.receive_index + 0) % 48 ≡ p.receive_index = let i = w.index in omega arith in
    let own : desc_eown (p.rx_desc p.receive_index) ≡ false =
      ap (λ i. desc_eown (p.rx_desc i)) (sym start) ∙ h.owned 0 (omega arith) in
    let (m, run, c) =
      copy_pages_lem p.rx_desc p.receive_index k size frame h w.clear p.memory k 0 fuel p.memory
        (omega arith) (positive size (omega arith)) f
        ((λ t l. absurd (omega arith)), λ a l. refl) in
    let (p', back, r) =
      give_back_lem k fuel (record p { memory = m }) (h.owned, h.inner, h.ends, fits.2, w.index)
        f in
    (
      p',
      m,
      rw (==-ne p.is_up 0 w.up, own, w.announced, ==-ne size 0 (λ z. omega arith))
          (ap (λ o. input_frame fuel p o size)
              (same_call fuel p.rx_desc p.memory p.receive_index ((p.receive_index + 0) % 48) size
                  (size - 128 * 0) 0 (128 * 0) frame (frame + 128 * 0) (sym start) (omega arith)
                  (omega arith) (omega arith)
                ∙ run)
            ∙ ap (λ o. input_size o size) back),
      r,
      c,
    )
  where
    positive : (size : ℕ) → 0 < size → 128 * 0 < copied size
    positive size l = ground arith
