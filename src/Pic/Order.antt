-- ===== src/Pic/Order.antt =====
-- What src/interrupt.c sends to the interrupt controllers.
use os_2024_operatingsalsa.Base.{refl, ℕ, [], ◌≡◌, List, ◌∷◌, if◌then◌else◌, ◌==◌}
use os_2024_operatingsalsa.Pic.{pic_remap, pic1_command, Outs, pic1_data, pic2_command, pic2_data}

-- The values that went to a port, the last first.
pub sent : ℕ → Outs → List ℕ
sent port [] = []
sent port ((p, v) ∷ outs) = let rest = sent port outs in if p == port then v ∷ rest else rest

-- After `pic_remap` each controller has got, in this order, the start of its initialisation, its vector
-- offset, its place in the cascade and the mode, and then the mask that disables all interrupts:
-- the master 0x20, its slave at line 2, and the slave 0x28, its identity 2.
pub pic_remap_lem :
    (sent pic1_command (pic_remap []) ≡ 0x11 ∷ [])
    × (sent pic1_data (pic_remap []) ≡ 0xFF ∷ 0x01 ∷ 0x04 ∷ 0x20 ∷ [])
    × (sent pic2_command (pic_remap []) ≡ 0x11 ∷ [])
    × (sent pic2_data (pic_remap []) ≡ 0xFF ∷ 0x01 ∷ 0x02 ∷ 0x28 ∷ [])
unfolding sent pic_remap
pic_remap_lem = (refl, refl, refl, refl)
