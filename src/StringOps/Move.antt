-- ===== src/StringOps/Move.antt =====
-- `memmove` with areas that may overlap: copied upwards where the target lies below the source.
use os_2024_operatingsalsa.Base.{
  ℕ, zero, suc, ◌+◌, ◌-◌, ◌≤◌, ◌≡◌, ◌⊎◌, if◌then◌else◌, Bytes, store, arith,
}
use os_2024_operatingsalsa.StringOps.{move_up, move_down, memmove}
use os_2024_operatingsalsa.StringOps.Memory.{in_range}

-- Upwards no byte is overwritten before it is read.
pub move_up_lem :
    (left i : ℕ) (m : Bytes) (d s x : ℕ)
    → (d ≤ s) ⊎ (s + (i + left) ≤ d)
    → move_up left i m d s x ≡ (if in_range (d + i) left x then m (s + (x - d)) else m x)
unfolding move_up
move_up_lem zero i m d s x h = ground arith
move_up_lem (suc left) i m d s x h =
    ground (arith, move_up_lem left (i + 1) (store m (d + i) (m (s + i))) d s x (omega arith))

move_down_lem :
    (n : ℕ) (m : Bytes) (d s x : ℕ)
    → s ≤ d
    → move_down n m d s x ≡ (if in_range d n x then m (s + (x - d)) else m x)
unfolding move_down
move_down_lem zero m d s x h = ground arith
move_down_lem (suc n) m d s x h =
    ground (arith, move_down_lem n (store m (d + n) (m (s + n))) d s x h)

-- Whatever the overlap, `memmove` leaves the `n` bytes that the source had before the call in the
-- target, and changes no byte outside the target.
pub memmove_lem :
    (m : Bytes) (d s n x : ℕ)
    → memmove m d s n x ≡ (if in_range d n x then m (s + (x - d)) else m x)
unfolding memmove
memmove_lem m d s n x = ground (arith, move_up_lem n 0 m d s x, move_down_lem n m d s x)
