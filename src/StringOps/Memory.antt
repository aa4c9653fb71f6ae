-- ===== src/StringOps/Memory.antt =====
-- What `memset`, `clear` and `memcpy` leave at each address.
use os_2024_operatingsalsa.Base.{
  ℕ, zero, suc, ◌+◌, ◌-◌, ◌≡◌, Bool, ◌&&◌, if◌then◌else◌, ltb, leb, u8, Bytes, store, arith,
}
use os_2024_operatingsalsa.StringOps.{memset_loop, memset, clear_loop, clear, memcpy_loop, memcpy}

-- `x` lies in the `n` bytes from `s` on.
abbrev pub in_range : ℕ → ℕ → ℕ → Bool
in_range s n x = leb s x && ltb x (s + n)

memset_loop_lem :
    (left i : ℕ) (m : Bytes) (s c x : ℕ)
    → memset_loop left i m s c x ≡ (if in_range (s + i) left x then u8 c else m x)
unfolding memset_loop
memset_loop_lem zero i m s c x = ground arith
memset_loop_lem (suc left) i m s c x =
    ground (arith, memset_loop_lem left (i + 1) (store m (s + i) (u8 c)) s c x)

pub memset_lem :
    (m : Bytes) (s c n x : ℕ) → memset m s c n x ≡ (if in_range s n x then u8 c else m x)
unfolding memset
memset_lem m s c n x = ground (arith, memset_loop_lem n 0 m s c x)

clear_loop_lem :
    (left i : ℕ) (m : Bytes) (p x : ℕ)
    → clear_loop left i m p x ≡ (if in_range (p + i) left x then 0 else m x)
unfolding clear_loop
clear_loop_lem zero i m p x = ground arith
clear_loop_lem (suc left) i m p x =
    ground (arith, clear_loop_lem left (i + 1) (store m (p + i) 0) p x)

pub clear_lem : (m : Bytes) (p n x : ℕ) → clear m p n x ≡ (if in_range p n x then 0 else m x)
unfolding clear
clear_lem m p n x = ground (arith, clear_loop_lem n 0 m p x)

memcpy_loop_lem :
    (left i : ℕ) (dst : Bytes) (d : ℕ) (src : Bytes) (s x : ℕ)
    → memcpy_loop left i dst d src s x
      ≡ (if in_range (d + i) left x then src (s + (x - d)) else dst x)
unfolding memcpy_loop
memcpy_loop_lem zero i dst d src s x = ground arith
memcpy_loop_lem (suc left) i dst d src s x =
    ground (arith, memcpy_loop_lem left (i + 1) (store dst (d + i) (src (s + i))) d src s x)

-- `memcpy` makes the `n` bytes from `d` on equal to the source's, and changes no other byte.
pub memcpy_lem :
    (dst : Bytes) (d : ℕ) (src : Bytes) (s n x : ℕ)
    → memcpy dst d src s n x ≡ (if in_range d n x then src (s + (x - d)) else dst x)
unfolding memcpy
memcpy_lem dst d src s n x = ground (arith, memcpy_loop_lem n 0 dst d src s x)
