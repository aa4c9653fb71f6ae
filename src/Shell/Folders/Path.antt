-- ===== src/Shell/Folders/Path.antt =====
-- The path that `cd` of src/user-shell.c keeps in `cwd`.
use os_2024_operatingsalsa.Base.{
  refl, some, zero, suc, arith, Bytes, ℕ, ◌≤◌, ◌<◌, ◌+◌, ◌≢◌, store, ◌≡◌, ◌-◌, eq→==, lt→ltb,
  if◌then◌else◌, ℕ_discrete, ◌==◌, ne→==, dec_lt, ◌∙◌, le→ltb,
}
use os_2024_operatingsalsa.StringOps.{memcpy, memset}
use os_2024_operatingsalsa.StringOps.Memory.{memcpy_lem, memset_lem, in_range}
use os_2024_operatingsalsa.StringOps.Length.{IsString, strlen_lem}
use os_2024_operatingsalsa.Shell.Folders.{cwd_up, cwd_down, slash_loop}

-- A path of `n` bytes that ends in a slash, with zeros up to the end of the array.
pub record IsPath (cwd : Bytes) (n : ℕ) : Type 0 where
  pub string : IsString cwd 0 n
  pub not_empty : 0 < n
  pub short : n < 80
  pub slash : cwd (n - 1) ≡ b'/'
  pub zeros : (x : ℕ) → n ≤ x → x < 80 → cwd x ≡ 0

-- The name of a folder, of `m` bytes.
pub record IsFolderName (args : Bytes) (arg2 m : ℕ) : Type 0 where
  pub string : IsString args arg2 m
  pub not_empty : 0 < m
  pub no_slash : (j : ℕ) → j < m → args (arg2 + j) ≢ b'/'

slash_loop-found :
    (cwd : Bytes) (i k : ℕ)
    → i ≤ k
    → cwd i ≡ b'/'
    → ((x : ℕ) → i < x → x ≤ k → cwd x ≢ b'/')
    → slash_loop k cwd ≡ some i
unfolding slash_loop
slash_loop-found cwd i zero h e v =
    let z : i ≡ 0 = omega arith in rw (eq→== (cwd 0) b'/' (rw z at e), z) refl
slash_loop-found cwd i (suc k) h e v = elim (ℕ_discrete i (suc k)) [
  | yes z ↦ rw (eq→== (cwd (suc k)) b'/' (rw z at e), z) refl
  | no n ↦
      rw (ne→== (cwd (suc k)) b'/' (v (suc k) (omega arith) (omega arith)))
        (slash_loop-found cwd i k (omega arith) e (λ x p q. v x p (omega arith)))
]

module _ (cwd : Bytes) (n : ℕ) (path : IsPath cwd n) (args : Bytes) (arg2 m : ℕ)
    (name : IsFolderName args arg2 m) (fits : n + m + 1 < 80) where
  down : Bytes
  down = store (memcpy cwd n args arg2 m) (n + m) b'/'

  down_lem :
      (x : ℕ)
      → down x
        ≡ (if x == n + m then b'/' else if in_range n m x then args (arg2 + (x - n)) else cwd x)
  unfolding down
  down_lem x = ground (arith, memcpy_lem cwd n args arg2 m x)

  cwd_down-returns : cwd_down cwd args arg2 ≡ some down
  unfolding cwd_down down
  cwd_down-returns =
      rw
        (
          strlen_lem cwd 0 n path.string (omega (arith, path.short)),
          strlen_lem args arg2 m name.string (omega arith),
          lt→ltb (n + m) 80 (omega arith),
        )
        refl

  down_before : (x : ℕ) → x < n → down x ≡ cwd x
  down_before x h = ground (arith, down_lem x)

  down_name : (x : ℕ) → n ≤ x → x < n + m → down x ≡ args (arg2 + (x - n))
  down_name x h q = ground (arith, down_lem x)

  down_slash : down (n + m) ≡ b'/'
  down_slash = ground (arith, down_lem (n + m))

  down_after : (x : ℕ) → n + m < x → down x ≡ cwd x
  down_after x h = ground (arith, down_lem x)

  down_inside : (x : ℕ) → x < n + m + 1 → down x ≢ 0
  down_inside x h = elim (dec_lt x n) [
    | yes l ↦
        rw (down_before x l) (let z : 0 + x ≡ x = omega arith in rw z at (path.string.inside x l))
    | no g ↦ elim (ℕ_discrete x (n + m)) [
      | yes e ↦ rw (e, down_slash) (λ z. omega (arith, z))
      | no ne ↦
          rw (down_name x (omega arith) (omega arith)) (name.string.inside (x - n) (omega arith))
    ]
  ]

  down-IsPath : IsPath down (n + m + 1)
  down-IsPath = record {
    string = record {
      inside = λ j h. down_inside (0 + j) (omega arith);
      terminator =
          down_after (0 + (n + m + 1)) (omega arith) ∙ path.zeros _ (omega arith) (omega arith);
    };
    not_empty = omega arith;
    short = fits;
    slash = let z : n + m + 1 - 1 ≡ n + m = omega arith in rw (z) down_slash;
    zeros = λ x h q. down_after x (omega arith) ∙ path.zeros x (omega arith) q;
  }

  no_slash_behind : (x : ℕ) → n - 1 < x → x ≤ n + m + 1 - 2 → down x ≢ b'/'
  no_slash_behind x h q =
      rw
        (down_name x (omega (arith, path.not_empty))
          (omega (arith, name.not_empty, path.not_empty)))
        (name.no_slash (x - n) (omega (arith, name.not_empty, path.not_empty)))

  up : Bytes
  up = memset down n 0 (80 - n)

  cwd_up-returns : cwd_up down ≡ some up
  unfolding cwd_up up
  cwd_up-returns =
      let found : slash_loop (n + m + 1 - 2) down ≡ some (n - 1) =
        slash_loop-found down (n - 1) (n + m + 1 - 2)
          (omega (arith, path.not_empty, name.not_empty))
          (down_before (n - 1) (omega (arith, path.not_empty)) ∙ path.slash) no_slash_behind in
      let z : n - 1 + 1 ≡ n = omega (arith, path.not_empty) in
      rw
        (
          strlen_lem down 0 (n + m + 1) down-IsPath.string (omega arith),
          le→ltb (n + m + 1) 2 (omega (arith, path.not_empty, name.not_empty)),
          found,
          z,
        )
        refl

  up_same : (x : ℕ) → x < 80 → up x ≡ cwd x
  unfolding up
  up_same x h = elim (dec_lt x n) [
    | yes l ↦ ground (arith, memset_lem down n 0 (80 - n) x, down_before x l)
    | no g ↦ ground (arith, memset_lem down n 0 (80 - n) x, path.zeros x)
  ]

  -- A name without a slash that still fits is appended to the path, with a slash, and the result is a path
  -- again; going up from it gives back the path of before, in all 80 bytes.
  pub cwd_up-cwd_down :
      (down : Bytes) × (up : Bytes) × (cwd_down cwd args arg2 ≡ some down)
      × IsPath down (n + m + 1)
      × (cwd_up down ≡ some up)
      × ((x : ℕ) → x < 80 → up x ≡ cwd x)
  cwd_up-cwd_down = (down, up, cwd_down-returns, down-IsPath, cwd_up-returns, up_same)
