-- ===== src/Shell/Input/Names.antt =====
-- `parseNameAndExt` of src/user-shell.c reads what a name and an extension print as.
use os_2024_operatingsalsa.Base.{
  [], ◌∷◌, ◌++◌, List, zero, suc, refl, arith, ℕ, Bytes, nth, ◌≤◌, ◌<◌, ◌≡◌, length, ◌+◌,
  if◌then◌else◌, ◌≢◌, ◌⊎◌, leb, ◌&&◌, ltb, ℕ_discrete, store, ne→==, inr, dec_lt, inl, ◌-◌, ◌∙◌,
  eq→==, nth-length, ap, subst, sym,
}
use os_2024_operatingsalsa.Shell.Input.{
  name_loop, add_padding, padding_loop, copy_ext, parse_name_and_ext, ParsedName,
}

-- A file name: the extension stands behind a dot where it is not empty.
abbrev pub printed : List ℕ → List ℕ → List ℕ
printed base [] = base
printed base (e ∷ ext) = base ++ b'.' ∷ e ∷ ext

-- A string that is typed as an argument: its bytes, and zeros up to the end of its row.
abbrev pub IsRow : Bytes → ℕ → List ℕ → Type 0
IsRow args at text = (j : ℕ) → j < 80 → args (at + j) ≡ nth text j

-- A name of at most eight characters, none of them a dot or a zero.
pub record IsBase (base : List ℕ) : Type 0 where
  pub short : length base ≤ 8
  pub no_dot : (k : ℕ) → k < length base → nth base k ≢ b'.'
  pub no_zero : (k : ℕ) → k < length base → nth base k ≢ 0

append_nil : (xs : List ℕ) → xs ++ [] ≡ xs
append_nil [] = refl
append_nil (x ∷ xs) = ap (◌∷◌ x) (append_nil xs)

nth-append_before : (xs ys : List ℕ) (k : ℕ) → k < length xs → nth (xs ++ ys) k ≡ nth xs k
unfolding nth
nth-append_before [] ys k h = absurd (omega arith)
nth-append_before (x ∷ xs) ys zero h = refl
nth-append_before (x ∷ xs) ys (suc k) h = nth-append_before xs ys k (omega arith)

nth-append_behind : (xs ys : List ℕ) (k : ℕ) → nth (xs ++ ys) (length xs + k) ≡ nth ys k
unfolding nth
nth-append_behind [] ys k = let z : 0 + k ≡ k = omega arith in rw z refl
nth-append_behind (x ∷ xs) ys k =
    let z : suc (length xs) + k ≡ suc (length xs + k) = omega arith in
    rw z (nth-append_behind xs ys k)

padding_loop_lem :
    (left i : ℕ) (str : Bytes) (x : ℕ)
    → padding_loop left i str x ≡ (if leb i x && ltb x (i + left) then 0 else str x)
unfolding padding_loop
padding_loop_lem zero i str x = ground arith
padding_loop_lem (suc left) i str x =
    ground (arith, padding_loop_lem left (i + 1) (store str i 0) x)

-- The loop stops at position `n`, where a dot or a zero stands, or at the end of the eight bytes.
module _ (filename : Bytes) (at n : ℕ) (short : n ≤ 8)
    (inside : (k : ℕ) → k < n → (filename (at + k) ≢ b'.') × (filename (at + k) ≢ 0)) where
  name_loop_lem :
      (left i : ℕ) (name : Bytes)
      → i + left ≡ 8
      → i ≤ n
      → ((n < 8) → (filename (at + n) ≡ b'.') ⊎ (filename (at + n) ≡ 0))
      → ((name_loop left i filename at name).0 ≡ n)
        × ((x : ℕ)
            → (name_loop left i filename at name).1 x
              ≡ (if leb i x && ltb x n then filename (at + x) else name x))
  unfolding name_loop
  name_loop_lem zero i name e h stop = (omega arith, λ x. ground arith)
  name_loop_lem (suc left) i name e h stop = elim (ℕ_discrete i n) [
    | yes z ↦ elim (stop (omega arith)) [
      | inl d ↦ rw (z, eq→== (filename (at + n)) b'.' d) (refl, λ x. ground arith)
      | inr d ↦
          rw (z, ne→== (filename (at + n)) b'.' (omega (arith, d)), eq→== (filename (at + n)) 0 d)
            (refl, λ x. ground arith)
    ]
    | no z ↦
        let (a, b) = inside i (omega arith) in
        let (p, q) =
          name_loop_lem left (i + 1) (store name i (filename (at + i))) (omega arith) (omega arith)
            stop in
        rw (ne→== _ _ a, ne→== _ _ b) (p, λ x. ground (arith, q x))
  ]

add_padding_lem :
    (str : Bytes) (i j x : ℕ)
    → i ≤ j
    → add_padding str i j x ≡ (if leb i x && ltb x j then 0 else str x)
unfolding add_padding
add_padding_lem str i j x h = ground (arith, padding_loop_lem (j - i) i str x)

-- What the caller gets: 0 and the two padded areas.
pub record HasNames (base suffix : List ℕ) (r : ParsedName) : Type 0 where
  pub code : r.code ≡ 0
  pub name : (k : ℕ) → k < 8 → r.name k ≡ nth base k
  pub ext : (k : ℕ) → k < 3 → r.ext k ≡ nth suffix k

module _ (filename : Bytes) (at : ℕ) (name0 ext0 : Bytes) (base : List ℕ)
    (is_base : IsBase base) where
  n : ℕ
  n = length base

  base_row :
      (text : List ℕ)
      → IsRow filename at (base ++ text)
      → (k : ℕ) → k < n
      → filename (at + k) ≡ nth base k
  unfolding n
  base_row text row k h = row k (omega (arith, is_base.short)) ∙ nth-append_before base text k h

  behind_row :
      (text : List ℕ) (k x : ℕ)
      → IsRow filename at (base ++ text)
      → k < 5
      → x ≡ at + (n + k)
      → filename x ≡ nth text k
  unfolding n
  behind_row text k x row h e =
      rw e (row (length base + k) (omega (arith, is_base.short)) ∙ nth-append_behind base text k)

  -- The loop over the name, whatever stands behind the name.
  stem :
      (text : List ℕ)
      → IsRow filename at (base ++ text)
      → (filename (at + n) ≡ b'.') ⊎ (filename (at + n) ≡ 0)
      → ((name_loop 8 0 filename at name0).0 ≡ n)
        × ((x : ℕ) → x < 8 → add_padding (name_loop 8 0 filename at name0).1 n 8 x ≡ nth base x)
  unfolding n
  stem text row stop =
      let (p, q) =
        name_loop_lem filename at n is_base.short
          (λ k h.
            let e = base_row text row k h in
            (rw e (is_base.no_dot k h), rw e (is_base.no_zero k h)))
          8 0 name0 refl (omega arith) (λ h. stop) in
      (
        p,
        λ x h. elim (dec_lt x n) [
          | yes l ↦ ground (
            arith,
            add_padding_lem (name_loop 8 0 filename at name0).1 n 8 x is_base.short,
            q x,
            base_row text row x l,
          )
          | no g ↦ ground (
            arith,
            add_padding_lem (name_loop 8 0 filename at name0).1 n 8 x is_base.short,
            nth-length base x,
          )
        ],
      )

  parse-base : IsRow filename at base → HasNames base [] (parse_name_and_ext filename at name0 ext0)
  unfolding parse_name_and_ext nth
  parse-base row0 =
      let row : IsRow filename at (base ++ []) =
        subst (IsRow filename at) (sym (append_nil base)) row0 in
      let zero_end : filename (at + n) ≡ 0 =
        behind_row [] 0 (at + n) row (omega arith) (omega arith) in
      let (p, q) = stem [] row (inr zero_end) in
      rw (p, eq→== _ _ zero_end) (record { code = refl; name = q; ext = λ k h. ground arith })

  parse-ext :
      (e : ℕ) (ext : List ℕ)
      → length (e ∷ ext) ≤ 3
      → IsRow filename at (base ++ b'.' ∷ e ∷ ext)
      → HasNames base (e ∷ ext) (parse_name_and_ext filename at name0 ext0)
  unfolding parse_name_and_ext copy_ext nth
  parse-ext e ext l row =
      let dot : filename (at + n) ≡ b'.' =
        behind_row (b'.' ∷ e ∷ ext) 0 (at + n) row (omega arith) (omega arith) in
      let behind : filename (at + n + 4) ≡ 0 =
        behind_row (b'.' ∷ e ∷ ext) 4 (at + n + 4) row (omega arith) (omega arith)
        ∙ nth-length ext 2 (omega arith) in
      let (p, q) = stem (b'.' ∷ e ∷ ext) row (inl dot) in
      rw
        (
          p,
          ne→== (filename (at + n)) 0 (omega (arith, dot)),
          eq→== (filename (at + n)) b'.' dot,
          eq→== _ _ behind,
        )
        (record { code = refl; name = q; ext = copied_ext })
    where
      at_behind : (k : ℕ) → k < 3 → filename (at + n + suc k) ≡ nth (e ∷ ext) k
      at_behind k h =
          behind_row (b'.' ∷ e ∷ ext) (suc k) (at + n + suc k) row (omega arith) (omega arith)

      copied_ext : (k : ℕ) → k < 3 → copy_ext n filename at ext0 k ≡ nth (e ∷ ext) k
      copied_ext k h = elim (ℕ_discrete k 0) [
        | yes z ↦ rw z (at_behind 0 (omega arith))
        | no n0 ↦ elim (ℕ_discrete k 1) [
          | yes z ↦ rw z (at_behind 1 (omega arith))
          | no n1 ↦ let z : k ≡ 2 = omega arith in rw z (at_behind 2 (omega arith))
        ]
      ]

  -- A base of at most eight characters, none a dot or a zero, and an extension of at most three
  -- characters: of what they print as, in a row with zeros behind, `parseNameAndExt` returns 0, and
  -- writes the base and the extension again, each filled up with zeros.
  pub parse_name_and_ext-printed :
      (ext : List ℕ)
      → length ext ≤ 3
      → IsRow filename at (printed base ext)
      → HasNames base ext (parse_name_and_ext filename at name0 ext0)
  parse_name_and_ext-printed [] l row = parse-base row
  parse_name_and_ext-printed (e ∷ ext) l row = parse-ext e ext l row
