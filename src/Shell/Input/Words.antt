-- ===== src/Shell/Input/Words.antt =====
-- `parse_arguments` of src/user-shell.c splits the command at its spaces.
use os_2024_operatingsalsa.Base.{
  [], ◌∷◌, List, zero, suc, refl, arith, some, nth, ℕ, Bytes, if◌then◌else◌, Option, ◌++◌, ◌<◌, ◌+◌,
  length, ◌==◌, ◌*◌, ◌≡◌, ap, ◌≤◌, ◌∙◌, store, false, Bool-cases, inl, inr, lt→ltb, true, sym,
  eq→==,
}
use os_2024_operatingsalsa.StringOps.{strlen}
use os_2024_operatingsalsa.StringOps.Length.{IsString, strlen_lem}
use os_2024_operatingsalsa.Shell.Input.{parse_arguments, parse_loop}

-- The bytes of an array from `k` on.
abbrev pub bytes_from : Bytes → ℕ → ℕ → List ℕ
bytes_from m k zero = []
bytes_from m k (suc left) = m k ∷ bytes_from m (k + 1) left

-- The words of a line, with the word that is under way.
abbrev pub words_from : List ℕ → List ℕ → List (List ℕ)
words_from [] [] = []
words_from [] (w ∷ ws) = (w ∷ ws) ∷ []
words_from (c ∷ cs) [] = if c == b' ' then words_from cs [] else words_from cs (c ∷ [])
words_from (c ∷ cs) (w ∷ ws) =
    if c == b' ' then (w ∷ ws) ∷ words_from cs [] else words_from cs ((w ∷ ws) ++ c ∷ [])

abbrev pub words : List ℕ → List (List ℕ)
words line = words_from line []

-- A word of a list, the empty one past its end.
abbrev pub word_at : List (List ℕ) → ℕ → List ℕ
word_at [] i = []
word_at (w ∷ ws) zero = w
word_at (w ∷ ws) (suc i) = word_at ws i

-- The rows from `i` on hold these words, with zeros behind.
abbrev pub HoldsWords : Bytes → ℕ → List (List ℕ) → Type 0
HoldsWords args i ws = (r c : ℕ) → c < 80 → args (80 * (i + r) + c) ≡ nth (word_at ws r) c

nth-append : (w : List ℕ) (x c : ℕ) → nth (w ++ x ∷ []) c ≡ (if c == length w then x else nth w c)
unfolding nth
nth-append [] x zero = refl
nth-append [] x (suc c) = ground arith
nth-append (a ∷ w) x zero = ground arith
nth-append (a ∷ w) x (suc c) = ground (arith, nth-append w x c)

length-append : (w : List ℕ) (x : ℕ) → length (w ++ x ∷ []) ≡ suc (length w)
length-append [] x = refl
length-append (a ∷ w) x = ap suc (length-append w x)

-- What the loop leaves: the rows before `i` as they were, and the words of what it read.
record HasParsed (args : Bytes) (i : ℕ) (ws : List (List ℕ)) (o : Option Bytes) : Type 0 where
  after : Bytes
  returns : o ≡ some after
  holds : HoldsWords after i ws
  same : (x : ℕ) → x < 80 * i → after x ≡ args x

words_from-char :
    (c : ℕ) (cs w : List ℕ)
    → (c == b' ') ≡ false
    → words_from (c ∷ cs) w ≡ words_from cs (w ++ c ∷ [])
words_from-char c cs [] e = rw e refl
words_from-char c cs (a ∷ w) e = rw e refl

-- A word that is complete stays in its row.
HasParsed-word :
    (args : Bytes) (i : ℕ) (w : List ℕ) (ws : List (List ℕ)) (o : Option Bytes)
    → HoldsWords args i (w ∷ [])
    → HasParsed args (i + 1) ws o
    → HasParsed args i (w ∷ ws) o
unfolding nth
HasParsed-word args i w ws o h r = record {
  after = r.after;
  returns = r.returns;
  holds = rows;
  same = λ x p. r.same x (omega arith);
}
  where
    rows : HoldsWords r.after i (w ∷ ws)
    rows zero c p = r.same (80 * (i + 0) + c) (omega arith) ∙ h 0 c p
    rows (suc n) c p =
        let e : 80 * (i + suc n) + c ≡ 80 * (i + 1 + n) + c = omega arith in rw e (r.holds n c p)

-- Where a row ends, the next ones are empty.
HoldsWords-next :
    (args : Bytes) (i : ℕ) (w : List ℕ)
    → HoldsWords args i (w ∷ [])
    → HoldsWords args (i + 1) ([] ∷ [])
unfolding nth
HoldsWords-next args i w h zero c p =
    let e : 80 * (i + 1 + 0) + c ≡ 80 * (i + 1) + c = omega arith in rw e (h 1 c p)
HoldsWords-next args i w h (suc r) c p =
    let e : 80 * (i + 1 + suc r) + c ≡ 80 * (i + suc (suc r)) + c = omega arith in
    rw e (h (suc (suc r)) c p)

-- One more character of a word.
HoldsWords-store :
    (args : Bytes) (i c : ℕ) (w : List ℕ)
    → length w < 80
    → HoldsWords args i (w ∷ [])
    → HoldsWords (store args (80 * i + length w) c) i ((w ++ c ∷ []) ∷ [])
HoldsWords-store args i c w q h zero x p = ground (arith, nth-append w c x, h 0 x p)
HoldsWords-store args i c w q h (suc r) x p = ground (arith, h (suc r) x p)

nth-word : (r c : ℕ) → nth (word_at ([] ∷ []) r) c ≡ 0
unfolding nth
nth-word zero c = refl
nth-word (suc r) c = refl

HoldsWords-none : (args : Bytes) (i : ℕ) → HoldsWords args i ([] ∷ []) → HoldsWords args i []
HoldsWords-none args i h zero c p = h zero c p
HoldsWords-none args i h (suc r) c p = h (suc r) c p

HasParsed-store :
    (args : Bytes) (i j c : ℕ) (ws : List (List ℕ)) (o : Option Bytes)
    → HasParsed (store args (80 * i + j) c) i ws o
    → HasParsed args i ws o
HasParsed-store args i j c ws o r = record {
  after = r.after;
  returns = r.returns;
  holds = r.holds;
  same = λ x p. r.same x p ∙ ground arith;
}

module _ (command : Bytes) where
  abbrev Parses : ℕ → ℕ → ℕ → ℕ → Bytes → List ℕ → Type 0
  Parses left k i j args w =
      HasParsed args i (words_from (bytes_from command k left) w)
        (parse_loop left k i j command args)

  parse_loop-space :
      (left k i j : ℕ) (args : Bytes) (w : List ℕ)
      → (command k == b' ') ≡ true
      → length w ≡ j
      → HoldsWords args i (w ∷ [])
      → ((i1 : ℕ) → i1 ≤ i + j → HoldsWords args i1 ([] ∷ []) → Parses left (k + 1) i1 0 args [])
      → Parses (suc left) k i j args w
  unfolding parse_loop
  parse_loop-space left k i j args [] s e h next =
      let z : (j == 0) ≡ true = eq→== j 0 (sym e) in rw (s, z) (next i (omega arith) h)
  parse_loop-space left k i j args (a ∷ w) s e h next =
      let z : (j == 0) ≡ false = ground arith in
      rw (s, z)
        (HasParsed-word args i (a ∷ w) (words_from (bytes_from command (k + 1) left) []) _ h
          (next (i + 1) (omega arith) (HoldsWords-next args i (a ∷ w) h)))

  parse_loop-words :
      (left k i j : ℕ) (args : Bytes) (w : List ℕ)
      → length w ≡ j
      → i + j ≤ k
      → k + left < 80
      → HoldsWords args i (w ∷ [])
      → Parses left k i j args w
  unfolding parse_loop
  parse_loop-words zero k i j args [] e p q h = record {
    after = args;
    returns = refl;
    holds = HoldsWords-none args i h;
    same = λ x l. refl;
  }
  parse_loop-words zero k i j args (a ∷ w) e p q h = record {
    after = args;
    returns = refl;
    holds = h;
    same = λ x l. refl;
  }
  parse_loop-words (suc left) k i j args w e p q h = elim (Bool-cases (command k == b' ')) [
    | inl s ↦
        parse_loop-space left k i j args w s e h (λ i1 l h1.
          parse_loop-words left (k + 1) i1 0 args [] refl (omega arith) (omega arith) h1)
    | inr n ↦
        rw
          (
            n,
            lt→ltb i 80 (omega arith),
            lt→ltb j 80 (omega arith),
            words_from-char _ (bytes_from command (k + 1) left) w n,
          )
          (HasParsed-store args i j (command k) _ _ (
            parse_loop-words left (k + 1) i (j + 1) (store args (80 * i + j) (command k))
              (w ++ command k ∷ []) (length-append w _ ∙ omega (arith, e)) (omega arith)
              (omega arith) (rw e at (HoldsWords-store args i (command k) w (omega (arith, e)) h))))
  ]

-- For a command that is a string of fewer than 80 bytes, and arrays that are zero, `parse_arguments`
-- writes inside of its array only and ends, and then row `i` holds word number `i` of the command,
-- split at spaces, with zeros behind; past the last word the rows are zero.
pub parse_arguments-words :
    (command args : Bytes) (n : ℕ)
    → IsString command 0 n
    → n < 80
    → ((x : ℕ) → args x ≡ 0)
    → (args1 : Bytes) × (parse_arguments command args ≡ some args1)
      × ((i j : ℕ)
          → j < 80
          → args1 (80 * i + j) ≡ nth (word_at (words (bytes_from command 0 n)) i) j)
unfolding parse_arguments
parse_arguments-words command args n v l z =
    let blank : HoldsWords args 0 ([] ∷ []) = λ r c p. z (80 * (0 + r) + c) ∙ sym (nth-word r c) in
    let r = parse_loop-words command n 0 0 0 args [] refl (omega arith) (omega arith) blank in
    let e : strlen command 0 ≡ n = strlen_lem command 0 n v (omega arith) in
    (
      r.after,
      rw e r.returns,
      λ i j p. let e : 80 * i + j ≡ 80 * (0 + i) + j = omega arith in rw e (r.holds i j p),
    )
