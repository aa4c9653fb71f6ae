-- ===== src/Paging/Reach.antt =====
-- The states that calls of src/paging.c reach from the one at boot.
use os_2024_operatingsalsa.Base.{
  refl, zero, suc, some, none, count_if, ℕ, ◌≡◌, Option, Array, store, ap, subst, arith, sym, ◌∙◌,
  ℕ_discrete, eq→==, ne→==, ◌+◌,
}
use mathlib.Core.Bool.{false≢true, Bool, false, true}
use os_2024_operatingsalsa.Paging.{
  paging_allocate_user_page_frame, paging_free_user_page_frame, page_index,
  paging_create_new_page_directory, paging_free_page_directory, release_loop, PageDirectory, Paging,
  fresh_directory, release_loop, initial_paging, directory_at, zero_entry,
}
use os_2024_operatingsalsa.Paging.RoundTrip.{free_returns}
use os_2024_operatingsalsa.Paging.Invariant.{
  Step, allocate, free, create, release, IsConsistent, IsUser,
}
use os_2024_operatingsalsa.Paging.Frames.{
  frame, no_frame, paging_allocate_user_page_frame-Allocated,
}
use os_2024_operatingsalsa.Paging.Directories.{
  directory, no_directory, paging_create_new_page_directory-Created,
}
use os_2024_operatingsalsa.Paging.Preserve.{
  IsConsistent-map_frame, IsConsistent-restrict, IsConsistent-freed,
}

some_state :
    {r q : Bool} {s t : Paging}
    → ◌≡◌ {A = Option (Bool × Paging)} (some (r, s)) (some (q, t))
    → s ≡ t
some_state {r} {q} {s} {t} e =
    ap (λ (o : Option (Bool × Paging)). elim o [ none ↦ s | some x ↦ x.1 ]) e

module _ (list_address : ℕ) (s : Paging) (v : IsConsistent s) where
  -- A directory that gets a table without user entries keeps the invariant.
  IsConsistent-table :
      (d : ℕ) (table : PageDirectory) (used : Array Bool)
      → ((k : ℕ) → (table k).flag.user_supervisor_bit ≡ false)
      → IsConsistent (record s { page_directory_used = used; table = store s.table d table })
  IsConsistent-table d table used none_user =
      IsConsistent-restrict s
        (record s { page_directory_used = used; table = store s.table d table }) refl refl same v
    where
      same :
          (e k : ℕ)
          → (store s.table d table e k).flag.user_supervisor_bit ≡ true
          → store s.table d table e k ≡ s.table e k
      same e k u = elim (ℕ_discrete e d) [
        | yes p ↦ absurd (ground (arith, p, u, none_user k))
        | no n ↦ ground (arith, n)
      ]

  fresh_user : (k : ℕ) → (fresh_directory k).flag.user_supervisor_bit ≡ false
  fresh_user k = ground arith

  after_create : IsConsistent ((paging_create_new_page_directory list_address s).1)
  after_create = elim (paging_create_new_page_directory-Created list_address s) [
    | directory i l h z t e new ↦ rw e (
        IsConsistent-table (directory_at list_address i) fresh_directory
          (store s.page_directory_used i true) fresh_user)
    | no_directory t e ↦ rw e v
  ]

  release_loop-IsConsistent :
      (page_dir left i : ℕ) → IsConsistent ((release_loop list_address left i page_dir s).1)
  unfolding release_loop
  release_loop-IsConsistent page_dir zero i = v
  release_loop-IsConsistent page_dir (suc left) i =
      elim (ℕ_discrete (directory_at list_address i) page_dir) [
        | yes e ↦ rw (eq→== _ _ e) (
            IsConsistent-table (directory_at list_address i) (λ _. zero_entry)
              (store s.page_directory_used i false) (λ k. refl))
        | no n ↦ rw (ne→== _ _ n) (release_loop-IsConsistent page_dir left (i + 1))
      ]

  after_release :
      (page_dir : ℕ) → IsConsistent ((paging_free_page_directory list_address page_dir s).1)
  unfolding paging_free_page_directory
  after_release page_dir = release_loop-IsConsistent page_dir 32 0

  after_allocate :
      (page_dir virtual_addr : ℕ) (r : Bool) (s1 : Paging)
      → paging_allocate_user_page_frame page_dir virtual_addr s ≡ some (r, s1)
      → IsConsistent s1
  after_allocate page_dir virtual_addr r s1 e =
      elim (paging_allocate_user_page_frame-Allocated page_dir virtual_addr s) [
        | frame i h z t f m ↦
            subst IsConsistent (some_state (sym f ∙ e))
              (IsConsistent-map_frame page_dir virtual_addr s v i h z)
        | no_frame t f ↦ subst IsConsistent (some_state (sym f ∙ e)) v
      ]

  after_free :
      (page_dir virtual_addr : ℕ) (r : Bool) (s1 : Paging)
      → IsUser s page_dir (page_index virtual_addr)
      → paging_free_user_page_frame page_dir virtual_addr s ≡ some (r, s1)
      → IsConsistent s1
  after_free page_dir virtual_addr r s1 u e =
      let f =
        free_returns page_dir virtual_addr s (v.inside page_dir (page_index virtual_addr) u) in
      subst IsConsistent (some_state (sym f ∙ e)) (IsConsistent-freed page_dir virtual_addr s v u)

  IsConsistent-Step : (t : Paging) → Step list_address s t → IsConsistent t
  IsConsistent-Step _ (allocate d a r t e) = after_allocate d a r t e
  IsConsistent-Step _ (free d a r t u e) = after_free d a r t u e
  IsConsistent-Step _ create = after_create
  IsConsistent-Step _ (release d) = after_release d

IsConsistent-initial :
    (table : ℕ → PageDirectory) (cr3 : ℕ)
    → ((d i : ℕ) → (table d i).flag.user_supervisor_bit ≡ false)
    → IsConsistent (initial_paging table cr3)
unfolding count_if
IsConsistent-initial table cr3 h = record {
  kernel = refl;
  count = refl;
  inside = λ d i u. absurd (false≢true (sym (h d i) ∙ u));
  taken = λ d i u. absurd (false≢true (sym (h d i) ∙ u));
  not_kernel = λ d i u. absurd (false≢true (sym (h d i) ∙ u));
  unique = λ d i e j u w. absurd (false≢true (sym (h d i) ∙ u));
}

-- The states after any number of calls from `s` on.
pub data Reach (list_address : ℕ) (s : Paging) : Paging → Type 0 where
  start : Reach list_address s s
  call : (t u : Paging) → Reach list_address s t → Step list_address t u → Reach list_address s u

-- From the state at boot, where no directory maps a frame for a user, every state that any sequence
-- of allocations, creations and releases of directories, and frees of addresses that are mapped for
-- a user reaches is consistent: the kernel's frame is taken, the count is the number of free frames,
-- and the mapped user frames are taken, are not the kernel's, and are each mapped at one place.
pub Reach-IsConsistent :
    (list_address : ℕ) (table : ℕ → PageDirectory) (cr3 : ℕ)
    → ((d i : ℕ) → (table d i).flag.user_supervisor_bit ≡ false)
    → (s : Paging) → Reach list_address (initial_paging table cr3) s
    → IsConsistent s
Reach-IsConsistent list_address table cr3 h _ start = IsConsistent-initial table cr3 h
Reach-IsConsistent list_address table cr3 h _ (call t s r e) =
    IsConsistent-Step list_address t (Reach-IsConsistent list_address table cr3 h t r) s e
