-- ===== src/Shell/ReadOnly/Returns.antt =====
-- When `ls` of src/user-shell.c returns.
use mathlib.Core.Bool.{false≢true}
use os_2024_operatingsalsa.StringOps.{strlen, memcpy}
use os_2024_operatingsalsa.StringOps.Length.{strlen-scans}
use os_2024_operatingsalsa.StringOps.Memory.{memcpy_lem}
use os_2024_operatingsalsa.Base.{
  zero, suc, none, arith, ℕ, ◌≤◌, ◌<◌, ◌+◌, ◌≢◌, ◌∙◌, sym, ℕ_discrete, dec_lt, ne→==, lt→ltb,
  le→ltb, refl, some, Bytes, ℤ, Option, ◌≡◌, String, ◌==◌, false, eq→==,
}
use os_2024_operatingsalsa.Fat32.Layout.{Request, Fs, entry_at, entry_count}
use os_2024_operatingsalsa.Fat32.Ops.{read_directory}
use os_2024_operatingsalsa.Fat32.Ops.Kept.{
  SameDisk, read_directory-returns, IsDirectoryCode, unknown, done, not_folder, missing,
}
use os_2024_operatingsalsa.Shell.State.{
  Shell, Reply, local_strlen, file_syscall, new_request, empty, current_cluster,
}
use os_2024_operatingsalsa.Shell.Folders.{ls, ls_loop, ls_entry, directory_message}
use os_2024_operatingsalsa.Shell.ReadOnly.{files, ls-Keeps, say}
use os_2024_operatingsalsa.Process.{of_int}

-- What a call of `read_directory` gives back: a folder, or a code that has a message.
pub data HasReplied (s : Shell) : Option Reply → Type 0 where
  folder :
      (reply : Reply)
      → reply.retcode ≡ 0
      → SameDisk (files s) (files reply.shell)
      → HasReplied s (some reply)
  no_folder :
      (reply : Reply) (message : String)
      → (reply.retcode == 0) ≡ false
      → directory_message reply.retcode ≡ some message
      → SameDisk (files s) (files reply.shell)
      → HasReplied s (some reply)

abbrev reply_of : ℤ → Fs → Shell → Reply
reply_of code after s = record {
  retcode = of_int code;
  buffer = after.ram;
  shell = record s {
    system = record s.system { files = record after { ram = s.system.files.ram } };
  };
}

reply_of-HasReplied :
    {code : ℤ} {after : Fs} (s : Shell)
    → IsDirectoryCode code
    → SameDisk (files s) after
    → HasReplied s (some (reply_of code after s))
unfolding directory_message
reply_of-HasReplied s unknown same =
    no_folder _ "An unknown error occurred\n" refl refl
      (record { storage = same.storage; cluster_map = same.cluster_map })
reply_of-HasReplied s done same =
    folder _ refl (record { storage = same.storage; cluster_map = same.cluster_map })
reply_of-HasReplied s not_folder same =
    no_folder _ "Provided argument is not a folder\n" refl refl
      (record { storage = same.storage; cluster_map = same.cluster_map })
reply_of-HasReplied s missing same =
    no_folder _ "Folder not found\n" refl refl
      (record { storage = same.storage; cluster_map = same.cluster_map })

pub file_syscall-HasReplied :
    (garbage : Bytes) (r : Request) (buffer : Bytes) (s : Shell)
    → HasReplied s (file_syscall (read_directory garbage) r buffer s)
unfolding file_syscall
file_syscall-HasReplied garbage r buffer s =
    let fs = record s.system.files { ram = buffer } in
    let v = read_directory-returns garbage r fs in
    rw v.returns (
      reply_of-HasReplied s v.is_code
        (record { storage = v.same.storage; cluster_map = v.same.cluster_map }))

-- Each name from entry 2 on has a zero among its eight bytes.
abbrev pub HasShortNames : Bytes → ℕ → Type 0
HasShortNames table lo =
    (i : ℕ) → lo ≤ i → i < entry_count → (k : ℕ) × (k < 8) × (table (entry_at i + k) ≡ 0)

-- The name of an entry has eight bytes.
abbrev pub HasFullName : Bytes → ℕ → Type 0
HasFullName table i = (k : ℕ) → k < 8 → table (entry_at i + k) ≢ 0

-- What the lines from entry `lo` on end in.
data Lines (table : Bytes) (lo : ℕ) (s : Shell) (o : Option Shell) : Type 0 where
  shown : HasShortNames table lo → (s1 : Shell) → o ≡ some s1 → Lines table lo s o
  overran : (i : ℕ) → lo ≤ i → i < entry_count → HasFullName table i → o ≡ none → Lines table lo s o

module _ (garbage table : Bytes) (i : ℕ) where
  abbrev name : Bytes
  name = memcpy garbage 0 table (entry_at i) 8

  name_byte : (k : ℕ) → k < 8 → name (0 + k) ≡ table (entry_at i + k)
  name_byte k h = ground (arith, memcpy_lem garbage 0 table (entry_at i) 8 (0 + k))

  -- The line of an entry with a short name, and of one with a full name.
  ls_entry-short :
      (s : Shell) → strlen name 0 < 8 → (s1 : Shell) × (ls_entry garbage table i s ≡ some s1)
  unfolding ls_entry local_strlen
  ls_entry-short s h = elim (ℕ_discrete (name 0) 0) [
    | yes e ↦ rw (eq→== _ _ e) (s, refl)
    | no n ↦ rw (ne→== _ _ n, lt→ltb (strlen name 0) 8 h) (_, refl)
  ]

  short_zero : strlen name 0 < 8 → (k : ℕ) × (k < 8) × (table (entry_at i + k) ≡ 0)
  short_zero h =
      (strlen name 0, h, sym (name_byte (strlen name 0) h) ∙ (strlen-scans name 0).1 (omega arith))

  full_name : 8 ≤ strlen name 0 → HasFullName table i
  full_name h k l = rw (sym (name_byte k l)) ((strlen-scans name 0).0 k (omega arith))

  ls_entry-full : (s : Shell) → 8 ≤ strlen name 0 → ls_entry garbage table i s ≡ none
  unfolding ls_entry local_strlen
  ls_entry-full s h =
      rw (ne→== _ _ ((strlen-scans name 0).0 0 (omega arith)), le→ltb (strlen name 0) 8 h) refl

ls_loop-Lines :
    (left i : ℕ) (garbage table : Bytes) (s : Shell)
    → i + left ≡ entry_count
    → Lines table i s (ls_loop left i garbage table s)
unfolding ls_loop
ls_loop-Lines zero i garbage table s e = shown (λ j p q. absurd (omega arith)) s refl
ls_loop-Lines (suc left) i garbage table s e = elim (dec_lt (strlen (name garbage table i) 0) 8) [
  | no n ↦
      let long : 8 ≤ strlen (name garbage table i) 0 = omega arith in
      overran i (omega arith) (omega arith) (full_name garbage table i long)
        (rw (ls_entry-full garbage table i s long) refl)
  | yes h ↦
      let (s1, returns) = ls_entry-short garbage table i s h in
      rw returns (more h (ls_loop-Lines left (i + 1) garbage table s1 (omega arith)))
]
  where
    more :
        {s1 : Shell} {o : Option Shell}
        → strlen (name garbage table i) 0 < 8
        → Lines table (i + 1) s1 o
        → Lines table i s o
    more h (overran j l p full f) = overran j (omega arith) p full f
    more h (shown short s2 f) =
        shown
          (λ j p q. elim (ℕ_discrete j i) [
            | yes z ↦ rw z (short_zero garbage table i h)
            | no ne ↦ short j (omega arith) q
          ])
          s2 f

-- The read of the current folder with which `ls` starts.
abbrev pub ls_read : Bytes → Shell → Option Reply
ls_read garbage s =
    file_syscall (read_directory garbage) (new_request s.current_folder 0 (current_cluster s) 2048)
      empty s

-- What `ls` ends in.
pub data Listed (garbage : Bytes) (s : Shell) (o : Option Shell) : Type 0 where
  listed :
      (reply : Reply)
      → ls_read garbage s ≡ some reply
      → reply.retcode ≡ 0
      → HasShortNames reply.buffer 2
      → (s1 : Shell) → o ≡ some s1
      → SameDisk (files s) (files s1)
      → Listed garbage s o
  refused :
      (reply : Reply)
      → ls_read garbage s ≡ some reply
      → reply.retcode ≢ 0
      → (s1 : Shell) → o ≡ some s1
      → SameDisk (files s) (files s1)
      → Listed garbage s o
  overrun :
      (reply : Reply)
      → ls_read garbage s ≡ some reply
      → reply.retcode ≡ 0
      → (i : ℕ) → 2 ≤ i
      → i < entry_count
      → HasFullName reply.buffer i
      → o ≡ none
      → Listed garbage s o

-- The read of the current folder with which `ls` starts always returns. Where its code is not 0, `ls` returns;
-- where it is 0, `ls` returns if each name of the table from entry 2 on has a zero among its eight bytes,
-- and reads outside of its array if a name has none. Where it returns, the disk and the table of clusters
-- are as before.
pub ls-Listed : (garbage : Bytes) (s : Shell) → Listed garbage s (ls garbage s)
unfolding ls
ls-Listed garbage s = go refl (
    file_syscall-HasReplied garbage (new_request s.current_folder 0 (current_cluster s) 2048) empty
      s)
  where
    kept : (s1 : Shell) → ls garbage s ≡ some s1 → SameDisk (files s) (files s1)
    kept s1 e = rw e at (ls-Keeps garbage s)

    go :
        {o : Option Reply}
        → ls_read garbage s ≡ o
        → HasReplied s o
        → Listed garbage s (ls garbage s)
    go call (folder reply z same) =
        let at : ls garbage s ≡ ls_loop 62 2 garbage reply.buffer reply.shell =
          rw (call, eq→== _ _ z) refl in
        elim (ls_loop-Lines 62 2 garbage reply.buffer reply.shell refl) [
          | shown short s1 f ↦ listed reply call z short s1 (at ∙ f) (kept s1 (at ∙ f))
          | overran i l h full f ↦ overrun reply call z i l h full (at ∙ f)
        ]
    go call (no_folder reply message n e same) =
        let at : ls garbage s ≡ some (say message 4 reply.shell) = rw (call, n, e) refl in
        refused reply call (λ z. false≢true (sym n ∙ eq→== _ _ z)) _ at (kept _ at)
