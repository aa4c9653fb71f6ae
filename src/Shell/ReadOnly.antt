-- ===== src/Shell/ReadOnly.antt =====
-- Which commands of src/user-shell.c leave the disk alone.
pub mod Finding
pub mod Execute
pub mod Returns
use os_2024_operatingsalsa.Base.{
  zero, suc, true, false, some, none, refl, String, Bytes, ℕ, ◌≡◌, Option, ap, ◌>>=◌, if◌then◌else◌,
  Bool-cases, ◌==◌, suc, ◌+◌, ◌∙◌, ◌&&◌, inl, inr, not, is_zero, Bool, Array, ◌-◌, store,
}
use os_2024_operatingsalsa.Fat32.Layout.{
  Request, Fs, root_cluster_number, entry_at, ext_at, user_attribute, uattr_not_empty, attribute,
  attr_subdirectory, entry_cluster,
}
use os_2024_operatingsalsa.Fat32.Ops.{Outcome, read_directory, read}
use os_2024_operatingsalsa.Fat32.Ops.Kept.{
  Keeps, Keeps-bind, Keeps-same, outcome_files, SameDisk, read_directory-returns, Keeps-if,
  read-Keeps, SameDisk-refl, SameDisk-trans,
}
use os_2024_operatingsalsa.Shell.State.{
  Shell, Reply, file_syscall, say, print, empty, strings_equal, local_strlen, literal,
}
use os_2024_operatingsalsa.Shell.Folders.{
  cd, cd_into, cd_done, ls_line, ls_entry, ls_loop, ls, directory_message, cd_target, cwd_up,
  cwd_down,
}
use os_2024_operatingsalsa.Shell.Files.{cat, cat_show, cat_message, cat_message_again}
use os_2024_operatingsalsa.StringOps.{strlen, memcpy, memcmp}
use os_2024_operatingsalsa.Shell.Search.{
  show_path, Search, named_path, get_full_path, dfs_found, dfs_loop, search_loop, find, dfs_find,
}
use os_2024_operatingsalsa.Shell.Input.{ParsedName}

abbrev pub files : Shell → Fs
files s = s.system.files

abbrev reply_files : Reply → Fs
reply_files r = r.shell.system.files

pub print-files :
    (m : Bytes) (str count color : ℕ) (s : Shell) → files (print m str count color s) ≡ files s
unfolding print
print-files m str count color s = refl

pub say-files : (message : String) (color : ℕ) (s : Shell) → files (say message color s) ≡ files s
unfolding say print
say-files message color s = refl

pub file_syscall-Keeps :
    (operation : Request → Fs → Outcome) (r : Request) (buffer : Bytes) (s : Shell)
    → ((fs : Fs) → Keeps outcome_files fs (operation r fs))
    → Keeps reply_files (files s) (file_syscall operation r buffer s)
unfolding file_syscall
file_syscall-Keeps operation r buffer s h =
    let fs = record s.system.files { ram = buffer } in
    Keeps-bind outcome_files reply_files (files s) (operation r fs) _
      (Keeps-same outcome_files fs _ (record { storage = refl; cluster_map = refl }) (h fs))
      (λ a v. record { storage = v.storage; cluster_map = v.cluster_map })

pub SameDisk-of : {fs fs1 : Fs} → fs1 ≡ fs → SameDisk fs fs1
SameDisk-of e = record { storage = ap (λ x. x.storage) e; cluster_map = ap (λ x. x.cluster_map) e }

module _ {ℓ} {B : Type ℓ} (g : B → Fs) (s : Shell) where
  -- A call that reads, and what follows it.
  pub call-Keeps :
      (operation : Request → Fs → Outcome) (r : Request) (buffer : Bytes) (k : Reply → Option B)
      → ((fs : Fs) → Keeps outcome_files fs (operation r fs))
      → ((reply : Reply) → Keeps g (files reply.shell) (k reply))
      → Keeps g (files s) (file_syscall operation r buffer s >>= k)
  call-Keeps operation r buffer k h next =
      Keeps-bind reply_files g (files s) (file_syscall operation r buffer s) k
        (file_syscall-Keeps operation r buffer s h)
        (λ reply same. Keeps-same g (files reply.shell) (k reply) same (next reply))

  -- A step that has no state of its own.
  pub pure-Keeps :
      {A : Type 0} (o : Option A) (k : A → Option B)
      → ((a : A) → Keeps g (files s) (k a))
      → Keeps g (files s) (o >>= k)
  pure-Keeps none k next = tt
  pure-Keeps (some a) k next = next a

pub directory-Keeps :
    (garbage : Bytes) (r : Request) (fs : Fs) → Keeps outcome_files fs (read_directory garbage r fs)
directory-Keeps garbage r fs = let v = read_directory-returns garbage r fs in rw v.returns v.same

pub say-Keeps :
    (message : String) (color : ℕ) (s : Shell) → SameDisk (files s) (files (say message color s))
say-Keeps message color s = SameDisk-of (say-files message color s)

pub print-Keeps :
    (m : Bytes) (str count color : ℕ) (s : Shell)
    → SameDisk (files s) (files (print m str count color s))
print-Keeps m str count color s = SameDisk-of (print-files m str count color s)

pub cd_done-Keeps :
    (args : Bytes) (arg2 : ℕ) (s : Shell) → Keeps files (files s) (cd_done args arg2 s)
unfolding cd_done
cd_done-Keeps args arg2 s =
    pure-Keeps files s
      (if is_zero (memcmp (literal "..") 0 args arg2 (strlen args arg2))
        then cwd_up s.cwd
        else cwd_down s.cwd args arg2)
      (λ cwd. some (record s { cwd = cwd })) (λ cwd. SameDisk-refl)

pub cd_into-Keeps :
    (garbage args : Bytes) (arg2 target : ℕ) (s : Shell)
    → Keeps files (files s) (cd_into garbage args arg2 target s)
unfolding cd_into
cd_into-Keeps garbage args arg2 target s =
    call-Keeps files s (read_directory garbage) _ _ _ (directory-Keeps garbage _) (λ reply.
      Keeps-if files (files reply.shell) (reply.retcode == 0) _ _
        (cd_done-Keeps args arg2 (record reply.shell { current_folder = reply.buffer }))
        (pure-Keeps files reply.shell (directory_message reply.retcode) _
          (λ message. say-Keeps message 4 _)))

pub cd-Keeps :
    (garbage args : Bytes) (arg2 : ℕ) (s : Shell) → Keeps files (files s) (cd garbage args arg2 s)
unfolding cd
cd-Keeps garbage args arg2 s = go (cd_target s.current_folder args arg2)
  where
    go :
        (o : Option ℕ)
        → Keeps files (files s) (elim o [
          | none ↦ some (say "Folder not found\n" 4 s)
          | some target ↦
              if (target == root_cluster_number) && strings_equal (literal "..") 0 args arg2
              then some (say "Already in root folder\n" 4 s)
              else cd_into garbage args arg2 target s
        ])
    go none = say-Keeps "Folder not found\n" 4 s
    go (some target) =
        Keeps-if files (files s)
          ((target == root_cluster_number) && strings_equal (literal "..") 0 args arg2) _ _
          (say-Keeps "Already in root folder\n" 4 s) (cd_into-Keeps garbage args arg2 target s)

pub ls_line-files :
    (name : Bytes) (length : ℕ) (table : Bytes) (i : ℕ) (s : Shell)
    → files (ls_line name length table i s) ≡ files s
unfolding ls_line say print
ls_line-files name length table i s = elim (Bool-cases (not (table (ext_at i) == 0))) [
  | inl h ↦ rw h refl
  | inr h ↦ rw h refl
]

ls_entry-Keeps :
    (garbage table : Bytes) (i : ℕ) (s : Shell) → Keeps files (files s) (ls_entry garbage table i s)
unfolding ls_entry
ls_entry-Keeps garbage table i s =
    let name = memcpy garbage 0 table (entry_at i) 8 in
    Keeps-if files (files s) (name 0 == 0) (some s) _ SameDisk-refl (
      pure-Keeps files s (local_strlen 8 name) _
        (λ length. SameDisk-of (ls_line-files name length table i s)))

pub ls_loop-Keeps :
    (left i : ℕ) (garbage table : Bytes) (s : Shell)
    → Keeps files (files s) (ls_loop left i garbage table s)
unfolding ls_loop
ls_loop-Keeps zero i garbage table s = SameDisk-refl
ls_loop-Keeps (suc left) i garbage table s =
    Keeps-bind files files (files s) (ls_entry garbage table i s) _
      (ls_entry-Keeps garbage table i s)
      (λ next same.
        Keeps-same files (files next) _ same (ls_loop-Keeps left (i + 1) garbage table next))

pub ls-Keeps : (garbage : Bytes) (s : Shell) → Keeps files (files s) (ls garbage s)
unfolding ls
ls-Keeps garbage s =
    call-Keeps files s (read_directory garbage) _ empty _ (directory-Keeps garbage _) (λ reply.
      Keeps-if files (files reply.shell) (reply.retcode == 0) _ _
        (ls_loop-Keeps 62 2 garbage reply.buffer reply.shell)
        (pure-Keeps files reply.shell (directory_message reply.retcode) _
          (λ message. say-Keeps message 4 _)))

pub cat_show-Keeps :
    (garbage : Bytes) (r : Request) (s : Shell) → Keeps files (files s) (cat_show garbage r s)
unfolding cat_show
cat_show-Keeps garbage r s =
    call-Keeps files s (read garbage) _ garbage _ (read-Keeps garbage _) (λ reply.
      Keeps-if files (files reply.shell) (reply.retcode == 0) (some _) (some _)
        (SameDisk-of (say-files "\n" 0x07 _ ∙ print-files reply.buffer 0 _ 0x07 _))
        (SameDisk-of (say-files "\n" 0x4 _ ∙ say-files (cat_message_again reply.retcode) 0x4 _)))

pub cat-Keeps :
    (garbage args : Bytes) (arg2 : ℕ) (s : Shell) → Keeps files (files s) (cat garbage args arg2 s)
unfolding cat
cat-Keeps garbage args arg2 s =
    Keeps-if files (files s) (strlen args arg2 == 0) (some _) _
      (SameDisk-of (say-files "\n" 0x4 _ ∙ say-files "Missing destination file" 0x4 _))
      (call-Keeps files s (read garbage) _ garbage _ (read-Keeps garbage _) (λ reply.
        Keeps-if files (files reply.shell) (reply.retcode == 0) _ (some _)
          (cat_show-Keeps garbage _ reply.shell) (say-Keeps (cat_message reply.retcode) 0x4 _)))
