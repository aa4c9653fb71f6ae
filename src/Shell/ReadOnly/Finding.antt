-- ===== src/Shell/ReadOnly/Finding.antt =====
-- `find` of src/user-shell.c leaves the disk alone.
use os_2024_operatingsalsa.Base.{
  zero, suc, true, false, some, Bytes, ℕ, ◌≡◌, Option, if◌then◌else◌, ◌==◌, suc, ◌+◌, ◌∙◌, ◌&&◌,
  not, is_zero, Bool, Array, ◌-◌, store,
}
use os_2024_operatingsalsa.Fat32.Layout.{
  Fs, entry_at, user_attribute, uattr_not_empty, attribute, attr_subdirectory, entry_cluster,
}
use os_2024_operatingsalsa.Fat32.Ops.{read_directory}
use os_2024_operatingsalsa.Fat32.Ops.Kept.{
  Keeps, Keeps-bind, Keeps-same, SameDisk, Keeps-if, SameDisk-refl, SameDisk-trans,
}
use os_2024_operatingsalsa.Shell.State.{Shell, say, empty, literal}
use os_2024_operatingsalsa.StringOps.{strlen, memcmp}
use os_2024_operatingsalsa.Shell.Search.{
  show_path, Search, named_path, get_full_path, dfs_found, dfs_loop, search_loop, find, dfs_find,
  unvisited,
}
use os_2024_operatingsalsa.Shell.Input.{ParsedName, parse_name_and_ext}
use os_2024_operatingsalsa.Shell.ReadOnly.{
  files, SameDisk-of, call-Keeps, pure-Keeps, directory-Keeps, print-files, say-Keeps, say-files,
  local_strlen,
}

abbrev path_files : Bytes × Shell → Fs
path_files p = files p.1

abbrev search_files : Search → Fs
search_files w = files w.shell

get_full_path-Keeps :
    (fuel : ℕ) (garbage : Bytes) (cluster : ℕ) (names : Bytes) (at : ℕ) (result : Bytes) (s : Shell)
    → Keeps path_files (files s) (get_full_path fuel garbage cluster names at result s)
unfolding get_full_path
get_full_path-Keeps zero garbage cluster names at result s = tt
get_full_path-Keeps (suc fuel) garbage cluster names at result s =
    call-Keeps path_files s (read_directory garbage) _ garbage _ (directory-Keeps garbage _)
      (λ reply.
        Keeps-if path_files (files reply.shell) (not (reply.retcode == 0)) (some _) _ SameDisk-refl
          (Keeps-if path_files (files reply.shell)
            (is_zero (memcmp reply.buffer 0 (literal "root") 0 8)) (some _) _ SameDisk-refl
            (Keeps-bind path_files path_files (files reply.shell) _ _
              (get_full_path-Keeps fuel garbage _ reply.buffer _ result reply.shell)
              (λ above same. same))))

named_path-Keeps :
    (fuel : ℕ) (garbage : Bytes) (cluster : ℕ) (names : Bytes) (at : ℕ) (name : Bytes) (name_at : ℕ)
    (result : Bytes) (s : Shell)
    → Keeps path_files (files s) (named_path fuel garbage cluster names at name name_at result s)
unfolding named_path
named_path-Keeps fuel garbage cluster names at name name_at result s =
    Keeps-bind path_files path_files (files s) _ _
      (get_full_path-Keeps fuel garbage cluster names at result s) (λ a same. same)

show_path-files : (path : Bytes) (s : Shell) → files (show_path path s) ≡ files s
unfolding show_path
show_path-files path s = say-files "\n" 0x07 _ ∙ print-files path 0 _ 0x07 s

dfs_found-Keeps :
    (fuel : ℕ) (garbage : Bytes) (cluster : ℕ) (names : Bytes) (at : ℕ) (name : Bytes) (name_at : ℕ)
    (table : Bytes) (i : ℕ) (is_file : Bool) (w : Search)
    → Keeps search_files
        (search_files w)
        (dfs_found fuel garbage cluster names at name name_at table i is_file w)
unfolding dfs_found
dfs_found-Keeps fuel garbage cluster names at name name_at table i is_file w =
    Keeps-bind path_files search_files (search_files w) _ _
      (named_path-Keeps fuel garbage cluster names at name name_at w.result w.shell)
      (λ a same. SameDisk-trans same (SameDisk-of (show_path-files _ a.1)))

module _ (fuel : ℕ) (garbage : Bytes) (visit : ℕ → Bytes → ℕ → Search → Option Search)
    (visits : (c : ℕ) (t : Bytes) (i : ℕ) (w : Search)
      → Keeps search_files (search_files w) (visit c t i w)) where
  dfs_loop-Keeps :
      (left i cluster : ℕ) (names : Bytes) (at : ℕ) (table search : Bytes) (find_at : ℕ)
      (fresh : Array Bool) (w : Search)
      → Keeps search_files
          (search_files w)
          (dfs_loop fuel garbage visit left i cluster names at table search find_at fresh w)
  unfolding dfs_loop
  dfs_loop-Keeps zero i cluster names at table search find_at fresh w = SameDisk-refl
  dfs_loop-Keeps (suc left) i cluster names at table search find_at fresh w =
      let next = dfs_loop-Keeps left (i + 1) cluster names at table search find_at in
      let fs = search_files w in
      Keeps-if search_files fs (not (user_attribute table i == uattr_not_empty)) _ _ (next fresh w)
        (Keeps-if search_files fs (attribute table i == attr_subdirectory) _ _
          (Keeps-if search_files fs
            (is_zero (memcmp table (entry_at i) search find_at (strlen search find_at))) _ _
            (dfs_found-Keeps fuel garbage cluster names at table (entry_at i) table i false w)
            (Keeps-if search_files fs (not (fresh (i - 1))) _ _
              (Keeps-bind search_files search_files fs _ _
                (visits (entry_cluster table i) table i (record w { visited = fresh }))
                (λ inner same.
                  Keeps-same search_files (search_files inner) _ same
                    (next inner.visited (record inner { visited = w.visited }))))
              (next fresh w)))
          (Keeps-if search_files fs (is_zero (memcmp table (entry_at i) search find_at 8)) _ _
            (dfs_found-Keeps fuel garbage cluster names at search find_at table i true w)
            (next fresh (record w { visited = store w.visited (i - 1) true }))))

dfs_find-Keeps :
    (fuel : ℕ) (garbage search : Bytes) (find_at cluster : ℕ) (parent : Bytes) (v : ℕ) (w : Search)
    → Keeps search_files (search_files w) (dfs_find fuel garbage search find_at cluster parent v w)
unfolding dfs_find
dfs_find-Keeps zero garbage search find_at cluster parent v w = tt
dfs_find-Keeps (suc fuel) garbage search find_at cluster parent v w =
    call-Keeps search_files w.shell (read_directory garbage) _ garbage _ (directory-Keeps garbage _)
      (λ reply.
        Keeps-if search_files (files reply.shell) (not (reply.retcode == 0)) (some _) _
          (SameDisk-of (say-files "\n" 0x4 _ ∙ say-files _ 0x4 reply.shell))
          (dfs_loop-Keeps fuel garbage (dfs_find fuel garbage search find_at)
            (dfs_find-Keeps fuel garbage search find_at) 62 2 cluster parent _ reply.buffer search
            find_at _ _))

abbrev found_files : Bool × Shell → Fs
found_files r = files r.1

search_loop-Keeps :
    (fuel : ℕ) (garbage : Bytes) (left i : ℕ) (table args : Bytes) (args2 : ℕ) (file : ParsedName)
    (w : Search)
    → Keeps found_files (search_files w) (search_loop fuel garbage left i table args args2 file w)
unfolding search_loop
search_loop-Keeps fuel garbage zero i table args args2 file w = SameDisk-refl
search_loop-Keeps fuel garbage (suc left) i table args args2 file w =
    let next = search_loop-Keeps fuel garbage left (i + 1) table args args2 file in
    let fs = search_files w in
    Keeps-if found_files fs (not (user_attribute table i == uattr_not_empty)) _ _ (next w) (
      Keeps-if found_files fs (attribute table i == attr_subdirectory) _ _
        (Keeps-if found_files fs
          (is_zero (memcmp table (entry_at i) file.name 0 8)
            && is_zero (memcmp table (entry_at i) args args2 (strlen args args2)))
          (some _) _
          (SameDisk-of (
            say-files "\n" 0x07 _
            ∙ print-files table (entry_at i) _ 0x07 _
            ∙ say-files "root/" 0x07 w.shell))
          (Keeps-if found_files fs (not (w.visited (i - 1))) _ _
            (Keeps-bind search_files found_files fs _ _
              (dfs_find-Keeps fuel garbage args args2 _ table i w)
              (λ inner same. Keeps-same found_files (search_files inner) _ same (next inner)))
            (next w)))
        (Keeps-if found_files fs (is_zero (memcmp table (entry_at i) file.name 0 8)) _ _
          (pure-Keeps found_files w.shell (local_strlen 8 file.name) _ (λ _.
            Keeps-bind path_files found_files fs _ _
              (named_path-Keeps fuel garbage _ _ 0 file.name 0 w.result w.shell)
              (λ path same.
                pure-Keeps found_files w.shell (local_strlen 3 file.ext) _
                  (λ _. SameDisk-trans same (SameDisk-of (show_path-files _ path.1))))))
          (next (record w { visited = store w.visited (i - 1) true }))))

choose-Keeps :
    (fs : Fs) (b : Bool) (x y : Shell)
    → SameDisk fs (files x)
    → SameDisk fs (files y)
    → SameDisk fs (files (if b then x else y))
choose-Keeps fs true x y h h1 = h
choose-Keeps fs false x y h h1 = h1

pub find-Keeps :
    (fuel : ℕ) (garbage args : Bytes) (args2 : ℕ) (s : Shell)
    → Keeps files (files s) (find fuel garbage args args2 s)
unfolding find
find-Keeps fuel garbage args args2 s =
    Keeps-if files (files s) (strlen args args2 == 0) (some _) _
      (SameDisk-of (say-files "\n" 0x4 _ ∙ say-files _ 0x4 s))
      (call-Keeps files s (read_directory garbage) _ garbage _ (directory-Keeps garbage _) (λ reply.
        let file = parse_name_and_ext args args2 garbage garbage in
        let start : Search = record { visited = unvisited; result = empty; shell = reply.shell } in
        let fs = files reply.shell in
        let searched = search_loop fuel garbage 62 2 reply.buffer args args2 file start in
        Keeps-bind found_files files fs
          (if reply.retcode == 0 then searched else some (false, reply.shell)) _
          (Keeps-if found_files fs (reply.retcode == 0) searched (some (false, reply.shell))
            (search_loop-Keeps fuel garbage 62 2 reply.buffer args args2 file start) SameDisk-refl)
          (λ r same.
            choose-Keeps fs r.0 r.1 (say "\n" 0x07 r.1) same
              (SameDisk-trans same (say-Keeps "\n" 0x07 r.1)))))
