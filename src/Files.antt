-- ===== src/Files.antt =====
-- w2/bin/ls/ls.c and w2/bin/cd/cd.c: the programs for directories.
-- What is printed is a list of texts, the first one first.
use sbrocks.Prelude.{
  ℕ, zero, suc, ◌+◌, ◌-◌, Option, none, some, List, [], ◌∷◌, ◌++◌, leb, ◌==◌, if◌then◌else◌,
}
use sbrocks.Prelude.Fault.{◌>>=◌, ◌>>◌, require}
use sbrocks.Kstring.{Memory}
use sbrocks.Libc.{strlen, strcmp, strncpy}
use sbrocks.Shell.Builtin.{text_of}
use sbrocks.Stdlib.{User, Call, getcwd, chdir}
use sbrocks.Stdlib.Dir.{opendir, readdir, closedir, d_name}

abbrev pub name_max : ℕ
name_max = 1024

module _ {S : Type 0} (syscall : Call S) (malloc : (size : ℕ) → User S → ℕ × User S)
    (free : (ptr : ℕ) → User S → User S) (text_fuel : ℕ) where
  -- The names of the entries from `dip` on.
  pub names_from : (fuel dip : ℕ) → User S → Option (List (List ℕ) × User S)
  names_from zero dip u = none
  names_from (suc fuel) dip u =
      let more = (do
        name ← text_of text_fuel u.memory (dip + d_name)
        (next, u1) ← readdir syscall malloc free text_fuel dip u
        (names, u2) ← names_from fuel next u1
        some ((name ++ 32 ∷ 10 ∷ []) ∷ names, u2)) in
      if dip == 0 then some ([], u) else more

  -- A directory that `opendir` gives as a null pointer has its error printed, which is left out here.
  pub show_files : (fuel : ℕ) → User S → Option (List (List ℕ) × User S)
  show_files fuel u = do
    let (buf, u1) = malloc name_max u
    let (cwd, u2) = getcwd syscall buf (name_max + 1) u1
    let (dit, u3) = opendir syscall malloc free buf u2
    let shown = names_from fuel dit u3 >>= λ r. some (r.0, (closedir syscall malloc free dit r.1).1)
    if dit == 0 then some ([], u3) else shown

  -- `while (iter_name[i] != '/' && i > 0) i--;`
  pub last_slash : (i : ℕ) → Memory → (name : ℕ) → ℕ
  last_slash zero m name = 0
  last_slash (suc i) m name =
      let rest = last_slash i m name in if m (name + suc i) == b'/' then suc i else rest

  -- `cd ..`: `temp_name` is a buffer of 1024 bytes, of which only the copied ones are set.
  pub to_parent : (temp_name : ℕ) → User S → Option (User S)
  to_parent temp_name u = do
    let (buf, u1) = malloc name_max u
    let (cwd, u2) = getcwd syscall buf (name_max + 1) u1
    len ← strlen text_fuel u2.memory buf
    require (leb 2 len)
    let i = last_slash (len - 2) u2.memory buf
    let u3 = record u2 { memory = strncpy (i + 1) u2.memory temp_name buf }
    let there = (chdir syscall temp_name u3).1
    some (if i == 0 then u2 else there)

  -- The texts "rootfs/", ".." and "." stand at the first addresses. Messages are left out.
  pub cd : (rootfs dot_dot dot temp_name argc arg : ℕ) → User S → Option (User S)
  cd rootfs dot_dot dot temp_name argc arg u =
      let named = (do
        up ← strcmp text_fuel u.memory arg dot_dot
        here ← strcmp text_fuel u.memory arg dot
        let parent = to_parent temp_name u
        let moved = (chdir syscall arg u).1
        if up == 0 then parent else if here == 0 then some u else some moved) in
      let home = (chdir syscall rootfs u).1 in if argc == 1 then some home else named
