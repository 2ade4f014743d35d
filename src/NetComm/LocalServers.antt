-- ===== src/NetComm/LocalServers.antt =====
-- `consolidateIPCSockets`, as it is built on Linux: which sockets in the directory belong to processes
-- that run, and which are removed.
use pyconnect.Base.{
  All, Bool, Bytes, List, Option, [], bytes_eq, drop, false, if_elim, if◌then◌else◌, length, ltb,
  none, not, some, true, ℕ, ◌+◌, ◌==◌, ◌||◌, ◌∷◌, ◌≡◌,
}

-- What the directories hold and how the C library reads and prints numbers: the names in the directory
-- of the sockets, if it can be opened, and in `/proc`; `fnmatch` with the pattern of the sockets;
-- `strtol` with base 10; `sprintf` with `%d`.
pub record Directories : Type 0 where
  pub socket_names : Option (List Bytes)
  pub proc_names : List Bytes
  pub fnmatch : Bytes → Bool
  pub strtol : Bytes → ℕ
  pub decimal : ℕ → Bytes
  pub prefix : Bytes

-- `while ((procdp = readdir(procDir)) != NULL && !foundProc)`.
unfoldable pub found_proc : Bytes → List Bytes → Bool
found_proc proc_id_str [] = false
found_proc proc_id_str (name ∷ names) = bytes_eq proc_id_str name || found_proc proc_id_str names

-- `procIDStr` has room for five digits.
abbrev pub fits_proc_id_str : Bytes → Bool
fits_proc_id_str digits = ltb (length digits) 6

-- The live and the dead processes, in the order of the directory; `none` is a write past the end of
-- `procIDStr`.
unfoldable pub sort_sockets : Directories → List Bytes → Option (List ℕ × List ℕ)
sort_sockets dirs [] = some ([], [])
sort_sockets dirs (d_name ∷ names) =
    let rest = sort_sockets dirs names in
    let proc_id = dirs.strtol (drop (length dirs.prefix + 1) d_name) in
    let digits = dirs.decimal proc_id in
    let sorted : Option (List ℕ × List ℕ) = elim rest [
      | none ↦ none
      | some (live, dead) ↦ some (
          if found_proc digits dirs.proc_names
          then (proc_id ∷ live, dead)
          else (live, proc_id ∷ dead))
    ] in
    if not (dirs.fnmatch d_name)
    then rest
    else if proc_id == 0
    then rest
    else if not (fits_proc_id_str digits)
    then none
    else sorted

-- `consolidateIPCSockets`: the new `liveServerSocketList_`, and the processes whose sockets are
-- removed. If the directory cannot be opened, the list stays.
unfoldable pub consolidate_ipc_sockets : Directories → List ℕ → Option (List ℕ × List ℕ)
consolidate_ipc_sockets dirs live = elim dirs.socket_names [
  | none ↦ some (live, [])
  | some names ↦ sort_sockets dirs names
]

-- Each live process runs, and each dead one does not.
abbrev pub AreSorted : Directories → Option (List ℕ × List ℕ) → Type 0
AreSorted dirs none = Unit
AreSorted dirs (some (live, dead)) =
    All (λ p. found_proc (dirs.decimal p) dirs.proc_names ≡ true) live
    × All (λ p. found_proc (dirs.decimal p) dirs.proc_names ≡ false) dead

put-AreSorted :
    (dirs : Directories) (p : ℕ) (live dead : List ℕ)
    → AreSorted dirs (some (live, dead))
    → AreSorted dirs (
        some (
          if found_proc (dirs.decimal p) dirs.proc_names
          then (p ∷ live, dead)
          else (live, p ∷ dead)))
put-AreSorted dirs p live dead (l, d) =
    if_elim (λ s. AreSorted dirs (some s)) (found_proc (dirs.decimal p) dirs.proc_names)
      (p ∷ live, dead) (live, p ∷ dead) (λ e. ((e, l), d)) (λ e. (l, (e, d)))

-- Only processes that run are kept as live servers, and only the sockets of processes that do not run
-- are removed.
pub sort_sockets-AreSorted :
    (dirs : Directories) (names : List Bytes) → AreSorted dirs (sort_sockets dirs names)
unfolding sort_sockets
sort_sockets-AreSorted dirs [] = (tt, tt)
sort_sockets-AreSorted dirs (d_name ∷ names) =
    let ih = sort_sockets-AreSorted dirs names in
    let proc_id = dirs.strtol (drop (length dirs.prefix + 1) d_name) in
    if_elim (AreSorted dirs) (not (dirs.fnmatch d_name)) _ _ (λ _. ih)
      λ _.
        if_elim (AreSorted dirs) (proc_id == 0) _ _ (λ _. ih)
          λ _.
            if_elim (AreSorted dirs) (not (fits_proc_id_str (dirs.decimal proc_id))) _ _ (λ _. tt)
              λ _. added proc_id (sort_sockets dirs names) ih
  where
    added :
        (p : ℕ) (rest : Option (List ℕ × List ℕ))
        → AreSorted dirs rest
        → AreSorted dirs (elim rest as (λ _. Option (List ℕ × List ℕ)) [
          | none ↦ none
          | some (live, dead) ↦ some (
              if found_proc (dirs.decimal p) dirs.proc_names
              then (p ∷ live, dead)
              else (live, p ∷ dead))
        ])
    added p none h = tt
    added p (some (live, dead)) h = put-AreSorted dirs p live dead h
