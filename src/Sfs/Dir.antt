-- ===== src/Sfs/Dir.antt =====
-- The directory operations of os161/kern/fs/sfs/sfs_vnode.c, over sfs_io. A C string is the list of its
-- bytes, without the one that ends it.
use cse.Base.{
  ℕ, zero, suc, ◌+◌, ◌-◌, ◌*◌, ◌/◌, ◌%◌, Bool, true, false, Option, none, some, List, [], ◌∷◌, ◌++◌,
  ltb, ◌==◌, if◌then◌else◌, length, get_or, set, take, drop, replicate, same_string,
}
use cse.Base.Outcome.{Outcome, ok, err, panic, eexist, enametoolong, assert, ◌>>◌}
use cse.Sfs.{Fs, Inode, sfs_type_dir}
use cse.Sfs.Io.{Io, mk_kuio, bytes_of, words_of, io}

-- `sfd_name` has 60 bytes.
pub record Sfd : Type 0 where
  pub ino : ℕ
  pub name : List ℕ

abbrev pub encode : Sfd → List ℕ
encode sd = bytes_of (sd.ino ∷ []) ++ sd.name

abbrev pub decode : List ℕ → Sfd
decode bytes = record { ino = get_or (words_of (take 4 bytes)) 0 0; name = drop 4 bytes }

-- Each I/O is of a whole entry.
abbrev pub read_answer : Io → Fs × Inode × Outcome Sfd
read_answer (fs, sv, u, ok _) = (fs, sv, if ltb 0 u.resid then panic else ok (decode u.passed))
read_answer (fs, sv, u, err e) = (fs, sv, err e)
read_answer (fs, sv, u, panic) = (fs, sv, panic)

unfoldable pub readdir : Fs → Inode → (slot : ℕ) → Fs × Inode × Outcome Sfd
readdir fs sv slot = read_answer (io fs sv (mk_kuio (replicate 64 0) (slot * 64) false))

abbrev pub write_answer : Io → Fs × Inode × Outcome (Unit {0})
write_answer (fs, sv, u, ok _) = (fs, sv, if ltb 0 u.resid then panic else ok tt)
write_answer (fs, sv, u, err e) = (fs, sv, err e)
write_answer (fs, sv, u, panic) = (fs, sv, panic)

unfoldable pub writedir : Fs → Inode → Sfd → (slot : ℕ) → Fs × Inode × Outcome (Unit {0})
writedir fs sv sd slot = write_answer (io fs sv (mk_kuio (encode sd) (slot * 64) true))

unfoldable pub dir_nentries : Inode → Outcome ℕ
dir_nentries sv =
    assert (sv.kind == sfs_type_dir) >> (if sv.size % 64 == 0 then ok (sv.size / 64) else panic)

-- An array up to its first 0.
abbrev pub c_string : List ℕ → List ℕ
c_string [] = []
c_string (c ∷ cs) = if c == 0 then [] else c ∷ c_string cs

-- The entry has the name; its last byte is set to 0 first.
abbrev pub has_name : List ℕ → Sfd → Bool
has_name name sd = same_string (c_string (set sd.name 59 0)) name

-- What the search has found: the inode and the slot of the name, and the last free slot.
pub record Found : Type 0 where
  pub entry : Option (ℕ × ℕ)
  pub emptyslot : Option ℕ

-- What one entry does to it; a second entry of the name fails the assertion.
abbrev pub note : List ℕ → (slot : ℕ) → Sfd → Found → Outcome Found
note name slot sd f =
    if sd.ino == 0
    then ok (record f { emptyslot = some slot })
    else if has_name name sd
    then elim f.entry [ none ↦ ok (record f { entry = some (sd.ino, slot) }) | some x ↦ panic ]
    else ok f

-- The loop of `sfs_dir_findname` over `n` slots, from slot `i` on.
unfoldable pub findname_loop : (n i : ℕ) → Fs → Inode → List ℕ → Found → Fs × Inode × Outcome Found
findname_loop zero i fs sv name f = (fs, sv, ok f)
findname_loop (suc n) i fs sv name f =
    let (fs1, sv1, r) = readdir fs sv i in
    elim r [
      | ok sd ↦ elim (note name i sd f) [
        | ok f1 ↦ findname_loop n (suc i) fs1 sv1 name f1
        | err e ↦ (fs1, sv1, err e)
        | panic ↦ (fs1, sv1, panic)
      ]
      | err e ↦ (fs1, sv1, err e)
      | panic ↦ (fs1, sv1, panic)
    ]

-- The answer of `sfs_dir_findname` is 0 where `entry` is there, and ENOENT elsewhere.
unfoldable pub findname : Fs → Inode → List ℕ → Fs × Inode × Outcome Found
findname fs sv name = elim (dir_nentries sv) [
  | ok n ↦ findname_loop n 0 fs sv name (record { entry = none; emptyslot = none })
  | err e ↦ (fs, sv, err e)
  | panic ↦ (fs, sv, panic)
]

-- The entry of a name, which is padded with zeros.
abbrev pub named : List ℕ → (ino : ℕ) → Sfd
named name ino = record { ino = ino; name = name ++ replicate (60 - length name) 0 }

abbrev pub link_answer : (slot : ℕ) → Fs × Inode × Outcome (Unit {0}) → Fs × Inode × Outcome ℕ
link_answer slot (fs, sv, ok _) = (fs, sv, ok slot)
link_answer slot (fs, sv, err e) = (fs, sv, err e)
link_answer slot (fs, sv, panic) = (fs, sv, panic)

-- `sfs_dir_link` once the name is known to be new: the entry goes to the free slot or to the end.
unfoldable pub add_link : Fs → Inode → List ℕ → (ino : ℕ) → Option ℕ → Fs × Inode × Outcome ℕ
add_link fs sv name ino emptyslot =
    let at_slot : ℕ → Fs × Inode × Outcome ℕ =
      λ slot. link_answer slot (writedir fs sv (named name ino) slot) in
    let added : Fs × Inode × Outcome ℕ = elim emptyslot [
      | some slot ↦ at_slot slot
      | none ↦ elim (dir_nentries sv) [
        | ok n ↦ at_slot n
        | err e ↦ (fs, sv, err e)
        | panic ↦ (fs, sv, panic)
      ]
    ] in
    if ltb 60 (length name + 1) then (fs, sv, err enametoolong) else added

-- With the answer of the search; the result is the slot of the new entry.
abbrev pub link_found : List ℕ → (ino : ℕ) → Fs × Inode × Outcome Found → Fs × Inode × Outcome ℕ
link_found name ino (fs, sv, ok f) = elim f.entry [
  | some x ↦ (fs, sv, err eexist)
  | none ↦ add_link fs sv name ino f.emptyslot
]
link_found name ino (fs, sv, err e) = (fs, sv, err e)
link_found name ino (fs, sv, panic) = (fs, sv, panic)

unfoldable pub dir_link : Fs → Inode → List ℕ → (ino : ℕ) → Fs × Inode × Outcome ℕ
dir_link fs sv name ino = link_found name ino (findname fs sv name)

abbrev pub dir_unlink : Fs → Inode → (slot : ℕ) → Fs × Inode × Outcome (Unit {0})
dir_unlink fs sv slot = writedir fs sv (record { ino = 0; name = replicate 60 0 }) slot
