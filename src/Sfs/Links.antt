-- ===== src/Sfs/Links.antt =====
-- sfs_dir_link and sfs_dir_unlink of sfs_vnode.c, against the search for a name.
use cse.Base.{
  ℕ, zero, suc, ◌+◌, ◌-◌, ◌/◌, ◌^◌, ◌<◌, ◌≤◌, ◌≡◌, ◌≢◌, refl, ◌∙◌, sym, ap, true, false, Option,
  none, some, List, [], ◌∷◌, ◌++◌, arith, length, length-append, length-replicate, replicate, set,
  mem, same_string_self, ℕ_discrete, not-==, eq→==, not-lt→ltb,
}
use cse.Base.Outcome.{Outcome, ok, err, panic}
use cse.Sfs.{Fs, Inode}
use cse.Sfs.Bytes.{Octets, Octets-append}
use cse.Sfs.Dir.{
  Sfd, Found, named, link_answer, link_found, c_string, writedir, findname, add_link, dir_link,
  dir_unlink,
}
use cse.Sfs.Search.{matches, OnlyEntry, FreeSlot, Result, findname-Finds}
use cse.Sfs.Entries.{Directory, readdir-Directory, Fit, updated}
use cse.Sfs.Rewrite.{Rewrites, writedir-Rewrites}

-- A name that an entry can hold.
pub record Proper (name : List ℕ) : Type 0 where
  pub short : length name < 60
  pub octets : Octets name
  pub no_null : mem 0 name ≡ false

c_string-zeros : (k i : ℕ) → 0 < k → c_string (set (replicate k 0) i 0) ≡ []
c_string-zeros zero i h = absurd (omega (arith, h))
c_string-zeros (suc k) zero h = refl
c_string-zeros (suc k) (suc i) h = refl

c_string-padded :
    (name : List ℕ) (k i : ℕ)
    → mem 0 name ≡ false
    → length name ≤ i
    → 0 < k
    → c_string (set (name ++ replicate k 0) i 0) ≡ name
c_string-padded [] k i no_null h pos = c_string-zeros k i pos
c_string-padded (x ∷ xs) k zero no_null h pos = absurd (omega (arith, h))
c_string-padded (x ∷ xs) k (suc i) no_null h pos =
    ground (arith, no_null, c_string-padded xs k i (ground (arith, no_null)) (omega (arith, h)) pos)

Octets-zeros : (k : ℕ) → Octets (replicate k 0)
Octets-zeros zero = tt
Octets-zeros (suc k) = (omega arith, Octets-zeros k)

module _ (name : List ℕ) (ino : ℕ) (proper : Proper name) where
  matches-named : ino ≢ 0 → matches name (named name ino) ≡ true
  matches-named used =
      rw
        (
          not-== used,
          c_string-padded name (60 - length name) 59 proper.no_null (omega (arith, proper.short))
              (omega (arith, proper.short)),
        )
        (same_string_self name)

  named-Fit : ino < 2 ^ 32 → Fit (named name ino)
  named-Fit small = record {
    ino = small;
    length_name = omega (
      arith,
      length-append name (replicate (60 - length name) 0),
      length-replicate {A = ℕ} (60 - length name) 0,
      proper.short,
    );
    octets =
        Octets-append name (replicate (60 - length name) 0) proper.octets
          (Octets-zeros (60 - length name));
  }

module _ (fs : Fs) (sv : Inode) (entries : ℕ → Sfd) (d : Directory fs sv entries)
    (name : List ℕ) where
  pub findname-Directory : Result entries name (sv.size / 64) fs sv (findname fs sv name)
  findname-Directory =
      findname-Finds entries name fs sv d.is_dir d.whole
        (λ k lt. readdir-Directory fs sv entries d k lt)

-- The search finds the inode in the slot.
abbrev pub FoundAt : (ino slot : ℕ) → Fs × Inode × Outcome Found → Type 0
FoundAt ino slot (fs, sv, ok f) = f.entry ≡ some (ino, slot)
FoundAt ino slot (fs, sv, err e) = ⊥
FoundAt ino slot (fs, sv, panic) = ⊥

-- The search finds no entry.
abbrev pub NotFound : Fs × Inode × Outcome Found → Type 0
NotFound (fs, sv, ok f) = f.entry ≡ none
NotFound (fs, sv, err e) = ⊥
NotFound (fs, sv, panic) = ⊥

module _ (entries : ℕ → Sfd) (name : List ℕ) (n : ℕ) where
  -- The only slot of the name is the one that is found.
  found_only :
      (slot : ℕ)
      → slot < n
      → matches name (entries slot) ≡ true
      → ((j : ℕ) → j < n → j ≢ slot → matches name (entries j) ≡ false)
      → (fs : Fs) (sv : Inode) (r : Fs × Inode × Outcome Found) → Result entries name n fs sv r
      → FoundAt (entries slot).ino slot r
  found_only slot lt here others fs sv (fs1, sv1, ok f) (a, b, (only, free)) = entry f.entry only
    where
      entry :
          (e : Option (ℕ × ℕ)) → OnlyEntry entries name n e → e ≡ some ((entries slot).ino, slot)
      entry none none_there = absurd (ground (arith, sym here ∙ none_there slot lt))
      entry (some (i, k)) (k_lt, m, same, only_k) =
          let e : slot ≡ k = only_k slot lt here in rw (same, e) refl
  found_only slot lt here others fs sv (fs1, sv1, err x) (a, b, h) = absurd h
  found_only slot lt here others fs sv (fs1, sv1, panic) (a, b, (j, k, jk, k_lt, mj, mk)) =
      elim (ℕ_discrete j slot) [
        | no ne ↦ absurd (ground (arith, sym mj ∙ others j (omega (arith, jk, k_lt)) ne))
        | yes e ↦
            absurd (ground (arith, sym mk ∙ others k k_lt (λ same. omega (arith, e, same, jk))))
      ]

  none_found :
      ((j : ℕ) → j < n → matches name (entries j) ≡ false)
      → (fs : Fs) (sv : Inode) (r : Fs × Inode × Outcome Found) → Result entries name n fs sv r
      → NotFound r
  none_found absent fs sv (fs1, sv1, ok f) (a, b, (only, free)) = entry f.entry only
    where
      entry : (e : Option (ℕ × ℕ)) → OnlyEntry entries name n e → e ≡ none
      entry none h = refl
      entry (some (i, k)) (k_lt, m, same, only_k) = absurd (ground (arith, sym m ∙ absent k k_lt))
  none_found absent fs sv (fs1, sv1, err x) (a, b, h) = absurd h
  none_found absent fs sv (fs1, sv1, panic) (a, b, (j, k, jk, k_lt, mj, mk)) =
      absurd (ground (arith, sym mk ∙ absent k k_lt))

-- The entry stands in a slot that was free, the other slots are as before, and it is found there.
abbrev pub Linked :
    (entries : ℕ → Sfd) (name : List ℕ) (ino : ℕ) → Inode → Fs × Inode × Outcome ℕ → Type 0
Linked entries name ino sv (fs1, sv1, ok slot) =
    (slot < sv.size / 64)
    × ((entries slot).ino ≡ 0)
    × (sv1 ≡ sv)
    × Directory fs1 sv (updated entries slot (named name ino))
    × FoundAt ino slot (findname fs1 sv name)
Linked entries name ino sv (fs1, sv1, err e) = ⊥
Linked entries name ino sv (fs1, sv1, panic) = ⊥

module _ (fs : Fs) (sv : Inode) (entries : ℕ → Sfd) (d : Directory fs sv entries) (name : List ℕ)
    (ino : ℕ) (proper : Proper name) (used : ino ≢ 0) (small : ino < 2 ^ 32)
    (absent : (j : ℕ) → j < sv.size / 64 → matches name (entries j) ≡ false) where
  found_after :
      (fs1 : Fs) (slot : ℕ)
      → slot < sv.size / 64
      → Directory fs1 sv (updated entries slot (named name ino))
      → FoundAt ino slot (findname fs1 sv name)
  found_after fs1 slot lt d1 =
      let after = updated entries slot (named name ino) in
      let new : after slot ≡ named name ino = rw (eq→== {a = slot} refl) refl in
      let found =
        found_only after name (sv.size / 64) slot lt
          (ap (matches name) new ∙ matches-named name ino proper used)
          (λ j j_lt ne. rw (not-== ne) (absent j j_lt)) fs1 sv (findname fs1 sv name)
          (findname-Directory fs1 sv after d1 name) in
      rw (ap (λ (sd : Sfd). sd.ino) new) at found

  to_slot :
      (slot : ℕ)
      → add_link fs sv name ino (some slot)
        ≡ link_answer slot (writedir fs sv (named name ino) slot)
  unfolding add_link
  to_slot slot = rw (not-lt→ltb 60 (length name + 1) (omega (arith, proper.short))) refl

  written :
      (slot : ℕ)
      → slot < sv.size / 64
      → (entries slot).ino ≡ 0
      → (r : Fs × Inode × Outcome (Unit {0})) → Rewrites entries slot (named name ino) sv r
      → Linked entries name ino sv (link_answer slot r)
  written slot lt free (fs1, sv1, ok _) (same_sv, d1) =
      (lt, free, same_sv, d1, found_after fs1 slot lt d1)
  written slot lt free (fs1, sv1, err x) h = absurd h
  written slot lt free (fs1, sv1, panic) h = absurd h

  linked_at :
      (slot : ℕ)
      → slot < sv.size / 64
      → (entries slot).ino ≡ 0
      → Linked entries name ino sv (add_link fs sv name ino (some slot))
  linked_at slot lt free = rw (to_slot slot) (
      written slot lt free (writedir fs sv (named name ino) slot) (
        writedir-Rewrites fs sv entries d slot lt (named name ino)
          (named-Fit name ino proper small)))

  -- Past the search, which found nothing.
  searched :
      (slot : Option ℕ)
      → findname fs sv name ≡ (fs, sv, ok (record { entry = none; emptyslot = slot }))
      → dir_link fs sv name ino ≡ add_link fs sv name ino slot
  unfolding dir_link
  searched slot e = ap (link_found name ino) e

  module _ (k0 : ℕ) (k0_lt : k0 < sv.size / 64) (k0_free : (entries k0).ino ≡ 0) where
    by_search :
        (e : Option (ℕ × ℕ)) (slot : Option ℕ)
        → findname fs sv name ≡ (fs, sv, ok (record { entry = e; emptyslot = slot }))
        → OnlyEntry entries name (sv.size / 64) e
        → FreeSlot entries name (sv.size / 64) slot
        → Linked entries name ino sv (dir_link fs sv name ino)
    by_search (some (i, k)) slot e (k_lt, m, same, only) free =
        absurd (ground (arith, sym m ∙ absent k k_lt))
    by_search none none e only free = absurd (free k0 k0_lt k0_free)
    by_search none (some slot) e only (lt, free) =
        rw (searched (some slot) e) (linked_at slot lt free)

    by_result :
        (r : Fs × Inode × Outcome Found)
        → findname fs sv name ≡ r
        → Result entries name (sv.size / 64) fs sv r
        → Linked entries name ino sv (dir_link fs sv name ino)
    by_result (fs1, sv1, ok f) e (same, same_sv, (only, free)) =
        by_search f.entry f.emptyslot
          (e ∙ ap (λ x. (x, sv1, ok f)) same ∙ ap (λ x. (fs, x, ok f)) same_sv) only free
    by_result (fs1, sv1, err x) e (same, same_sv, h) = absurd h
    by_result (fs1, sv1, panic) e (same, same_sv, (j, k, jk, k_lt, mj, mk)) =
        absurd (ground (arith, sym mk ∙ absent k k_lt))

    -- In a directory with a free slot and without the name, in sound blocks, `sfs_dir_link` of an inode
    -- other than 0 under a name of less than 60 bytes puts the entry into a free slot and keeps the
    -- other entries, and `sfs_dir_findname` of the name finds the inode in this slot afterwards. It does
    -- not fail.
    pub dir_link-Linked : Linked entries name ino sv (dir_link fs sv name ino)
    dir_link-Linked = by_result (findname fs sv name) refl (findname-Directory fs sv entries d name)

-- The slot is free, the other slots are as before, and the name is not found any more.
abbrev pub Unlinked :
    (entries : ℕ → Sfd) (slot : ℕ) (name : List ℕ)
    → Inode
    → Fs × Inode × Outcome (Unit {0})
    → Type 0
Unlinked entries slot name sv (fs1, sv1, ok _) =
    (sv1 ≡ sv)
    × Directory fs1 sv (updated entries slot (record { ino = 0; name = replicate 60 0 }))
    × NotFound (findname fs1 sv name)
Unlinked entries slot name sv (fs1, sv1, err e) = ⊥
Unlinked entries slot name sv (fs1, sv1, panic) = ⊥

module _ (fs : Fs) (sv : Inode) (entries : ℕ → Sfd) (d : Directory fs sv entries) (name : List ℕ)
    (slot : ℕ) (there : slot < sv.size / 64)
    (only : (j : ℕ) → j < sv.size / 64 → j ≢ slot → matches name (entries j) ≡ false) where
  abbrev gone : Sfd
  gone = record { ino = 0; name = replicate 60 0 }

  erased :
      (r : Fs × Inode × Outcome (Unit {0}))
      → Rewrites entries slot gone sv r
      → Unlinked entries slot name sv r
  erased (fs1, sv1, err x) h = absurd h
  erased (fs1, sv1, panic) h = absurd h
  erased (fs1, sv1, ok _) (same_sv, d1) = (
    same_sv,
    d1,
    none_found (updated entries slot gone) name (sv.size / 64)
        (λ j lt. elim (ℕ_discrete j slot) [
          | yes e ↦ rw (eq→== e) refl
          | no ne ↦ rw (not-== ne) (only j lt ne)
        ])
        fs1 sv (findname fs1 sv name)
        (findname-Directory fs1 sv (updated entries slot gone) d1 name),
  )

  -- In a directory in sound blocks in which no other slot has the name, `sfs_dir_unlink` of a slot
  -- frees it and keeps the other entries, and `sfs_dir_findname` does not find the name afterwards.
  -- It does not fail.
  pub dir_unlink-Unlinked : Unlinked entries slot name sv (dir_unlink fs sv slot)
  dir_unlink-Unlinked = erased (writedir fs sv gone slot) (
      writedir-Rewrites fs sv entries d slot there gone
        (record { ino = omega arith; length_name = refl; octets = Octets-zeros 60 }))
