-- ===== src/Vfs/Session.antt =====
-- Any sequence of calls of vfspath.c, vfscwd.c and vfslookup.c, with the files that they leave open.
use cse.Base.{
  ℕ, zero, suc, ◌≡◌, refl, arith, Bool, true, false, Option, none, some, List, [], ◌∷◌, get_elem?,
}
use cse.Base.Outcome.{Outcome, ok, err, panic, ebadf}
use cse.Vfs.{Name, Vfs, Ops, M, remove_op, mkdir_op, rmdir_op, symlink_op, pure, fail, ◌>>=◌, ◌>>◌}
use cse.Vfs.Current.{vfs_clearcurdir, vfs_chdir, vfs_clearbootfs, vfs_setbootfs}
use cse.Vfs.Path.{
  call, vfs_close, vfs_open, vfs_remove, vfs_mkdir, vfs_rmdir, vfs_symlink, vfs_readlink,
  vfs_rename, vfs_link,
}
use cse.Vfs.After.{After, bind-After, Total-After}
use cse.Vfs.Owns.{Others, Owns, Respects, held, opened}
use cse.Vfs.Starts.{Balances}
use cse.Vfs.Opens.{call-Balances, in_parent-Balances, vfs_open-HandsBack, vfs_close-Total}
use cse.Vfs.Renames.{vfs_rename-Balances, vfs_link-Balances, vfs_readlink-Balances}
use cse.Vfs.Currents.{
  Total-Balances, vfs_clearcurdir-Total, vfs_chdir-Balances, vfs_clearbootfs-Total,
  vfs_setbootfs-Balances,
}

-- A call; `close_file` is of the file at a place among the open ones.
pub data Request : Type 0 where
  open_file : (path : Name) (flags : ℕ) → Request
  close_file : (i : ℕ) → Request
  remove mkdir rmdir readlink chdir setbootfs : (path : Name) → Request
  symlink rename link : (path1 path2 : Name) → Request
  clearcurdir clearbootfs : Request

abbrev pub without : List ℕ → ℕ → List ℕ
without [] i = []
without (v ∷ vs) zero = vs
without (v ∷ vs) (suc i) = v ∷ without vs i

-- Who holds the vnodes of the open files.
abbrev pub opens_of : List ℕ → List (ℕ × Bool)
opens_of [] = []
opens_of (v ∷ vs) = (v, true) ∷ opens_of vs

module _ {W : Type 0} (o : Ops W) where
  -- A call that opens and closes no file.
  unfoldable pub plain : Request → M W (Unit {0})
  unfolding vfs_remove vfs_mkdir vfs_rmdir vfs_symlink vfs_readlink vfs_rename vfs_link vfs_chdir
      vfs_setbootfs vfs_clearcurdir vfs_clearbootfs
  plain (open_file path flags) = pure tt
  plain (close_file i) = pure tt
  plain (remove path) = vfs_remove o path
  plain (mkdir path) = vfs_mkdir o path
  plain (rmdir path) = vfs_rmdir o path
  plain (readlink path) = vfs_readlink o path
  plain (chdir path) = vfs_chdir o path
  plain (setbootfs name) = vfs_setbootfs o name
  plain (symlink contents path) = vfs_symlink o contents path
  plain (rename oldpath newpath) = vfs_rename o oldpath newpath
  plain (link oldpath newpath) = vfs_link o oldpath newpath
  plain clearcurdir = vfs_clearcurdir o
  plain clearbootfs = vfs_clearbootfs o

  abbrev pub close_nth : Option ℕ → (i : ℕ) → List ℕ → M W (List ℕ)
  close_nth none i files = fail ebadf
  close_nth (some v) i files = vfs_close o v >> pure (without files i)

  -- The files that are open after the call.
  unfoldable pub step : Request → List ℕ → M W (List ℕ)
  unfolding plain vfs_open
  step (open_file path flags) files = vfs_open o path flags >>= λ v. pure (v ∷ files)
  step (close_file i) files = close_nth (get_elem? files i) i files
  step r files = plain r >> pure files

  -- A call that fails leaves the open files.
  abbrev pub go_on :
      Vfs W → Outcome (List ℕ) → List ℕ → (List ℕ → M W (List ℕ)) → Vfs W × Outcome (List ℕ)
  go_on s (ok files1) files k = k files1 s
  go_on s (err e) files k = k files s
  go_on s panic files k = (s, panic)

  unfoldable pub run : List Request → List ℕ → M W (List ℕ)
  unfolding step
  run [] files s = (s, ok files)
  run (r ∷ rs) files s =
      let (s1, r1) = step r files s in go_on s1 r1 files (λ files1. run rs files1)

held-without :
    (files : List ℕ) (i v u : ℕ)
    → get_elem? files i ≡ some v
    → held ((v, true) ∷ opens_of (without files i)) u ≡ held (opens_of files) u
held-without [] i v u e = absurd (ground (arith, e))
held-without (x ∷ xs) zero v u e = ground (arith, e)
held-without (x ∷ xs) (suc i) v u e = omega (arith, held-without xs i v u e)

opened-without :
    (files : List ℕ) (i v u : ℕ)
    → get_elem? files i ≡ some v
    → opened ((v, true) ∷ opens_of (without files i)) u ≡ opened (opens_of files) u
opened-without [] i v u e = absurd (ground (arith, e))
opened-without (x ∷ xs) zero v u e = ground (arith, e)
opened-without (x ∷ xs) (suc i) v u e = omega (arith, opened-without xs i v u e)

-- Every reference is accounted for after the call, with the files that are open then.
abbrev Accounts : {W : Type 0} → Others → (files : List ℕ) → Vfs W × Outcome (List ℕ) → Type 0
Accounts b files = After b.halts (λ files1. Owns b (opens_of files1)) (Owns b (opens_of files))

module _ {W : Type 0} {b : Others} (o : Ops W) (respects : Respects b.halts o) where
  plain-Balances :
      (hs : List (ℕ × Bool)) (r : Request) (s : Vfs W) → Owns b hs s → Balances b hs (plain o r s)
  unfolding plain vfs_remove vfs_mkdir vfs_rmdir vfs_symlink
  plain-Balances hs (open_file path flags) s w = record { holds = w }
  plain-Balances hs (close_file i) s w = record { holds = w }
  plain-Balances hs (remove path) s w =
      in_parent-Balances o respects path (λ dir name. call o dir (remove_op dir name)) s w
        (λ dir name s1 w1. call-Balances o respects hs dir false (remove_op dir name) s1 w1)
  plain-Balances hs (mkdir path) s w =
      in_parent-Balances o respects path (λ dir name. call o dir (mkdir_op dir name)) s w
        (λ dir name s1 w1. call-Balances o respects hs dir false (mkdir_op dir name) s1 w1)
  plain-Balances hs (rmdir path) s w =
      in_parent-Balances o respects path (λ dir name. call o dir (rmdir_op dir name)) s w
        (λ dir name s1 w1. call-Balances o respects hs dir false (rmdir_op dir name) s1 w1)
  plain-Balances hs (symlink contents path) s w =
      in_parent-Balances o respects path (λ dir name. call o dir (symlink_op dir name contents)) s w
        (λ dir name s1 w1.
          call-Balances o respects hs dir false (symlink_op dir name contents) s1 w1)
  plain-Balances hs (readlink path) s w = vfs_readlink-Balances o respects path s w
  plain-Balances hs (chdir path) s w = vfs_chdir-Balances o respects path s w
  plain-Balances hs (setbootfs name) s w = vfs_setbootfs-Balances o respects name s w
  plain-Balances hs (rename oldpath newpath) s w =
      vfs_rename-Balances o respects oldpath newpath s w
  plain-Balances hs (link oldpath newpath) s w = vfs_link-Balances o respects oldpath newpath s w
  plain-Balances hs clearcurdir s w =
      Total-Balances o respects _ (vfs_clearcurdir-Total o respects s w)
  plain-Balances hs clearbootfs s w =
      Total-Balances o respects _ (vfs_clearbootfs-Total o respects s w)

  plain-Accounts :
      (r : Request) (files : List ℕ) (s : Vfs W)
      → Owns b (opens_of files) s
      → Accounts b files ((plain o r >> pure files) s)
  plain-Accounts r files s w =
      bind-After (plain o r) (λ _. pure files) s (plain-Balances (opens_of files) r s w)
        (λ _ s1 w1. record { holds = w1 })

  close-Accounts :
      (v : Option ℕ) (i : ℕ) (files : List ℕ) (s : Vfs W)
      → get_elem? files i ≡ v
      → Owns b (opens_of files) s
      → Accounts b files (close_nth o v i files s)
  close-Accounts none i files s e w = record { holds = w }
  close-Accounts (some v) i files s e w =
      Total-After (vfs_close o v) (λ _. pure (without files i)) s
        (vfs_close-Total o respects (opens_of (without files i)) v s (record {
          refs = λ u. omega (arith, w.refs u, held-without files i v u e);
          spare = λ u. omega (arith, w.spare u, held-without files i v u e);
          opens = λ u. omega (arith, w.opens u, opened-without files i v u e);
          cwd_fs = w.cwd_fs;
          table = w.table;
        }))
        (λ _ s1 w1. record { holds = w1 })

  step-Accounts :
      (r : Request) (files : List ℕ) (s : Vfs W)
      → Owns b (opens_of files) s
      → Accounts b files (step o r files s)
  unfolding step
  step-Accounts (open_file path flags) files s w =
      bind-After (vfs_open o path flags) (λ v. pure (v ∷ files)) s
        (vfs_open-HandsBack o respects path flags s w) (λ v s1 w1. record { holds = w1 })
  step-Accounts (close_file i) files s w = close-Accounts (get_elem? files i) i files s refl w
  step-Accounts (remove path) files s w = plain-Accounts (remove path) files s w
  step-Accounts (mkdir path) files s w = plain-Accounts (mkdir path) files s w
  step-Accounts (rmdir path) files s w = plain-Accounts (rmdir path) files s w
  step-Accounts (readlink path) files s w = plain-Accounts (readlink path) files s w
  step-Accounts (chdir path) files s w = plain-Accounts (chdir path) files s w
  step-Accounts (setbootfs name) files s w = plain-Accounts (setbootfs name) files s w
  step-Accounts (symlink c path) files s w = plain-Accounts (symlink c path) files s w
  step-Accounts (rename p q) files s w = plain-Accounts (rename p q) files s w
  step-Accounts (link p q) files s w = plain-Accounts (link p q) files s w
  step-Accounts clearcurdir files s w = plain-Accounts clearcurdir files s w
  step-Accounts clearbootfs files s w = plain-Accounts clearbootfs files s w

  go_on-After :
      (files : List ℕ) (k : List ℕ → M W (List ℕ)) (s : Vfs W) (r : Outcome (List ℕ))
      → Accounts b files (s, r)
      → ((files1 : List ℕ) (s1 : Vfs W)
          → Owns b (opens_of files1) s1
          → After b.halts (λ files2. Owns b (opens_of files2)) (λ _. ⊥) (k files1 s1))
      → After b.halts (λ files2. Owns b (opens_of files2)) (λ _. ⊥) (go_on o s r files k)
  go_on-After files k s (ok files1) h rest = rest files1 s h.holds
  go_on-After files k s (err e) h rest = rest files s h.holds
  go_on-After files k s panic h rest = record { holds = h.holds }

  -- If the file systems keep the counts as they should, and every reference is accounted for, it still
  -- is after any sequence of the calls: the reference count of a vnode is that of the others, and one
  -- for each file that is open on it, the current directory and the boot file system, or one more,
  -- which a reclaim did not give up, and its open count goes with the open files. The sequence
  -- panics only where an operation of a file system does.
  pub run-Accounts :
      (rs : List Request) (files : List ℕ) (s : Vfs W)
      → Owns b (opens_of files) s
      → After b.halts (λ files1. Owns b (opens_of files1)) (λ _. ⊥) (run o rs files s)
  unfolding run
  run-Accounts [] files s w = record { holds = w }
  run-Accounts (r ∷ rs) files s w =
      go_on-After files (λ files1. run o rs files1) (step o r files s).0 (step o r files s).1
        (step-Accounts r files s w) (λ files1 s1 w1. run-Accounts rs files1 s1 w1)
