-- ===== src/Vfs/Owns.antt =====
-- References as property: a list of who holds which vnode, and whether it is open.
use cse.Base.{
  ℕ, ◌+◌, ◌-◌, ◌⊎◌, inl, inr, ◌≤◌, ◌<◌, ◌≡◌, refl, arith, Bool, true, false, Option, none, some,
  List, [], ◌∷◌, ◌==◌, if◌then◌else◌, not-==,
}
use cse.Base.Outcome.{Outcome, ok, err, panic}
use cse.Vfs.{Name, Knowndev, Vnodes, Vfs, Ops, Vop, lift}
use cse.Vfs.Vnode.{vnode_check, vnode_incref, vnode_incopen}
use cse.Vfs.Devices.{is_set}
use cse.Vfs.Current.{s_isdir}
use cse.Vfs.After.{After, Total}

abbrev pub one : ℕ → ℕ → ℕ
one v u = if v == u then 1 else 0

abbrev pub one_of : Option ℕ → ℕ → ℕ
one_of none u = 0
one_of (some v) u = one v u

abbrev pub held : List (ℕ × Bool) → ℕ → ℕ
held [] u = 0
held ((v, _) ∷ hs) u = one v u + held hs u

abbrev pub opened : List (ℕ × Bool) → ℕ → ℕ
opened [] u = 0
opened ((v, o) ∷ hs) u = (if o then one v u else 0) + opened hs u

-- The references that are not ours, the open ones among them.
pub record Others : Type 1 where
  pub refs : ℕ → ℕ
  pub opens : ℕ → ℕ
  pub within : (u : ℕ) → opens u ≤ refs u
  pub halts : Type 0  -- what is known where an operation of a file system panics

-- What vfslist.c says of an entry: one that can be mounted, or has no file system, has a device.
pub record Valid (kd : Knowndev) : Type 0 where
  pub mountable : is_set kd.kd_rawname ≡ true → is_set kd.kd_device ≡ true
  pub unmounted : kd.kd_fs ≡ none → is_set kd.kd_device ≡ true

abbrev pub AllValid : List Knowndev → Type 0
AllValid [] = Unit
AllValid (kd ∷ kds) = Valid kd × AllValid kds

-- The reference count of a vnode is that of the others, and one for each vnode of ours, the current
-- directory and the boot file system, or one more than that, the reference that a reclaim did not
-- give up. The open count is that of the others, and one for each vnode of ours that is open. The
-- current directory has a file system, and the table of devices is valid.
pub record Owns {W : Type 0} (b : Others) (hs : List (ℕ × Bool)) (s : Vfs W) : Type 0 where
  pub refs :
      (u : ℕ) → b.refs u + held hs u + one_of s.cwd u + one_of s.bootfs_vnode u ≤ s.nodes.refcount u
  pub spare :
      (u : ℕ)
      → s.nodes.refcount u ≤ b.refs u + held hs u + one_of s.cwd u + one_of s.bootfs_vnode u + 1
  pub opens : (u : ℕ) → s.nodes.opencount u ≡ b.opens u + opened hs u
  pub cwd_fs : (u : ℕ) → s.cwd ≡ some u → is_set (s.nodes.vn_fs u) ≡ true
  pub table : AllValid s.knowndevs

-- At most `y`, or one that is left.
abbrev pub AtMost : ℕ → ℕ → Type 0
AtMost x y = (x ≤ y) ⊎ (x ≤ 1)

pub spared : (x y z : ℕ) → AtMost x y → y ≤ z + 1 → x ≤ z + 1
spared x y z (inl h) k = omega (arith, h, k)
spared x y z (inr h) k = omega (arith, h)

-- How a call of a file system treats the counts. A vnode that it loads and gives up again may stay with
-- one reference, where the reclaim fails; a vnode with more open counts than references is not in use.
module _ {W : Type 0} where
  abbrev pub KeepsOpens : (n n1 : Vnodes W) → Type 0
  KeepsOpens n n1 = (u : ℕ) → n.opencount u ≤ n.refcount u → n1.opencount u ≡ n.opencount u

  -- A vnode in use keeps its file system.
  abbrev pub KeepsFs : (n n1 : Vnodes W) → Type 0
  KeepsFs n n1 = (u : ℕ) → 0 < n.refcount u → 0 < n1.refcount u → n1.vn_fs u ≡ n.vn_fs u

  pub record Same (n n1 : Vnodes W) : Type 0 where
    pub refs : (u : ℕ) → n.refcount u ≤ n1.refcount u
    pub spare : (u : ℕ) → AtMost (n1.refcount u) (n.refcount u)
    pub opens : KeepsOpens n n1
    pub fs : KeepsFs n n1

  pub record More (v : ℕ) (n n1 : Vnodes W) : Type 0 where
    pub refs : (u : ℕ) → n.refcount u + one v u ≤ n1.refcount u
    pub spare : (u : ℕ) → AtMost (n1.refcount u) (n.refcount u + one v u)
    pub opens : KeepsOpens n n1
    pub fs : KeepsFs n n1

  pub record Freed (v : ℕ) (n n1 : Vnodes W) : Type 0 where
    pub refs : (u : ℕ) → n.refcount u ≤ n1.refcount u + one v u
    pub spare : (u : ℕ) → AtMost (n1.refcount u) (n.refcount u - one v u)
    pub opens : KeepsOpens n n1
    pub fs : KeepsFs n n1

  abbrev pub Leaves : (halts : Type 0) {A : Type 0} → Vnodes W → Vnodes W × Outcome A → Type 0
  Leaves halts n (n1, ok a) = Same n n1
  Leaves halts n (n1, err e) = Same n n1
  Leaves halts n (n1, panic) = halts

  -- It hands back the vnode `vn` of its answer.
  abbrev pub Gives :
      (halts : Type 0) {A : Type 0} (vn : A → ℕ) → Vnodes W → Vnodes W × Outcome A → Type 0
  Gives halts vn n (n1, ok a) = More (vn a) n n1
  Gives halts vn n (n1, err e) = Same n n1
  Gives halts vn n (n1, panic) = halts

  -- It hands back a vnode and does not fail.
  abbrev pub GivesRoot : (halts : Type 0) → Vnodes W → Vnodes W × Outcome ℕ → Type 0
  GivesRoot halts n (n1, ok v) = More v n n1
  GivesRoot halts n (n1, err e) = ⊥
  GivesRoot halts n (n1, panic) = halts

  abbrev pub Frees : (halts : Type 0) (v : ℕ) → Vnodes W → Vnodes W × Outcome (Unit {0}) → Type 0
  Frees halts v n (n1, ok a) = Freed v n n1
  Frees halts v n (n1, err e) = Freed v n n1
  Frees halts v n (n1, panic) = halts

-- What include/vnode.h and include/fs.h ask of a file system: a vnode that is handed back has one
-- reference more, a reclaim of a vnode that nobody else holds gives up the last one or keeps it, as
-- `sfs_reclaim` and `emufs_reclaim` do with an error and `dev_reclaim` without one, and no other
-- operation touches a count. Where an operation panics, as `sfs_getroot` and `sfs_rwblock` do,
-- nothing is asked but `halts`. A directory is not a device, so it has a file system.
pub record Respects {W : Type 0} (halts : Type 0) (o : Ops W) : Type 0 where
  pub vop : (op : Vop) (n : Vnodes W) → Leaves halts n (o.vop op n)
  pub gettype : (v : ℕ) (n : Vnodes W) → Leaves halts n (o.gettype v n)
  pub directory :
      (v mode : ℕ) (n n1 : Vnodes W)
      → o.gettype v n ≡ (n1, ok mode)
      → s_isdir mode ≡ true
      → is_set (n1.vn_fs v) ≡ true
  pub reclaim :
      (v : ℕ) (n : Vnodes W)
      → n.refcount v ≡ 1
      → n.opencount v ≡ 0
      → Frees halts v n (o.reclaim v n)
  pub creat :
      (dir : ℕ) (name : Name) (excl : Bool) (n : Vnodes W)
      → Gives halts (λ v. v) n (o.creat dir name excl n)
  pub lookup : (dir : ℕ) (path : Name) (n : Vnodes W) → Gives halts (λ v. v) n (o.lookup dir path n)
  pub lookparent :
      (dir : ℕ) (path : Name) (n : Vnodes W)
      → Gives halts (λ (p : ℕ × Name). p.0) n (o.lookparent dir path n)
  pub getroot : (fs : ℕ) (n : Vnodes W) → GivesRoot halts n (o.getroot fs n)
  pub sync : (fs : ℕ) (n : Vnodes W) → Leaves halts n (o.sync fs n)
  pub unmount : (fs : ℕ) (n : Vnodes W) → Leaves halts n (o.unmount fs n)

pub kept_fs :
    {W : Type 0} (n n1 : Vnodes W) {u : ℕ}
    → KeepsFs n n1
    → 0 < n.refcount u
    → 0 < n1.refcount u
    → is_set (n.vn_fs u) ≡ true
    → is_set (n1.vn_fs u) ≡ true
kept_fs n n1 {u} keeps p p1 h = rw (keeps u p p1) h

pub opened_le_held : (hs : List (ℕ × Bool)) (u : ℕ) → opened hs u ≤ held hs u
opened_le_held [] u = omega arith
opened_le_held ((v, true) ∷ hs) u = ground (arith, opened_le_held hs u)
opened_le_held ((v, false) ∷ hs) u = ground (arith, opened_le_held hs u)

module _ {W : Type 0} {b : Others} {hs : List (ℕ × Bool)} where
  pub cwd-positive : {s : Vfs W} {u : ℕ} → Owns b hs s → s.cwd ≡ some u → 0 < s.nodes.refcount u
  cwd-positive {s} {u} w e = ground (arith, w.refs u, e)

  pub few_open : {s : Vfs W} → Owns b hs s → (u : ℕ) → s.nodes.opencount u ≤ s.nodes.refcount u
  few_open {s} w u = omega (arith, w.refs u, w.opens u, opened_le_held hs u, b.within u)

  pub swap-Owns : {x y : ℕ × Bool} {s : Vfs W} → Owns b (x ∷ y ∷ hs) s → Owns b (y ∷ x ∷ hs) s
  swap-Owns {x = (x, ox)} {y = (y, oy)} {s} w = record {
    refs = λ u. omega (arith, w.refs u);
    spare = λ u. omega (arith, w.spare u);
    opens = λ u. omega (arith, w.opens u);
    cwd_fs = w.cwd_fs;
    table = w.table;
  }

  Same-Owns :
      {s : Vfs W} {n1 : Vnodes W}
      → Owns b hs s
      → Same s.nodes n1
      → Owns b hs (record s { nodes = n1 })
  Same-Owns {s} {n1} w k = record {
    refs = λ u. omega (arith, w.refs u, k.refs u);
    spare = λ u. spared _ _ _ (k.spare u) (omega (arith, w.spare u));
    opens = λ u. omega (arith, w.opens u, k.opens u (few_open w u));
    cwd_fs = λ u e.
        kept_fs s.nodes n1 k.fs (cwd-positive w e) (ground (arith, k.refs u, cwd-positive w e))
          (w.cwd_fs u e);
    table = w.table;
  }

  More-Owns :
      {v : ℕ} {s : Vfs W} {n1 : Vnodes W}
      → Owns b hs s
      → More v s.nodes n1
      → Owns b ((v, false) ∷ hs) (record s { nodes = n1 })
  More-Owns {v} {s} {n1} w k = record {
    refs = λ u. omega (arith, w.refs u, k.refs u);
    spare = λ u. spared _ _ _ (k.spare u) (omega (arith, w.spare u));
    opens = λ u. omega (arith, w.opens u, k.opens u (few_open w u));
    cwd_fs = λ u e.
        kept_fs s.nodes n1 k.fs (cwd-positive w e) (ground (arith, k.refs u, cwd-positive w e))
          (w.cwd_fs u e);
    table = w.table;
  }

module _ {W : Type 0} {b : Others} {hs : List (ℕ × Bool)} where
  Leaves-After :
      {A : Type 0} (s : Vfs W) (n : Vnodes W) (r : Outcome A)
      → Owns b hs s
      → Leaves b.halts s.nodes (n, r)
      → After b.halts (λ (_ : A). Owns b hs) (Owns b hs) (record s { nodes = n }, r)
  Leaves-After s n (ok a) w k = record { holds = Same-Owns w k }
  Leaves-After s n (err e) w k = record { holds = Same-Owns w k }
  Leaves-After s n panic w k = record { holds = k }

  pub lift-Leaves :
      {A : Type 0} (call : Vnodes W → Vnodes W × Outcome A) (s : Vfs W)
      → Owns b hs s
      → Leaves b.halts s.nodes (call s.nodes)
      → After b.halts (λ (_ : A). Owns b hs) (Owns b hs) (lift call s)
  lift-Leaves call s w k = Leaves-After s (call s.nodes).0 (call s.nodes).1 w k

  gives-After :
      {A : Type 0} (vn : A → ℕ) (s : Vfs W) (n : Vnodes W) (r : Outcome A)
      → Owns b hs s
      → Gives b.halts vn s.nodes (n, r)
      → After b.halts (λ a. Owns b ((vn a, false) ∷ hs)) (Owns b hs) (record s { nodes = n }, r)
  gives-After vn s n (ok a) w k = record { holds = More-Owns w k }
  gives-After vn s n (err e) w k = record { holds = Same-Owns w k }
  gives-After vn s n panic w k = record { holds = k }

  pub lift-Gives :
      {A : Type 0} (vn : A → ℕ) (call : Vnodes W → Vnodes W × Outcome A) (s : Vfs W)
      → Owns b hs s
      → Gives b.halts vn s.nodes (call s.nodes)
      → After b.halts (λ a. Owns b ((vn a, false) ∷ hs)) (Owns b hs) (lift call s)
  lift-Gives vn call s w k = gives-After vn s (call s.nodes).0 (call s.nodes).1 w k

  root-After :
      (s : Vfs W) (n : Vnodes W) (r : Outcome ℕ)
      → Owns b hs s
      → GivesRoot b.halts s.nodes (n, r)
      → After b.halts (λ v. Owns b ((v, false) ∷ hs)) (λ _. ⊥) (record s { nodes = n }, r)
  root-After s n (ok v) w k = record { holds = More-Owns w k }
  root-After s n (err e) w k = absurd k
  root-After s n panic w k = record { holds = k }

  pub lift-GivesRoot :
      (call : Vnodes W → Vnodes W × Outcome ℕ) (s : Vfs W)
      → Owns b hs s
      → GivesRoot b.halts s.nodes (call s.nodes)
      → After b.halts (λ v. Owns b ((v, false) ∷ hs)) (λ _. ⊥) (lift call s)
  lift-GivesRoot call s w k = root-After s (call s.nodes).0 (call s.nodes).1 w k

-- The counts of a vnode that is held, and what the operations of vnode.c do to them.
module _ {W : Type 0} {b : Others} {hs : List (ℕ × Bool)} where
  pub held-positive :
      {v : ℕ} {x : Bool} {s : Vfs W} → Owns b ((v, x) ∷ hs) s → (s.nodes.refcount v == 0) ≡ false
  held-positive {v} {x} {s} w =
      not-== {a = s.nodes.refcount v} {b = 0} λ e. ground (arith, w.refs v)

  pub vnode_check-Owns :
      {v : ℕ} {x : Bool} {s : Vfs W} → Owns b ((v, x) ∷ hs) s → vnode_check v s ≡ (s, ok tt)
  unfolding vnode_check
  vnode_check-Owns {v} {x} {s} w = rw (held-positive w) refl

  pub vnode_incref-Total :
      (v : ℕ) (s : Vfs W)
      → Owns b hs s
      → Total b.halts (Owns b ((v, false) ∷ hs)) (vnode_incref v s)
  unfolding vnode_incref
  vnode_incref-Total v s w = record {
    holds = record {
      refs = λ u. ground (arith, w.refs u);
      spare = λ u. ground (arith, w.spare u);
      opens = λ u. omega (arith, w.opens u);
      cwd_fs = w.cwd_fs;
      table = w.table;
    };
  }

  pub vnode_incopen-Total :
      (v : ℕ) (s : Vfs W)
      → Owns b ((v, false) ∷ hs) s
      → Total b.halts (Owns b ((v, true) ∷ hs)) (vnode_incopen v s)
  unfolding vnode_incopen
  vnode_incopen-Total v s w = record {
    holds = record {
      refs = λ u. omega (arith, w.refs u);
      spare = λ u. omega (arith, w.spare u);
      opens = λ u. ground (arith, w.opens u);
      cwd_fs = w.cwd_fs;
      table = w.table;
    };
  }
