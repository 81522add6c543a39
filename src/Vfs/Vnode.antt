-- ===== src/Vfs/Vnode.antt =====
-- vnode.c: the reference count and the open count of a vnode.
use cse.Base.{ℕ, ◌+◌, ◌-◌, Bool, Option, none, ltb, ◌==◌, if◌then◌else◌}
use cse.Base.Outcome.{Outcome, ok, err, panic, enomem}
use cse.Vfs.{Vnodes, Vfs, Ops, M, lift, close_op, put, ◌>>◌}

module _ {W : Type 0} where
  -- Whether there is memory for the lock of the counts is an argument.
  unfoldable pub vnode_init :
      (lock_memory : Bool) (vn : ℕ) (fs : Option ℕ) → Vnodes W → Vnodes W × Outcome (Unit {0})
  vnode_init lock_memory vn fs n =
      let counted : Vnodes W = record n {
        refcount = put n.refcount vn 1;
        opencount = put n.opencount vn 0;
      } in
      if lock_memory
      then (record counted { vn_fs = put n.vn_fs vn fs }, ok tt)
      else (counted, err enomem)

  unfoldable pub vnode_kill : (vn : ℕ) → Vnodes W → Vnodes W × Outcome (Unit {0})
  vnode_kill vn n =
      if n.refcount vn == 1
      then if n.opencount vn == 0
        then (
          record n {
            refcount = put n.refcount vn 0;
            opencount = put n.opencount vn 0;
            vn_fs = put n.vn_fs vn none;
          },
          ok tt,
        )
        else (n, panic)
      else (n, panic)

  -- The part of `vnode_check` that reads the counts; no operation of the layer asks for `reclaim`.
  unfoldable pub vnode_check : (vn : ℕ) → M W (Unit {0})
  vnode_check vn s = if s.nodes.refcount vn == 0 then (s, panic) else (s, ok tt)

  abbrev pub set_refs : (vn count : ℕ) → Vfs W → Vfs W
  set_refs vn count s = record s {
    nodes = record (s.nodes) { refcount = put s.nodes.refcount vn count };
  }

  abbrev pub set_opens : (vn count : ℕ) → Vfs W → Vfs W
  set_opens vn count s = record s {
    nodes = record (s.nodes) { opencount = put s.nodes.opencount vn count };
  }

  -- `VOP_INCREF`.
  unfoldable pub vnode_incref : (vn : ℕ) → M W (Unit {0})
  vnode_incref vn s = (set_refs vn (s.nodes.refcount vn + 1) s, ok tt)

  -- `VOP_INCOPEN`.
  unfoldable pub vnode_incopen : (vn : ℕ) → M W (Unit {0})
  vnode_incopen vn s = (set_opens vn (s.nodes.opencount vn + 1) s, ok tt)

  -- An error of the file system is printed and passed over.
  abbrev pub next_warn : Vfs W → Outcome (Unit {0}) → Vfs W × Outcome (Unit {0})
  next_warn s (ok _) = (s, ok tt)
  next_warn s (err _) = (s, ok tt)
  next_warn s panic = (s, panic)

  abbrev pub warn : M W (Unit {0}) → M W (Unit {0})
  warn m s = let (s1, r) = m s in next_warn s1 r

module _ {W : Type 0} (o : Ops W) where
  -- `VOP_DECREF`.
  unfoldable pub vnode_decref : (vn : ℕ) → M W (Unit {0})
  vnode_decref vn s =
      let count = s.nodes.refcount vn in
      if count == 0
      then (s, panic)
      else if ltb 1 count
      then (set_refs vn (count - 1) s, ok tt)
      else warn (lift (o.reclaim vn)) s

  -- `VOP_DECOPEN`.
  unfoldable pub vnode_decopen : (vn : ℕ) → M W (Unit {0})
  unfolding vnode_check
  vnode_decopen vn s =
      let less = set_opens vn (s.nodes.opencount vn - 1) s in
      if s.nodes.opencount vn == 0
      then (s, panic)
      else if ltb 0 (s.nodes.opencount vn - 1)
      then (less, ok tt)
      else warn (vnode_check vn >> lift (o.vop (close_op vn))) less
