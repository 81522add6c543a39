-- ===== src/Vfs/Drops.antt =====
-- References given back: what the decrements of vnode.c do to the counts, and a checked call.
use cse.Base.{
  ℕ, ◌-◌, ◌<◌, ◌≡◌, refl, arith, Bool, true, false, List, ◌∷◌, ◌==◌, dec_lt, not-==, lt→ltb,
  not-lt→ltb,
}
use cse.Base.Outcome.{Outcome, ok, err, panic}
use cse.Vfs.{Vnodes, Vfs, Ops, M, lift, close_op, ◌>>◌}
use cse.Vfs.Vnode.{vnode_check, vnode_decref, vnode_decopen, set_refs, set_opens}
use cse.Vfs.After.{After, Total, warn-Total}
use cse.Vfs.Owns.{
  Others, Owns, Respects, Freed, Frees, opened_le_held, kept_fs, cwd-positive, held-positive,
  few_open, spared, vnode_check-Owns, lift-Leaves,
}

module _ {W : Type 0} {b : Others} {hs : List (ℕ × Bool)} where
  Freed-Owns :
      {v : ℕ} {s : Vfs W} {n : Vnodes W}
      → Owns b ((v, false) ∷ hs) s
      → Freed v s.nodes n
      → Owns b hs (record s { nodes = n })
  Freed-Owns {v} {s} {n} w k = record {
    refs = λ u. omega (arith, w.refs u, k.refs u);
    spare = λ u. spared _ _ _ (k.spare u) (omega (arith, w.spare u));
    opens = λ u. omega (arith, w.opens u, k.opens u (few_open w u));
    cwd_fs = λ u e.
        kept_fs s.nodes n k.fs (cwd-positive w e) (ground (arith, w.refs u, k.refs u, e))
          (w.cwd_fs u e);
    table = w.table;
  }

  Frees-After :
      {v : ℕ} (s : Vfs W) (n : Vnodes W) (r : Outcome (Unit {0}))
      → Owns b ((v, false) ∷ hs) s
      → Frees b.halts v s.nodes (n, r)
      → After b.halts (λ _. Owns b hs) (Owns b hs) (record s { nodes = n }, r)
  Frees-After s n (ok a) w k = record { holds = Freed-Owns w k }
  Frees-After s n (err e) w k = record { holds = Freed-Owns w k }
  Frees-After s n panic w k = record { holds = k }

  pub checked :
      {A : Type 0} {v : ℕ} {x : Bool} {s : Vfs W} (m : M W A)
      → Owns b ((v, x) ∷ hs) s
      → (vnode_check v >> m) s ≡ m s
  checked {v} {s} m w = rw (vnode_check-Owns w) refl

  module _ {v : ℕ} {s : Vfs W} where
    fewer-Owns : Owns b ((v, false) ∷ hs) s → Owns b hs (set_refs v (s.nodes.refcount v - 1) s)
    fewer-Owns w = record {
      refs = λ u. ground (arith, w.refs u, w.refs v);
      spare = λ u. ground (arith, w.spare u, w.spare v, w.refs v);
      opens = λ u. omega (arith, w.opens u);
      cwd_fs = w.cwd_fs;
      table = w.table;
    }

    closed-Owns :
        Owns b ((v, true) ∷ hs) s
        → Owns b ((v, false) ∷ hs) (set_opens v (s.nodes.opencount v - 1) s)
    closed-Owns w = record {
      refs = λ u. omega (arith, w.refs u);
      spare = λ u. omega (arith, w.spare u);
      opens = λ u. ground (arith, w.opens u, w.opens v);
      cwd_fs = w.cwd_fs;
      table = w.table;
    }

    -- The last reference is not an open one.
    last-closed : Owns b ((v, false) ∷ hs) s → ¬ (1 < s.nodes.refcount v) → s.nodes.opencount v ≡ 0
    last-closed w few = ground (arith, w.refs v, w.opens v, opened_le_held hs v, b.within v, few)

    last-one : Owns b ((v, false) ∷ hs) s → ¬ (1 < s.nodes.refcount v) → s.nodes.refcount v ≡ 1
    last-one w few = ground (arith, w.refs v, few)

module _ {W : Type 0} {b : Others} {hs : List (ℕ × Bool)} (o : Ops W)
    (respects : Respects b.halts o) where
  pub vnode_decref-Total :
      (v : ℕ) (s : Vfs W)
      → Owns b ((v, false) ∷ hs) s
      → Total b.halts (Owns b hs) (vnode_decref o v s)
  unfolding vnode_decref
  vnode_decref-Total v s w = elim (dec_lt 1 (s.nodes.refcount v)) [
    | yes many ↦
        rw (held-positive w, lt→ltb 1 (s.nodes.refcount v) many) (record { holds = fewer-Owns w })
    | no few ↦
        rw (held-positive w, not-lt→ltb 1 (s.nodes.refcount v) few)
          (warn-Total (lift (o.reclaim v)) s (
            Frees-After s (o.reclaim v s.nodes).0 (o.reclaim v s.nodes).1 w
              (respects.reclaim v s.nodes (last-one w few) (last-closed w few))))
  ]

  pub vnode_decopen-Total :
      (v : ℕ) (s : Vfs W)
      → Owns b ((v, true) ∷ hs) s
      → Total b.halts (Owns b ((v, false) ∷ hs)) (vnode_decopen o v s)
  unfolding vnode_decopen
  vnode_decopen-Total v s w =
      let some_open : (s.nodes.opencount v == 0) ≡ false =
        not-== {a = s.nodes.opencount v} {b = 0} (λ e. ground (arith, w.opens v)) in
      elim (dec_lt 0 (s.nodes.opencount v - 1)) [
        | yes many ↦
            rw (some_open, lt→ltb 0 (s.nodes.opencount v - 1) many)
              (record { holds = closed-Owns w })
        | no few ↦
            rw (some_open, not-lt→ltb 0 (s.nodes.opencount v - 1) few)
              (warn-Total (vnode_check v >> lift (o.vop (close_op v)))
                (set_opens v (s.nodes.opencount v - 1) s)
                (rw (checked (lift (o.vop (close_op v))) (closed-Owns w)) (
                  lift-Leaves (o.vop (close_op v)) (set_opens v (s.nodes.opencount v - 1) s)
                    (closed-Owns w)
                    (respects.vop (close_op v) (set_opens v (s.nodes.opencount v - 1) s).nodes))))
      ]
