-- ===== src/Vfs/Unmounts.antt =====
-- vfs_unmountall of vfslist.c: what each entry of the table loses, and the calls that it costs.
use cse.Base.{ℕ, ◌≡◌, refl, ◌∙◌, ap, Option, none, some, List, [], ◌∷◌, ◌⊎◌, inl, inr}
use cse.Base.Outcome.{Outcome, ok, err, panic, Errno}
use cse.Vfs.{Name, Knowndev, Vnodes, Vfs, Ops, lift, next, pure, ◌>>=◌}
use cse.Vfs.Mount.{
  next_sync, next_entry, unmount_if, unmount_entry, unmountall_loop, vfs_unmountall,
}

module _ {W : Type 0} (o : Ops W) where
  -- The file system is synced, at the second try if the first one fails.
  pub data Syncs (fs : ℕ) (n n1 : Vnodes W) : Type 0 where
    at_once : o.sync fs n ≡ (n1, ok tt) → Syncs fs n n1
    again :
        (n2 : Vnodes W) (e : Errno)
        → o.sync fs n ≡ (n2, err e)
        → o.sync fs n2 ≡ (n1, ok tt)
        → Syncs fs n n1

  -- What the round on one entry does to it and to the vnodes: nothing where the entry cannot be mounted
  -- or has no file system; the file system is gone where it is synced and then unmounted, and stays
  -- where FSOP_UNMOUNT fails or both syncs fail.
  pub data Turn (kd : Knowndev) (n : Vnodes W) (kd1 : Knowndev) (n1 : Vnodes W) : Type 0 where
    passed : (kd.kd_rawname ≡ none) ⊎ (kd.kd_fs ≡ none) → kd1 ≡ kd → n1 ≡ n → Turn kd n kd1 n1
    gone :
        (raw : Name) (fs : ℕ) (n2 : Vnodes W)
        → kd.kd_rawname ≡ some raw
        → kd.kd_fs ≡ some fs
        → Syncs fs n n2
        → o.unmount fs n2 ≡ (n1, ok tt)
        → kd1 ≡ record kd { kd_fs = none }
        → Turn kd n kd1 n1
    busy :
        (raw : Name) (fs : ℕ) (n2 : Vnodes W) (e : Errno)
        → kd.kd_rawname ≡ some raw
        → kd.kd_fs ≡ some fs
        → Syncs fs n n2
        → o.unmount fs n2 ≡ (n1, err e)
        → kd1 ≡ kd
        → Turn kd n kd1 n1
    unsynced :
        (raw : Name) (fs : ℕ) (n2 : Vnodes W) (e e1 : Errno)
        → kd.kd_rawname ≡ some raw
        → kd.kd_fs ≡ some fs
        → o.sync fs n ≡ (n2, err e)
        → o.sync fs n2 ≡ (n1, err e1)
        → kd1 ≡ kd
        → Turn kd n kd1 n1

  -- The rounds of the loop, in the order of the table.
  abbrev pub Turns : List Knowndev → Vnodes W → List Knowndev → Vnodes W → Type 0
  Turns [] n [] n1 = n1 ≡ n
  Turns (kd ∷ kds) n (kd1 ∷ kds1) n1 = (n2 : Vnodes W) × Turn kd n kd1 n2 × Turns kds n2 kds1 n1
  Turns [] n (k ∷ ks) n1 = ⊥
  Turns (k ∷ ks) n [] n1 = ⊥

  -- A sync or an unmount of a file system panics.
  abbrev pub Panics : Type 0
  Panics =
      (fs : ℕ) × (n n1 : Vnodes W) × ((o.sync fs n ≡ (n1, panic)) ⊎ (o.unmount fs n ≡ (n1, panic)))

  abbrev pub Left : Vfs W → Vfs W × Outcome (Unit {0}) → Type 0
  Left s (s1, ok _) =
      Turns s.knowndevs s.nodes s1.knowndevs s1.nodes
      × (s1.cwd ≡ s.cwd)
      × (s1.bootfs_vnode ≡ s.bootfs_vnode)
  Left s (s1, err e) = ⊥
  Left s (s1, panic) = Panics

  abbrev EntryLeft : Knowndev → Vfs W → Vfs W × Outcome Knowndev → Type 0
  EntryLeft kd s (s1, ok kd1) = Turn kd s.nodes kd1 s1.nodes × (s1 ≡ record s { nodes = s1.nodes })
  EntryLeft kd s (s1, err e) = ⊥
  EntryLeft kd s (s1, panic) = Panics

  module _ (kd : Knowndev) (raw : Name) (fs : ℕ) (e_raw : kd.kd_rawname ≡ some raw)
      (e_fs : kd.kd_fs ≡ some fs) (s : Vfs W) where
    after_unmount :
        (n2 n3 : Vnodes W) (r : Outcome (Unit {0}))
        → Syncs fs s.nodes n2
        → o.unmount fs n2 ≡ (n3, r)
        → EntryLeft kd s (next_entry o (record s { nodes = n3 }) r kd)
    after_unmount n2 n3 (ok _) synced e = (gone raw fs n2 e_raw e_fs synced e refl, refl)
    after_unmount n2 n3 (err x) synced e = (busy raw fs n2 x e_raw e_fs synced e refl, refl)
    after_unmount n2 n3 panic synced e = (fs, n2, n3, inr e)

    -- From the second sync on.
    after_second :
        (n1 n2 : Vnodes W) (x : Errno) (r : Outcome (Unit {0}))
        → o.sync fs s.nodes ≡ (n1, err x)
        → o.sync fs n1 ≡ (n2, r)
        → EntryLeft kd s (
            let (s3, r3) = next (record s { nodes = n2 }) r (λ _. lift (o.unmount fs)) in
            next_entry o s3 r3 kd)
    after_second n1 n2 x (ok _) e e1 =
        after_unmount n2 (o.unmount fs n2).0 (o.unmount fs n2).1 (again n1 x e e1) refl
    after_second n1 n2 x (err y) e e1 = (unsynced raw fs n1 x y e_raw e_fs e e1 refl, refl)
    after_second n1 n2 x panic e e1 = (fs, n1, n2, inl e1)

    after_first :
        (n1 : Vnodes W) (r : Outcome (Unit {0}))
        → o.sync fs s.nodes ≡ (n1, r)
        → EntryLeft kd s (
            let (s2, r2) = next_sync o (record s { nodes = n1 }) r fs in
            let (s3, r3) = next s2 r2 (λ _. lift (o.unmount fs)) in next_entry o s3 r3 kd)
    after_first n1 (ok _) e =
        after_unmount n1 (o.unmount fs n1).0 (o.unmount fs n1).1 (at_once e) refl
    after_first n1 (err x) e = after_second n1 (o.sync fs n1).0 x (o.sync fs n1).1 e refl
    after_first n1 panic e = (fs, s.nodes, n1, inl e)

  unmount_if-Left :
      (raw : Option Name) (f : Option ℕ) (kd : Knowndev) (s : Vfs W)
      → kd.kd_rawname ≡ raw
      → kd.kd_fs ≡ f
      → EntryLeft kd s (unmount_if o raw f kd s)
  unfolding unmount_if
  unmount_if-Left none f kd s e_raw e_fs = (passed (inl e_raw) refl refl, refl)
  unmount_if-Left (some raw) none kd s e_raw e_fs = (passed (inr e_fs) refl refl, refl)
  unmount_if-Left (some raw) (some fs) kd s e_raw e_fs =
      after_first kd raw fs e_raw e_fs s (o.sync fs s.nodes).0 (o.sync fs s.nodes).1 refl

  abbrev LoopLeft : List Knowndev → Vfs W → Vfs W × Outcome (List Knowndev) → Type 0
  LoopLeft kds s (s1, ok kds1) =
      Turns kds s.nodes kds1 s1.nodes × (s1 ≡ record s { nodes = s1.nodes })
  LoopLeft kds s (s1, err e) = ⊥
  LoopLeft kds s (s1, panic) = Panics

  rest_of :
      (kd : Knowndev) (kds : List Knowndev) (s s1 : Vfs W) (kd1 : Knowndev)
      → Turn kd s.nodes kd1 s1.nodes
      → s1 ≡ record s { nodes = s1.nodes }
      → (s2 : Vfs W) (r : Outcome (List Knowndev)) → LoopLeft kds s1 (s2, r)
      → LoopLeft (kd ∷ kds) s (next s2 r (λ kds1. pure (kd1 ∷ kds1)))
  rest_of kd kds s s1 kd1 t same s2 (ok kds1) (ts, same1) =
      ((s1.nodes, t, ts), same1 ∙ ap (λ (u : Vfs W). record u { nodes = s2.nodes }) same)
  rest_of kd kds s s1 kd1 t same s2 (err e) h = absurd h
  rest_of kd kds s s1 kd1 t same s2 panic h = h

  unmountall_loop-Left :
      (kds : List Knowndev) (s : Vfs W) → LoopLeft kds s (unmountall_loop o kds s)
  unfolding unmountall_loop unmount_entry
  unmountall_loop-Left [] s = (refl, refl)
  unmountall_loop-Left (kd ∷ kds) s =
      step (unmountall_loop-Left kds) (unmount_entry o kd s).0 (unmount_entry o kd s).1
        (unmount_if-Left kd.kd_rawname kd.kd_fs kd s refl refl)
    where
      step :
          ((s1 : Vfs W) → LoopLeft kds s1 (unmountall_loop o kds s1))
          → (s1 : Vfs W) (r : Outcome Knowndev) → EntryLeft kd s (s1, r)
          → LoopLeft
              (kd ∷ kds)
              s
              (next s1 r (λ kd1. unmountall_loop o kds >>= λ kds1. pure (kd1 ∷ kds1)))
      step more s1 (ok kd1) (t, same) =
          rest_of kd kds s s1 kd1 t same (unmountall_loop o kds s1).0 (unmountall_loop o kds s1).1
            (more s1)
      step more s1 (err e) h = absurd h
      step more s1 panic h = h

  -- `vfs_unmountall` goes through the table in order. An entry that cannot be mounted, or has no
  -- file system, costs no call and stays; of any other the file system is synced, once more if that
  -- fails, and unmounted if one of the syncs works, and the entry loses it just where FSOP_UNMOUNT
  -- succeeds. Nothing else of the layer changes, it answers no error, and it panics only where a
  -- sync or an unmount of a file system does.
  pub vfs_unmountall-Left : (s : Vfs W) → Left s (vfs_unmountall o s)
  unfolding vfs_unmountall
  vfs_unmountall-Left s =
      whole (unmountall_loop o s.knowndevs s).0 (unmountall_loop o s.knowndevs s).1
        (unmountall_loop-Left s.knowndevs s)
    where
      whole :
          (s1 : Vfs W) (r : Outcome (List Knowndev))
          → LoopLeft s.knowndevs s (s1, r)
          → Left s (next s1 r (λ kds s2. (record s2 { knowndevs = kds }, ok tt)))
      whole s1 (ok kds) (ts, same) = (ts, ap (λ t. t.cwd) same, ap (λ t. t.bootfs_vnode) same)
      whole s1 (err e) h = absurd h
      whole s1 panic h = h
