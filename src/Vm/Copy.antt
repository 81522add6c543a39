-- ===== src/Vm/Copy.antt =====
-- `as_copy`: a copy with the same contents in frames of its own.
use cse.Base.{ℕ, ◌+◌, ◌*◌, ◌%◌, ◌^◌, ◌≤◌, ◌<◌, ◌≡◌}
use cse.Base.Outcome.{Outcome, ok, err, panic, enomem}
use cse.Vm.{Ram, page_size, Addrspace, stackpages, outline, move_bytes}
use cse.Vm.Frames.{Sane}

-- The frames of the address space lie in memory that is in use.
pub record InUse (r : Ram) (a : Addrspace) : Type 0 where
  pub region1 : a.pbase1 + a.npages1 * page_size ≤ r.first
  pub region2 : a.pbase2 + a.npages2 * page_size ≤ r.first
  pub stack : a.stackpbase + stackpages * page_size ≤ r.first

-- The bytes of the copy are those of the original, in frames that were free; no byte of a frame in use
-- changes. It fails only for want of memory.
pub record Same (r : Ram) (m m' : ℕ → ℕ) (old new : Addrspace) : Type 0 where
  pub regions :
      (new.vbase1 ≡ old.vbase1)
      × (new.npages1 ≡ old.npages1)
      × (new.vbase2 ≡ old.vbase2)
      × (new.npages2 ≡ old.npages2)
  pub fresh : (r.first ≤ new.pbase1) × (r.first ≤ new.pbase2) × (r.first ≤ new.stackpbase)
  pub bytes1 : (i : ℕ) → i < old.npages1 * page_size → m' (new.pbase1 + i) ≡ m (old.pbase1 + i)
  pub bytes2 : (i : ℕ) → i < old.npages2 * page_size → m' (new.pbase2 + i) ≡ m (old.pbase2 + i)
  pub stack :
      (i : ℕ) → i < stackpages * page_size → m' (new.stackpbase + i) ≡ m (old.stackpbase + i)
  pub others : (a : ℕ) → a < r.first → m' a ≡ m a

abbrev pub Copies : Ram → (ℕ → ℕ) → Addrspace → Ram × (ℕ → ℕ) × Outcome Addrspace → Type 0
Copies r m old (r', m', ok new) = Same r m m' old new × Sane r' × InUse r' new
Copies r m old (r', m', err e) = (e ≡ enomem) × (m' ≡ m)
Copies r m old (r', m', panic) = ⊥

abbrev copied : (ℕ → ℕ) → Addrspace → Addrspace → ℕ → ℕ
copied m old new =
    move_bytes
      (move_bytes (move_bytes m new.pbase1 old.pbase1 (old.npages1 * page_size % 2 ^ 32)) new.pbase2
        old.pbase2 (old.npages2 * page_size % 2 ^ 32))
      new.stackpbase old.stackpbase (stackpages * page_size)

module _ (r : Ram) (m : ℕ → ℕ) (old : Addrspace) (s1 : old.npages1 < 2 ^ 18)
    (s2 : old.npages2 < 2 ^ 18) (u : InUse r old) where
  abbrev placed : Addrspace
  placed = record (outline old) {
    pbase1 = r.first;
    pbase2 = r.first + old.npages1 * page_size;
    stackpbase = r.first + old.npages1 * page_size + old.npages2 * page_size;
  }

  abbrev size1 : ℕ
  size1 = old.npages1 * page_size % 2 ^ 32

  abbrev size2 : ℕ
  size2 = old.npages2 * page_size % 2 ^ 32

  abbrev first_copy : ℕ → ℕ
  first_copy = move_bytes m placed.pbase1 old.pbase1 size1

  abbrev second_copy : ℕ → ℕ
  second_copy = move_bytes first_copy placed.pbase2 old.pbase2 size2
