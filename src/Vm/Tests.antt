-- ===== src/Vm/Tests.antt =====
-- dumbvm.c on a small address space, and the theorems at inputs that meet their hypotheses.
use cse.Base.{◌≡◌, refl, some, List, [], ◌∷◌, arith}
use cse.Base.Outcome.{ok}
use cse.Vm.{
  Ram, Addrspace, as_create, Entry, vm_fault, vm_fault_read, tlb_fill, find_page, serve, set_up,
}
use cse.Vm.Fault.{Loaded, Answers, vm_fault-Answers}

abbrev memory : Ram
memory = record { first = 0x20000; last = 0x80000 }

-- Two pages of code at 0x400000, one of data at 0x10000000, not loaded yet.
abbrev defined : Addrspace
defined = record as_create { vbase1 = 0x400000; npages1 = 2; vbase2 = 0x10000000; npages2 = 1 }

abbrev loaded : Addrspace
loaded = record defined { pbase1 = 0x1000; pbase2 = 0x3000; stackpbase = 0x4000 }

loaded-Loaded : Loaded loaded
loaded-Loaded = record {
  region1 = record {
    vpos = omega arith;
    ppos = omega arith;
    some_pages = omega arith;
    valigned = omega arith;
    paligned = omega arith;
    vsmall = omega arith;
    psmall = omega arith;
  };
  region2 = record {
    vpos = omega arith;
    ppos = omega arith;
    some_pages = omega arith;
    valigned = omega arith;
    paligned = omega arith;
    vsmall = omega arith;
    psmall = omega arith;
  };
  stack = record {
    vpos = omega arith;
    ppos = omega arith;
    some_pages = omega arith;
    valigned = omega arith;
    paligned = omega arith;
    vsmall = omega arith;
    psmall = omega arith;
  };
}

-- One slot in use, one free.
abbrev slots : List Entry
slots = record { ehi = 0x400000; elo = 0x1600 } ∷ record { ehi = 0x80001000; elo = 0 } ∷ []

fault_second_page :
    vm_fault vm_fault_read 0x401234 (some loaded) slots
    ≡ ok (record { ehi = 0x400000; elo = 0x1600 } ∷ record { ehi = 0x401000; elo = 0x2600 } ∷ [])
unfolding vm_fault serve find_page tlb_fill set_up
fault_second_page = refl

vm_fault-Answers_example :
    Answers vm_fault_read loaded 0x401000 slots
      (vm_fault vm_fault_read 0x401234 (some loaded) slots)
vm_fault-Answers_example = vm_fault-Answers loaded loaded-Loaded slots vm_fault_read 0x401234
