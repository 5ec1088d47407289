-- ===== src/Allocator/Client/Example.antt =====
-- A caller that gets a block and gives it back, and the theorems on histories there.
use osdev_hikalium.Prelude.{
  ℕ, refl, ◌≡◌, ◌≢◌, false, true, none, some, [], ◌∷◌, ◌==◌, if◌then◌else◌, arith,
}
use osdev_hikalium.Allocator.Memory.{Memory}
use osdev_hikalium.Prelude.Usize.{Outcome, ok, panic, fault, out_of_fuel}
use osdev_hikalium.Allocator.Pow2.{round_up_to_nearest_pow2}
use osdev_hikalium.Allocator.Header.{provide, provide_rounded}
use osdev_hikalium.Allocator.FirstFit.{Layout, alloc_with_options, walk, dealloc}
use osdev_hikalium.Allocator.Client.Once.{Reach-grants_once}
use osdev_hikalium.Allocator.Regions.{region}
use osdev_hikalium.Allocator.Chain.{header}
use osdev_hikalium.Allocator.Client.{System, Reach, here, next, released, IsSafe}
use osdev_hikalium.Allocator.Client.History.{Responds, Reach-IsSafe, Reach-Responds}

-- A free region in front of one in use, and the same after the second was given back.
abbrev memory : Memory
memory a =
    if a == 0x1000
    then some (header (some 0x2000) 0x1000 false)
    else if a == 0x2000
    then some (header none 0x820 true)
    else none

abbrev memory_after : Memory
memory_after a = if 0x2000 == a then some (header none 0x820 false) else memory a

abbrev held : System
held = record {
  memory = memory;
  blocks = record { pointer = 0x2020; layout = record { size = 2000; align = 16 } } ∷ [];
}

abbrev nothing_held : System
nothing_held = record { memory = memory_after; blocks = [] }

held-IsSafe : IsSafe (some 0x1000) held
held-IsSafe = record {
  regions = region 0x1000 0x1000 false ∷ region 0x2000 0x820 true ∷ [];
  represents = (refl, (some 0x2000, refl, (refl, (none, refl, refl))));
  heap = ground arith;
  served = ground arith;
  separate = (tt, tt);
  aligned = (refl, tt);
}

released_once : Reach (some 0x1000) held nothing_held
unfolding dealloc
released_once = next here (
    released [] [] (record { pointer = 0x2020; layout = record { size = 2000; align = 16 } }) refl
      refl refl)

Reach-IsSafe_example : IsSafe (some 0x1000) nothing_held
Reach-IsSafe_example = Reach-IsSafe (some 0x1000) held nothing_held held-IsSafe released_once

Reach-Responds_example : Responds (some 0x1000) nothing_held
Reach-Responds_example = Reach-Responds (some 0x1000) held nothing_held held-IsSafe released_once

-- A heap of one region, a pointer that is granted and given back, and the next one.
abbrev layout : Layout
layout = record { size = 1234; align = 4096 }

abbrev memory_of : {A : Type 0} → Outcome (A × Memory) → Memory
memory_of (ok (a, m)) = m
memory_of panic = λ a. none
memory_of fault = λ a. none
memory_of out_of_fuel = λ a. none

abbrev fresh : System
fresh = record {
  memory = λ a. if a == 0x1000 then some (header none 0x20000 false) else none;
  blocks = [];
}

fresh-IsSafe : IsSafe (some 0x1000) fresh
fresh-IsSafe = record {
  regions = region 0x1000 0x20000 false ∷ [];
  represents = (refl, (none, refl, refl));
  heap = ground arith;
  served = tt;
  separate = tt;
  aligned = tt;
}

abbrev taken : System
taken = record {
  memory = memory_of (alloc_with_options 2 (some 0x1000) layout fresh.memory);
  blocks = record { pointer = 0x20000; layout = layout } ∷ [];
}

abbrev returned : System
returned = record { memory = memory_of (dealloc 0x20000 taken.memory); blocks = [] }

first_grant :
    alloc_with_options 2 (some 0x1000) layout fresh.memory ≡ ok (some 0x20000, taken.memory)
unfolding alloc_with_options walk provide provide_rounded round_up_to_nearest_pow2
first_grant = refl

given_back : Reach (some 0x1000) taken returned
unfolding dealloc alloc_with_options walk provide provide_rounded round_up_to_nearest_pow2
given_back =
    next here (released [] [] (record { pointer = 0x20000; layout = layout }) refl refl refl)

second_grant :
    alloc_with_options 2 (some 0x1000) layout returned.memory
    ≡ ok (some 0x1f000, memory_of (alloc_with_options 2 (some 0x1000) layout returned.memory))
unfolding dealloc alloc_with_options walk provide provide_rounded round_up_to_nearest_pow2
second_grant = refl

Reach-grants_once_example : ◌≢◌ {A = ℕ} 0x1f000 0x20000
Reach-grants_once_example =
    Reach-grants_once (some 0x1000) fresh taken returned 2 2 12 0x20000 0x1f000 layout
      (memory_of (alloc_with_options 2 (some 0x1000) layout returned.memory)) fresh-IsSafe
      (record { power = refl; nonzero = omega arith; in_isize = omega arith }) first_grant refl
      given_back second_grant
