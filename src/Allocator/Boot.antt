-- ===== src/Allocator/Boot.antt =====
-- `init_with_mmap` over a whole memory map.
use osdev_hikalium.Prelude.{
  ℕ, ◌-◌, refl, inl, inr, not, ◌&&◌, Option, none, List, [], ◌∷◌, ◌++◌, All, All-append, Bool-cases,
  max, leb, arith,
}
use osdev_hikalium.Uefi.Types.{EfiMemoryDescriptor, conventional_memory, same_type}
use osdev_hikalium.Allocator.Memory.{Memory}
use osdev_hikalium.Allocator.FirstFit.{init_with_mmap}
use osdev_hikalium.Allocator.Regions.{Region, end_of, Apart, IsHeap}
use osdev_hikalium.Allocator.Chain.{Chain}
use osdev_hikalium.Allocator.Init.{
  bytes_of, usable, heap_of, IsMemoryMap, Builds, descriptor-Builds, init_conventional, init_other,
  usable_other,
}

-- Descriptors that share no byte with the regions of a heap.
abbrev AllApart : List EfiMemoryDescriptor → List Region → Type 0
AllApart es rs = All (λ e. All (Apart (bytes_of e)) rs) es

usable-Apart :
    (d e : EfiMemoryDescriptor)
    → Apart (bytes_of e) (bytes_of d)
    → All (Apart (bytes_of d)) (usable e)
usable-Apart d e a =
    elim (Bool-cases (
      same_type e.memory_type conventional_memory
      && not (leb (end_of (bytes_of e) - max e.physical_start 4096) 4096))) [
        | inl kept ↦ rw kept (ground arith, tt)
        | inr dropped ↦ rw dropped tt
      ]

AllApart-usable :
    (e : EfiMemoryDescriptor) (es : List EfiMemoryDescriptor) (rs : List Region)
    → All (λ d. Apart (bytes_of e) (bytes_of d)) es
    → AllApart es rs
    → AllApart es (usable e ++ rs)
AllApart-usable e [] rs a h = tt
AllApart-usable e (d ∷ es) rs a h = (
  All-append (Apart (bytes_of d)) (usable e) rs (usable-Apart d e a.0) h.0,
  AllApart-usable e es rs a.1 h.1,
)

Builds-map :
    (es : List EfiMemoryDescriptor) (m : Memory) (first : Option ℕ) (rs : List Region)
    → IsMemoryMap es
    → AllApart es rs
    → IsHeap rs
    → Chain m first rs
    → Builds (heap_of es rs) (init_with_mmap es first m)
Builds-map [] m first rs map apart heap c = record {
  first = first;
  memory = m;
  returns = unfold init_with_mmap in refl;
  represents = c;
  heap = heap;
}
Builds-map (e ∷ es) m first rs map apart heap c =
    elim (Bool-cases (same_type e.memory_type conventional_memory)) [
      | inl conventional ↦
          let step = descriptor-Builds e m first rs map.0.0 map.0.1 apart.0 heap c conventional in
          rw
            (init_conventional e m first rs map.0.0 map.0.1 apart.0 es step.first step.memory
              conventional step.returns)
            (Builds-map es step.memory step.first (usable e ++ rs) map.2
              (AllApart-usable e es rs map.1 apart.1) step.heap step.represents)
      | inr other ↦
          rw
            (
              init_other e m first rs map.0.0 map.0.1 apart.0 es other,
              usable_other e m first rs map.0.0 map.0.1 apart.0 other,
            )
            (Builds-map es m first rs map.2 apart.1 heap c)
    ]

-- On a memory map of whole pages that do not overlap and end within the address space,
-- init_with_mmap returns without a panic or a fault, and the links in memory represent a heap that
-- satisfies the invariant: for each conventional descriptor one free region of its bytes from
-- address 4096 on, if these are more than one page, later descriptors first.
pub init_with_mmap-Builds :
    (es : List EfiMemoryDescriptor) (m : Memory)
    → IsMemoryMap es
    → Builds (heap_of es []) (init_with_mmap es none m)
init_with_mmap-Builds es m map = Builds-map es m none [] map (nothing es) tt refl
  where
    nothing : (es : List EfiMemoryDescriptor) → AllApart es []
    nothing [] = tt
    nothing (e ∷ es) = (tt, nothing es)
