-- ===== src/Allocator/UnitTests/Overlap/Passes.antt =====
-- The test passes on a heap with enough room.
use osdev_hikalium.Prelude.{
  ℕ, ◌+◌, ◌^◌, ◌≤◌, ◌≡◌, refl, leb, ◌&&◌, true, Option, some, List, [], ◌∷◌, All, length, arith,
}
use osdev_hikalium.Prelude.Usize.{ok}
use osdev_hikalium.Allocator.FirstFit.{Layout}
use osdev_hikalium.Allocator.Layouts.{IsLayout}
use osdev_hikalium.Allocator.Room.{IsReady, demand}
use osdev_hikalium.Allocator.UnitTests.Overlap.{
  Ram, allocations, build_layouts, no_overlap, allocated_objects_have_no_overlap,
}
use osdev_hikalium.Allocator.UnitTests.Overlap.Blocks.{Filled, IsLive}
use osdev_hikalium.Allocator.UnitTests.Overlap.Live.{alloc_vector-Adds, dealloc_at-IsLive}
use osdev_hikalium.Allocator.UnitTests.Overlap.Loops.{
  IsLive-less, all_filled, demand_all, AreLayouts, alloc_all-Holds, check_all-returns,
  dealloc_even-leaves, alloc_even-Holds,
}

abbrev layouts_of : List (ℕ × ℕ) → List Layout
layouts_of [] = []
layouts_of ((size, align) ∷ pairs) = record { size = size; align = align } ∷ layouts_of pairs

-- A pair that Rust builds a layout from.
abbrev IsPair : ℕ × ℕ → Type 0
IsPair pair = (j : ℕ) × (pair.1 ≡ 2 ^ j) × (1 ≤ pair.0) × (pair.0 + pair.1 ≤ 2 ^ 63)

fits : (size j : ℕ) → (leb 1 size && leb (size + 2 ^ j) (2 ^ 63)) ≡ true → IsPair (size, 2 ^ j)
fits size j h = (j, refl, ground (arith, h), ground (arith, h))

allocations-IsPair : All IsPair allocations
allocations-IsPair = (
  fits 128 7 refl,
  (
    fits 32 5 refl,
    (
      fits 8 3 refl,
      (
        fits 16 4 refl,
        (
          fits 6000 6 refl,
          (
            fits 4 2 refl,
            (
              fits 2 1 refl,
              (
                fits 600000 6 refl,
                (
                  fits 64 6 refl,
                  (
                    fits 1 0 refl,
                    (
                      fits 6000 6 refl,
                      (
                        fits 6000 6 refl,
                        (
                          fits 6000 6 refl,
                          (
                            fits 6000 6 refl,
                            (
                              fits 6000 6 refl,
                              (
                                fits 6000 6 refl,
                                (
                                  fits 3 6 refl,
                                  (
                                    fits 3 6 refl,
                                    (
                                      fits 3 6 refl,
                                      (
                                        fits 3 6 refl,
                                        (
                                          fits 3 6 refl,
                                          (
                                            fits 3 6 refl,
                                            (
                                              fits 3 6 refl,
                                              (
                                                fits 3 6 refl,
                                                (
                                                  fits 3 6 refl,
                                                  (
                                                    fits 3 6 refl,
                                                    (
                                                      fits 6000 6 refl,
                                                      (
                                                        fits 6000 6 refl,
                                                        (
                                                          fits 600000 6 refl,
                                                          (
                                                            fits 6000 6 refl,
                                                            (
                                                            fits 60000 6 refl,
                                                            (
                                                            fits 60000 6 refl,
                                                            (
                                                            fits 60000 6 refl,
                                                            (fits 60000 6 refl, tt),
                                                            ),
                                                            ),
                                                            ),
                                                          ),
                                                        ),
                                                      ),
                                                    ),
                                                  ),
                                                ),
                                              ),
                                            ),
                                          ),
                                        ),
                                      ),
                                    ),
                                  ),
                                ),
                              ),
                            ),
                          ),
                        ),
                      ),
                    ),
                  ),
                ),
              ),
            ),
          ),
        ),
      ),
    ),
  ),
)

layouts_of-AreLayouts : (pairs : List (ℕ × ℕ)) → All IsPair pairs → AreLayouts (layouts_of pairs)
layouts_of-AreLayouts [] valid = tt
layouts_of-AreLayouts ((size, align) ∷ pairs) valid = (
  (
    valid.0.0,
    record { power = valid.0.1; nonzero = valid.0.2; in_isize = omega (arith, valid.0.3) },
  ),
  layouts_of-AreLayouts pairs valid.1,
)

module _ (from_size_align : ℕ → ℕ → Option Layout)
    (builds : (size j : ℕ)
      → size + 2 ^ j ≤ 2 ^ 63
      → from_size_align size (2 ^ j) ≡ some (record { size = size; align = 2 ^ j })) where
  build_one :
      (size align j : ℕ)
      → align ≡ 2 ^ j
      → size + align ≤ 2 ^ 63
      → from_size_align size align ≡ some (record { size = size; align = align })
  build_one size align j power fit = rw power (builds size j (omega (arith, power, fit)))

  build_layouts-layouts_of :
      (pairs : List (ℕ × ℕ))
      → All IsPair pairs
      → build_layouts from_size_align pairs ≡ ok (layouts_of pairs)
  unfolding build_layouts
  build_layouts-layouts_of [] valid = refl
  build_layouts-layouts_of ((size, align) ∷ pairs) valid =
      rw
        (build_one size align valid.0.0 valid.0.1 valid.0.3, build_layouts-layouts_of pairs valid.1)
        refl

module _ (first : Option ℕ) (fuel : ℕ) where
  no_overlap-returns :
      (n requests : ℕ) (layouts : List Layout) (f : Filled) (s : Ram)
      → AreLayouts layouts
      → IsLive first fuel
          (n + (demand_all layouts + demand_all layouts))
          (requests + (length layouts + length layouts))
          (f ∷ [])
          s
      → (after : Ram) × (no_overlap fuel first layouts s ≡ ok after)
        × (fs : List Filled) × IsLive first fuel n requests (f ∷ fs) after
  unfolding no_overlap
  no_overlap-returns n requests layouts f s valid live =
      let filled =
        alloc_all-Holds first fuel 0 (n + demand_all layouts) (requests + length layouts) layouts
          (f ∷ []) s valid (IsLive-less _ _ _ _ (omega arith) (omega arith) refl live) in
      let freed =
        dealloc_even-leaves first fuel 0 (n + demand_all layouts) (requests + length layouts)
          layouts filled.pointers (f ∷ []) filled.ram filled.as_many filled.live in
      let again =
        alloc_even-Holds first fuel 0 n requests layouts filled.pointers (f ∷ []) freed.0
          filled.as_many valid freed.2 in
      (
        again.ram,
        rw
            (
              filled.returns,
              check_all-returns first fuel 0 layouts filled.pointers filled.ram
                  filled.live.filled.1,
              freed.1,
              again.returns,
              check_all-returns first fuel 0 layouts again.pointers again.ram again.live.filled.1,
            )
            refl,
        all_filled 0 layouts again.pointers,
        again.live,
      )

-- Nothing is held at first.
nothing-IsLive :
    {first : Option ℕ} {fuel n requests : ℕ} {s : Ram}
    → IsReady first fuel n requests s.headers
    → IsLive first fuel n requests [] s
nothing-IsLive ready = record {
  safe = record {
    regions = ready.regions;
    represents = ready.represents;
    heap = ready.heap;
    served = tt;
    separate = tt;
    aligned = tt;
  };
  room = ready.room;
  short = ready.short;
  filled = tt;
}

-- When Layout::from_size_align builds each layout that Rust documents as valid, the layout of the
-- vector of pointers is valid, and the heap has a free region for all requests together and fuel
-- for 69 of them, the test allocated_objects_have_no_overlap returns: it gets all its memory, and
-- each byte that it reads back, also after half of the blocks were freed and requested again, is
-- the one that it wrote.
pub allocated_objects_have_no_overlap-returns :
    (first : Option ℕ) (fuel : ℕ) (from_size_align : ℕ → ℕ → Option Layout) (vector : Layout)
    (j : ℕ) (s : Ram)
    → ((size j : ℕ)
        → size + 2 ^ j ≤ 2 ^ 63
        → from_size_align size (2 ^ j) ≡ some (record { size = size; align = 2 ^ j }))
    → IsLayout vector j
    → IsReady first fuel (6013682 + demand vector) 69 s.headers
    → (after : Ram) × (allocated_objects_have_no_overlap fuel first from_size_align vector s
        ≡ ok after)
unfolding allocated_objects_have_no_overlap
allocated_objects_have_no_overlap-returns first fuel from_size_align vector j s builds valid ready =
    let held =
      alloc_vector-Adds first fuel 6013682 68 vector j 0 [] [] s valid (nothing-IsLive ready) in
    let ran =
      no_overlap-returns first fuel 0 0 (layouts_of allocations) _ held.ram
        (layouts_of-AreLayouts allocations allocations-IsPair) held.live in
    let freed = dealloc_at-IsLive first fuel 0 0 [] ran.2 _ ran.0 ran.3 in
    (
      freed.0,
      rw
          (
            build_layouts-layouts_of from_size_align builds allocations allocations-IsPair,
            held.returns,
            ran.1,
          )
          freed.1,
    )
