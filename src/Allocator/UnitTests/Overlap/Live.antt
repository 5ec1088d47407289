-- ===== src/Allocator/UnitTests/Overlap/Live.antt =====
-- What holds between the calls of the test: the blocks are safe, room is left, and each holds its byte.
use osdev_hikalium.Prelude.{
  ℕ, ◌+◌, ◌*◌, ◌%◌, ◌^◌, ◌<◌, ◌≡◌, refl, sym, ap, Option, none, some, List, ◌∷◌, ◌++◌, All,
  All-append, All-append_left, All-append_right, Any, Any-All, length, arith, ◌≤◌, [],
}
use osdev_hikalium.Prelude.Usize.{Outcome, ok}
use osdev_hikalium.Allocator.FirstFit.{Layout, alloc_with_options}
use osdev_hikalium.Allocator.Layouts.{IsLayout}
use osdev_hikalium.Allocator.Room.{HasRoom, demand}
use osdev_hikalium.Allocator.Client.{Block, Serving, IsSafe}
use osdev_hikalium.Allocator.Client.Release.{dealloc-Keeps, Separate-remove}
use osdev_hikalium.Allocator.UnitTests.Overlap.{
  Ram, write_bytes, after_call, alloc_filled, alloc_vector, dealloc_at,
}
use osdev_hikalium.Allocator.UnitTests.Overlap.Writes.{bytes_there, headers_there}
use osdev_hikalium.Allocator.Regions.{Region}
use osdev_hikalium.Allocator.UnitTests.Overlap.Blocks.{
  All-Shows-write, All-insert, Filled, IsLive, Places, Separate-insert, Shows, alloc-Places, blocks,
  blocks-append, resafe, All-Shows-alloc, All-Shows-dealloc, write_bytes-IsSafe,
}

-- A safe block in front is put in its place.
module _ (first : Option ℕ) (fuel n requests : ℕ) (fs gs : List Filled) (f : Filled) (s : Ram)
    (safe : IsSafe first
      (record { memory = s.headers; blocks = f.block ∷ blocks (fs ++ gs) })) where
  pub insert-IsLive :
      Any (HasRoom n) safe.regions
      → length safe.regions + 2 * requests < fuel
      → Shows s f.block f.value
      → All (λ f. Shows s f.block f.value) (fs ++ gs)
      → IsLive first fuel n requests (fs ++ f ∷ gs) s
  insert-IsLive room short new old = record {
    safe = record {
      regions = safe.regions;
      represents = safe.represents;
      heap = safe.heap;
      served = rw (blocks-append fs (f ∷ gs)) (
          All-insert _ (blocks fs) (blocks gs) f.block safe.served.0
            (rw (blocks-append fs gs) at safe.served.1));
      separate = rw (blocks-append fs (f ∷ gs)) (
          Separate-insert (blocks fs) (blocks gs) f.block
            (rw (blocks-append fs gs) at safe.separate.0)
            (rw (blocks-append fs gs) at safe.separate.1));
      aligned = rw (blocks-append fs (f ∷ gs)) (
          All-insert _ (blocks fs) (blocks gs) f.block safe.aligned.0
            (rw (blocks-append fs gs) at safe.aligned.1));
    };
    room = room;
    short = short;
    filled =
        All-append _ fs (f ∷ gs) (All-append_left _ fs gs old) (new, All-append_right _ fs gs old);
  }

-- `out` is the normal return of a pointer, whose block is live among the others.
pub record Adds (first : Option ℕ) (fuel n requests : ℕ) (layout : Layout) (value : Option ℕ)
    (fs gs : List Filled) (out : Outcome (Option ℕ × Ram)) : Type 0 where
  pub pointer : ℕ
  pub ram : Ram
  pub returns : out ≡ ok (some pointer, ram)
  pub live :
      IsLive first fuel n requests
        (fs ++ record { block = record { pointer = pointer; layout = layout }; value = value } ∷ gs)
        ram

module _ (first : Option ℕ) (fuel n requests : ℕ) (layout : Layout) (j i : ℕ) (fs gs : List Filled)
    (s : Ram) (valid : IsLayout layout j)
    (live : IsLive first fuel (n + demand layout) (requests + 1) (fs ++ gs) s) where
  placed :
      Places first fuel n requests layout s.headers live.safe.regions
        (blocks (fs ++ gs))
        (alloc_with_options fuel first layout s.headers)
  placed =
      alloc-Places first fuel n requests layout j s.headers (blocks (fs ++ gs)) live.safe valid
        live.room live.short

  -- The memory after the request, and after the writes to the new block.
  abbrev block : Block
  block = record { pointer = placed.pointer; layout = layout }

  abbrev written : ℕ → Ram
  written v = write_bytes placed.pointer layout.size v (after_call placed.memory s)

  written-IsLive :
      (v : ℕ) (value : Option ℕ)
      → Shows (written v) block value
      → IsLive first fuel n requests
          (fs ++ record { block = block; value = value } ∷ gs)
          (written v)
  written-IsLive v value shows =
      let kept =
        All-Shows-alloc live.safe.regions placed.memory s (fs ++ gs) live.safe.heap placed.elsewhere
          live.safe.served live.filled in
      let safe =
        write_bytes-IsSafe first block (blocks (fs ++ gs)) v (after_call placed.memory s)
          placed.safe in
      insert-IsLive first fuel n requests fs gs (record { block = block; value = value })
        (written v) safe.0 (rw safe.1 placed.room) (rw safe.1 placed.short) shows
        (All-Shows-write block v (after_call placed.memory s) (fs ++ gs) placed.above
          placed.safe.separate.0 kept)

  pub alloc_filled-Adds :
      Adds first fuel n requests layout
        (some (i % 2 ^ 8))
        fs
        gs
        (alloc_filled fuel first layout i s)
  unfolding alloc_filled
  alloc_filled-Adds = record {
    pointer = placed.pointer;
    ram = written (i % 2 ^ 8);
    returns = rw placed.returns refl;
    live = written-IsLive (i % 2 ^ 8) (some (i % 2 ^ 8)) λ k lt. (
      bytes_there placed.pointer layout.size (i % 2 ^ 8) (after_call placed.memory s) k lt,
      headers_there placed.pointer layout.size (i % 2 ^ 8) (after_call placed.memory s) k lt,
    );
  }

  -- The storage of the pointers.
  pub alloc_vector-Adds :
      Adds first fuel n requests layout none fs gs (alloc_vector fuel first layout s)
  unfolding alloc_vector
  alloc_vector-Adds = record {
    pointer = placed.pointer;
    ram = written 0;
    returns = rw placed.returns refl;
    live = written-IsLive 0 none tt;
  }

above_all :
    (rs : List Region) (bs : List Block)
    → All (λ b. Any (Serving b) rs) bs
    → All (λ b. 32 ≤ b.pointer) bs
above_all rs [] h = tt
above_all rs (b ∷ bs) h =
    (Any-All rs (λ r low serving. serving.3) (always rs) h.0, above_all rs bs h.1)
  where
    always : (rs : List Region) → All (λ r. 0 ≤ r.start) rs
    always [] = tt
    always (r ∷ rs) = (omega arith, always rs)

-- Giving a block back.
pub dealloc_at-IsLive :
    (first : Option ℕ) (fuel n requests : ℕ) (fs gs : List Filled) (f : Filled) (s : Ram)
    → IsLive first fuel n requests (fs ++ f ∷ gs) s
    → (after : Ram) × (dealloc_at fuel first (some f.block.pointer) s ≡ ok after)
      × IsLive first fuel n requests (fs ++ gs) after
dealloc_at-IsLive first fuel n requests fs gs f s live =
    let split =
      resafe first s.headers (blocks (fs ++ f ∷ gs)) (blocks fs ++ f.block ∷ blocks gs)
        (blocks-append fs (f ∷ gs)) live.safe in
    let kept = dealloc-Keeps first s.headers (blocks fs) (blocks gs) f.block split.0 in
    let joined =
      resafe first kept.memory (blocks fs ++ blocks gs) (blocks (fs ++ gs))
        (sym (blocks-append fs gs)) kept.safe in
    let rest = All-append_right (λ f. Shows s f.block f.value) fs (f ∷ gs) live.filled in
    let others = Separate-remove (blocks fs) (blocks gs) f.block split.0.separate in
    let low = above_all split.0.regions (blocks fs ++ f.block ∷ blocks gs) split.0.served in
    let low_others = above_all joined.0.regions (blocks (fs ++ gs)) joined.0.served in
    (
      after_call kept.memory s,
      rw kept.returns refl,
      record {
        safe = joined.0;
        room = rw joined.1 (kept.room n (rw split.1 live.room));
        short = omega (arith, live.short, ap length joined.1, kept.as_many, ap length split.1);
        filled =
            All-Shows-dealloc f.block kept.memory s (fs ++ gs)
              (All-append_right (λ b. 32 ≤ b.pointer) (blocks fs) (f.block ∷ blocks gs) low).0
              kept.elsewhere (rw (blocks-append fs gs) others.0) low_others
              (All-append _ fs gs (All-append_left _ fs (f ∷ gs) live.filled) rest.1);
      },
    )
