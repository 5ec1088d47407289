-- ===== src/Allocator/Init.antt =====
-- `init_with_mmap` turns the memory map into a heap of free regions.
use osdev_hikalium.Prelude.{
  ℕ, ◌-◌, ◌*◌, ◌%◌, ◌<◌, ◌≡◌, refl, inl, inr, true, false, not, ◌&&◌, Option, none, some, List, [],
  ◌∷◌, ◌++◌, All, All-imp, max, leb, if◌then◌else◌, Bool-cases, arith,
}
use osdev_hikalium.Prelude.Usize.{Outcome, ok, word_mod}
use osdev_hikalium.Uefi.Types.{EfiMemoryDescriptor, conventional_memory, same_type}
use osdev_hikalium.Allocator.Memory.{Memory, update, fresh_header}
use osdev_hikalium.Allocator.FirstFit.{add_free, add_free_from_descriptor, init_with_mmap}
use osdev_hikalium.Allocator.Regions.{Region, region, end_of, IsSound, Apart, IsHeap}
use osdev_hikalium.Allocator.Chain.{header, Chain, Chain-frame, SameOutside}
use osdev_hikalium.Allocator.Pieces.{Within-Apart}

-- The bytes that a descriptor speaks of.
abbrev pub bytes_of : EfiMemoryDescriptor → Region
bytes_of e = region e.physical_start (e.number_of_pages * 4096) false

-- The part of a descriptor that the heap may use: conventional memory above the first page, if that
-- is more than one page.
abbrev pub usable : EfiMemoryDescriptor → List Region
usable e =
    let base = max e.physical_start 4096 in
    let rest = end_of (bytes_of e) - base in
    if same_type e.memory_type conventional_memory && not (leb rest 4096)
    then region base rest false ∷ []
    else []

-- Later descriptors come to stand in front.
abbrev pub heap_of : List EfiMemoryDescriptor → List Region → List Region
heap_of [] rs = rs
heap_of (e ∷ es) rs = heap_of es (usable e ++ rs)

-- What UEFI documents of a memory map: whole pages, within the address space, that do not overlap.
abbrev pub IsMemoryMap : List EfiMemoryDescriptor → Type 0
IsMemoryMap [] = Unit
IsMemoryMap (e ∷ es) =
    ((e.physical_start % 4096 ≡ 0) × (end_of (bytes_of e) < word_mod))
    × All (λ d. Apart (bytes_of e) (bytes_of d)) es
    × IsMemoryMap es

-- `out` is a normal return, after which the heap holds `rs`.
pub record Builds (rs : List Region) (out : Outcome (Option ℕ × Memory)) : Type 0 where
  pub first : Option ℕ
  pub memory : Memory
  pub returns : out ≡ ok (first, memory)
  pub represents : Chain memory first rs
  pub heap : IsHeap rs

add_free_base :
    (e : EfiMemoryDescriptor) (first : Option ℕ) (m : Memory)
    → e.physical_start % 4096 ≡ 0
    → end_of (bytes_of e) < word_mod
    → let base = max e.physical_start 4096 in
      add_free_from_descriptor e first m ≡ add_free base (end_of (bytes_of e) - base) first m
unfolding add_free_from_descriptor
add_free_base e first m pages space = ground arith

module _ (r : Region) (m : Memory) (first : Option ℕ) where
  abbrev added : Memory
  added =
      update (update (update m r.start fresh_header) r.start (header none r.size false)) r.start
        (header first r.size false)

  add_free_long :
      leb r.size 4096 ≡ false → add_free r.start r.size first m ≡ ok (some r.start, added)
  unfolding add_free
  add_free_long long = ground arith

  add_free_short : leb r.size 4096 ≡ true → add_free r.start r.size first m ≡ ok (first, m)
  unfolding add_free
  add_free_short short = ground arith

  added-SameOutside : 0 < r.size → SameOutside r.start (end_of r) m added
  added-SameOutside pos q far = ground arith

  added_here : added r.start ≡ some (header first r.size false)
  added_here = ground arith

-- A region in front of a heap that it does not meet, or nothing where it is too short.
add_free-Builds :
    (r : Region) (m : Memory) (first : Option ℕ) (rs : List Region)
    → r.is_allocated ≡ false
    → (4096 < r.size → IsSound r × All (Apart r) rs)
    → IsHeap rs
    → Chain m first rs
    → Builds
        ((if not (leb r.size 4096) then r ∷ [] else []) ++ rs)
        (add_free r.start r.size first m)
add_free-Builds r m first rs free good heap c = elim (Bool-cases (leb r.size 4096)) [
  | inl short ↦ rw short (record {
    first = first;
    memory = m;
    returns = add_free_short r m first short;
    represents = c;
    heap = heap;
  })
  | inr long ↦
      let (sound, apart) = good (ground arith) in
      rw long (record {
        first = some r.start;
        memory = added r m first;
        returns = add_free_long r m first long;
        represents = (
          refl,
          (
            first,
            rw free (added_here r m first),
            Chain-frame m (added r m first) r first rs (added-SameOutside r m first sound.inhabited)
                apart heap c,
          ),
        );
        heap = (sound, apart, heap);
      })
]

module _ (e : EfiMemoryDescriptor) (m : Memory) (first : Option ℕ) (rs : List Region)
    (pages : e.physical_start % 4096 ≡ 0) (space : end_of (bytes_of e) < word_mod)
    (apart : All (Apart (bytes_of e)) rs) where
  abbrev rest_of : Region
  rest_of = let base = max e.physical_start 4096 in region base (end_of (bytes_of e) - base) false

  rest-IsSound : 4096 < rest_of.size → IsSound rest_of × All (Apart rest_of) rs
  rest-IsSound long =
      (omega arith, All-imp rs (λ x. Within-Apart x (bytes_of e) rest_of (omega arith)) apart)

  usable_conventional :
      same_type e.memory_type conventional_memory ≡ true
      → usable e ≡ (if not (leb rest_of.size 4096) then rest_of ∷ [] else [])
  usable_conventional conventional = rw conventional

  pub usable_other : same_type e.memory_type conventional_memory ≡ false → usable e ≡ []
  usable_other other = rw other

  pub init_conventional :
      (es : List EfiMemoryDescriptor) (first' : Option ℕ) (m' : Memory)
      → same_type e.memory_type conventional_memory ≡ true
      → add_free_from_descriptor e first m ≡ ok (first', m')
      → init_with_mmap (e ∷ es) first m ≡ init_with_mmap es first' m'
  unfolding init_with_mmap
  init_conventional es first' m' conventional given = rw (conventional, given)

  pub init_other :
      (es : List EfiMemoryDescriptor)
      → same_type e.memory_type conventional_memory ≡ false
      → init_with_mmap (e ∷ es) first m ≡ init_with_mmap es first m
  unfolding init_with_mmap
  init_other es other = rw other

  pub descriptor-Builds :
      IsHeap rs
      → Chain m first rs
      → same_type e.memory_type conventional_memory ≡ true
      → Builds (usable e ++ rs) (add_free_from_descriptor e first m)
  descriptor-Builds heap c conventional =
      rw (usable_conventional conventional, add_free_base e first m pages space)
        (add_free-Builds rest_of m first rs refl rest-IsSound heap c)
