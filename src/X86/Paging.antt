-- ===== src/X86/Paging.antt =====
-- The page tables of wasabi/src/x86.rs. Memory is words of 8 bytes by address; an entry is named by its
-- address. `Box::new` takes the boxes in turn, at the addresses of the parameter `boxes`.
use osdev_hikalium.Prelude.{
  ℕ, zero, suc, ◌+◌, ◌-◌, ◌*◌, ◌/◌, ◌%◌, ◌^◌, bit_and, bit_or, Bool, not, ◌&&◌, ltb, leb, ◌==◌,
  if◌then◌else◌, Option, none, some, List, [], ◌∷◌,
}
use osdev_hikalium.Prelude.Usize.{word_mod, not_word}
pub mod Create
pub mod Tree
pub mod Leaf
pub mod Descend
pub mod Level
pub mod Written
pub mod Translate
pub mod New
mod Tests

abbrev pub page_size : ℕ
page_size = 4096

abbrev pub attr_mask : ℕ
attr_mask = 0xFFF

abbrev pub attr_present : ℕ
attr_present = 1 * 2 ^ 0

abbrev pub attr_writable : ℕ
attr_writable = 1 * 2 ^ 1

abbrev pub attr_write_through : ℕ
attr_write_through = 1 * 2 ^ 3

abbrev pub attr_cache_disable : ℕ
attr_cache_disable = 1 * 2 ^ 4

pub data PageAttr : Type 0 where
  not_present read_write_kernel read_write_io : PageAttr

-- The discriminants.
abbrev pub attr_bits : PageAttr → ℕ
attr_bits not_present = 0
attr_bits read_write_kernel = bit_or attr_present attr_writable
attr_bits read_write_io =
    bit_or (bit_or (bit_or attr_present attr_writable) attr_write_through) attr_cache_disable

-- The error messages.
pub data PageError : Type 0 where
  page_not_found phys_not_aligned already_populated invalid_virt_start invalid_phys : PageError

pub record Tables : Type 0 where
  pub mem : ℕ → ℕ
  pub boxed : ℕ

-- A result and the tables, which a call changes also where it fails; `overflow` is the panic of an
-- addition or a subtraction.
pub data Result {ℓ} (A : Type ℓ) : Type ℓ where
  ok : A → Tables → Result A
  err : PageError → Tables → Result A
  overflow : Result A

infixl 5 ◌>>=◌
abbrev pub ◌>>=◌ {ℓ κ} : {A : Type ℓ} {B : Type κ} → Result A → (A → Tables → Result B) → Result B
ok a t >>= f = f a t
err e t >>= f = err e t
overflow >>= f = overflow

-- The methods of `Entry` on its value.
abbrev pub is_present : ℕ → Bool
is_present value = not (bit_and value (1 * 2 ^ 0) == 0)

abbrev pub is_writable : ℕ → Bool
is_writable value = not (bit_and value (1 * 2 ^ 1) == 0)

abbrev pub is_user : ℕ → Bool
is_user value = not (bit_and value (1 * 2 ^ 2) == 0)

abbrev pub write_entry : Tables → ℕ → ℕ → Tables
write_entry t entry value = record t { mem = λ a. if entry == a then value else t.mem a }

-- `table` and `table_mut`: the address of the next table.
unfoldable pub table_mut : ℕ → Tables → Result ℕ
table_mut entry t =
    if is_present (t.mem entry)
    then ok (bit_and (t.mem entry) (not_word attr_mask)) t
    else err page_not_found t

unfoldable pub set_page : ℕ → ℕ → PageAttr → Tables → Result (Unit {0})
set_page entry phys attr t =
    if not (bit_and phys attr_mask == 0)
    then err phys_not_aligned t
    else ok tt (write_entry t entry (bit_or phys (attr_bits attr)))

-- `calc_index` at a level's shift.
abbrev pub calc_index : ℕ → ℕ → ℕ
calc_index shift addr = bit_and (addr / 2 ^ shift) 0b1_1111_1111

-- The entry of a table: its index is below 512.
abbrev pub entry_at : ℕ → ℕ → ℕ
entry_at table index = table + 8 * index

-- `Table::next_level`.
unfoldable pub next_level : Tables → ℕ → ℕ → Option ℕ
next_level t table index =
    if ltb index 512
    then (if is_present (t.mem (entry_at table index))
        then some (bit_and (t.mem (entry_at table index)) (not_word attr_mask))
        else none)
    else none

-- The shifts of `PML4`, `PDPT`, `PD` and `PT`.
abbrev pub pml4_shift : ℕ
pml4_shift = 39

abbrev pub pdpt_shift : ℕ
pdpt_shift = 30

abbrev pub pd_shift : ℕ
pd_shift = 21

abbrev pub pt_shift : ℕ
pt_shift = 12

module _ (boxes : ℕ → ℕ) where
  -- `Box::new` of a zeroed table.
  abbrev pub zeroed_box : Tables → Tables
  zeroed_box t =
      let box = boxes t.boxed in
      record {
        mem = λ a. if leb box a && ltb a (box + page_size) then 0 else t.mem a;
        boxed = suc t.boxed;
      }

  unfoldable pub populate : ℕ → Tables → Result (Unit {0})
  populate entry t =
      if is_present (t.mem entry)
      then err already_populated t
      else ok tt
          (write_entry (zeroed_box t) entry (bit_or (boxes t.boxed) (attr_bits read_write_kernel)))

  unfoldable pub ensure_populated : ℕ → Tables → Result (Unit {0})
  ensure_populated entry t = if is_present (t.mem entry) then ok tt t else populate entry t

  -- `ensure_populated()?.table_mut()?` at the entry for an address.
  unfoldable pub descend : ℕ → ℕ → ℕ → Tables → Result ℕ
  descend shift addr table t =
      let entry = entry_at table (calc_index shift addr) in
      ensure_populated entry t >>= λ done t. table_mut entry t

  -- The body of the loop of `create_mapping`.
  unfoldable pub map_page : ℕ → ℕ → ℕ → PageAttr → ℕ → Tables → Result (Unit {0})
  map_page pml4 virt_start phys attr addr t = descend pml4_shift addr pml4 t >>= λ table t.
      (descend pdpt_shift addr table t >>= λ table t.
      (descend pd_shift addr table t >>= λ table t.
      (if ltb (phys + addr) word_mod
        then set_page (entry_at table (calc_index pt_shift addr)) (phys + addr - virt_start) attr t
        else overflow)))

  -- `for addr in (virt_start..virt_end).step_by(PAGE_SIZE)`, with the number of rounds.
  unfoldable pub map_pages : ℕ → ℕ → ℕ → ℕ → PageAttr → ℕ → Tables → Result (Unit {0})
  map_pages zero pml4 virt_start phys attr addr t = ok tt t
  map_pages (suc n) pml4 virt_start phys attr addr t =
      map_page pml4 virt_start phys attr addr t >>= λ done t.
      map_pages n pml4 virt_start phys attr (addr + page_size) t

  -- `PML4::create_mapping` on the table at the address `pml4`.
  unfoldable pub create_mapping : ℕ → ℕ → ℕ → ℕ → PageAttr → Tables → Result (Unit {0})
  create_mapping pml4 virt_start virt_end phys attr t =
      if not (bit_and virt_start attr_mask == 0)
      then err invalid_virt_start t
      else if not (bit_and virt_end attr_mask == 0)
      then err invalid_virt_start t
      else if not (bit_and phys attr_mask == 0)
      then err invalid_phys t
      else map_pages ((virt_end - virt_start + (page_size - 1)) / page_size) pml4 virt_start phys
          attr virt_start t
