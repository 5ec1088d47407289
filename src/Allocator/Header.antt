-- ===== src/Allocator/Header.antt =====
-- The methods of `Header` in wasabi/src/allocator.rs.
use osdev_hikalium.Prelude.{
  ℕ, ◌+◌, ◌-◌, Bool, true, false, Option, none, some, max, bit_and, ltb, leb, ◌==◌, if◌then◌else◌,
}
use osdev_hikalium.Prelude.Usize
use osdev_hikalium.Prelude.Usize.{Outcome, ok, panic, checked_add, checked_sub, not_word}
use osdev_hikalium.Allocator.Pow2.{round_up_to_nearest_pow2}
use osdev_hikalium.Allocator.Memory.{
  Header, header_size, Cmd, pure, lift, ◌>>=◌, ◌>>◌, load, store, take_next, new_from_addr,
}

-- `self.size >= size + HEADER_SIZE * 2 + align`.
unfoldable pub can_provide : Header → ℕ → ℕ → Outcome Bool
can_provide h size align =
    Usize.◌>>=◌ (checked_add size (header_size + header_size))
      λ a. Usize.◌>>=◌ (checked_add a align) λ needed. ok (leb needed h.size)

-- `self as usize + self.size`.
unfoldable pub end_addr : ℕ → Header → Outcome ℕ
end_addr self h = checked_add self h.size

-- `(self.end_addr() - size) & !(align - 1)`.
unfoldable pub allocated_addr : ℕ → Header → ℕ → ℕ → Outcome ℕ
unfolding end_addr
allocated_addr self h size align = Usize.◌>>=◌ (end_addr self h) λ end.
    Usize.◌>>=◌ (checked_sub end size)
      λ top. Usize.◌>>=◌ (checked_sub align 1) λ low. ok (bit_and top (not_word low))

-- The header of the area that is handed out, at `place`, takes over the link of `self`.
-- The result is `size_used`.
unfoldable pub put_allocated : ℕ → ℕ → ℕ → Cmd ℕ
unfolding new_from_addr
put_allocated self place size = do
  a ← new_from_addr place
  allocated_size ← lift (checked_add size header_size)
  next ← take_next self
  h ← load a
  store a (record h { is_allocated = true; size = allocated_size; next_header = next })
  pure allocated_size

-- What the alignment leaves between the area and the end of `self` becomes a free region.
unfoldable pub put_padding : ℕ → ℕ → ℕ → Cmd ℕ
unfolding new_from_addr end_addr
put_padding self place used = do
  s ← load self
  a ← load place
  area_end ← lift (end_addr place a)
  self_end ← lift (end_addr self s)
  if area_end == self_end then pure used else do
    padding ← new_from_addr area_end
    padding_size ← lift (checked_sub self_end area_end)
    all_used ← lift (checked_add used padding_size)
    next ← take_next place
    p ← load padding
    store padding (record p { is_allocated = false; size = padding_size; next_header = next })
    a ← load place
    store place (record a { next_header = some padding })
    pure all_used

-- The assertion, and what is left of `self`.
unfoldable pub shrink : ℕ → ℕ → ℕ → Cmd (Unit {0})
shrink self place used = do
  s ← load self
  limit ← lift (checked_add used header_size)
  if ltb limit s.size
      then store self (record s { size = s.size - used; next_header = some place })
      else lift panic

unfoldable pub carve : ℕ → ℕ → ℕ → Cmd (Option ℕ)
unfolding allocated_addr put_allocated put_padding shrink
carve self size align = do
  s ← load self
  addr ← lift (allocated_addr self s size align)
  place ← lift (checked_sub addr header_size)
  used ← put_allocated self place size
  used ← put_padding self place used
  shrink self place used
  pure (some addr)

-- `provide` with the size and the alignment already raised.
unfoldable pub provide_rounded : ℕ → ℕ → ℕ → Cmd (Option ℕ)
unfolding can_provide carve
provide_rounded self size align = do
  s ← load self
  if s.is_allocated then pure none else do
    fits ← lift (can_provide s size align)
    if fits then carve self size align else pure none

-- `none` stands for the null pointer and for `None`.
unfoldable pub provide : ℕ → ℕ → ℕ → Cmd (Option ℕ)
provide self size align = elim (round_up_to_nearest_pow2 size) [
  | none ↦ pure none
  | some rounded ↦ provide_rounded self (max rounded header_size) (max align header_size)
]
