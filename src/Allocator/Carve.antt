-- ===== src/Allocator/Carve.antt =====
-- What the stages of `provide` leave in memory.
use osdev_hikalium.Prelude.{ℕ, ◌+◌, ◌-◌, ◌<◌, ◌≡◌, ◌≢◌, true, false, none, some, arith}
use osdev_hikalium.Prelude.Usize.{ok, word_mod}
use osdev_hikalium.Allocator.Memory.{Header, Memory, update, fresh_header}
use osdev_hikalium.Allocator.Header.{put_allocated, put_padding, shrink}
use osdev_hikalium.Allocator.Chain.{header}

module _ (m : Memory) (self place : ℕ) (h : Header) (at_self : m self ≡ some h) where
  abbrev pub allocated_memory : ℕ → Memory
  allocated_memory size =
      update (update (update m place fresh_header) self (record h { next_header = none })) place
        (header h.next_header (size + 32) true)

  pub put_allocated_lem :
      (size : ℕ)
      → self ≢ place
      → size + 32 < word_mod
      → put_allocated self place size m ≡ ok (size + 32, allocated_memory size)
  unfolding put_allocated
  put_allocated_lem size apart small = ground arith

  pub shrink_lem :
      (used : ℕ)
      → used + 32 < h.size
      → h.size < word_mod
      → shrink self place used m
        ≡ ok (tt, update m self (record h { size = h.size - used; next_header = some place }))
  unfolding shrink
  shrink_lem used room small = ground arith

  module _ (a : Header) (at_place : m place ≡ some a) (self_end : self + h.size < word_mod) where
    pub put_padding_none :
        (used : ℕ) → place + a.size ≡ self + h.size → put_padding self place used m ≡ ok (used, m)
    unfolding put_padding
    put_padding_none used e = ground arith

    abbrev pub padded_memory : Memory
    padded_memory =
        let pad = place + a.size in
        update
          (update (update (update m pad fresh_header) place (record a { next_header = none })) pad
            (header a.next_header (self + h.size - pad) false))
          place (record a { next_header = some pad })

    pub put_padding_some :
        (used : ℕ)
        → place + a.size < self + h.size
        → place ≢ place + a.size
        → used + (self + h.size - (place + a.size)) < word_mod
        → put_padding self place used m
          ≡ ok (used + (self + h.size - (place + a.size)), padded_memory)
    unfolding put_padding
    put_padding_some used below apart small = ground arith
