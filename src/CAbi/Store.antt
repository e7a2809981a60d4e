-- ===== src/CAbi/Store.antt =====
-- The memory that src/nyxstone_c.cpp hands out. `malloc` and `calloc` are the C library's: each call
-- gives a block that was never given before, named by the call's number, or fails; which calls fail
-- is a parameter. A pointer is `none` for NULL.
-- `nyxstone_instruction_t` and `nyxstone_reloc_t`.
use nyxstone_tricore_gcc.Base.{
  ℕ, suc, Bool, Option, none, some, List, [], ◌∷◌, ◌==◌, if◌then◌else◌, take, Bytes, ℤ,
}

pub data Element : Type 0 where
  instruction_element : ℕ → Option ℕ → Option ℕ → ℕ → Element
  reloc_element : ℕ → ℤ → Bool → ℕ → Option ℕ → ℕ → Element

-- Beside text and arrays, an object of the class, and a `nyxstone_handle`, which owns one.
pub data Block : Type 0 where
  chars : Bytes → Block
  array : List Element → Block
  class_object : Block
  handle_block : ℕ → Block

pub record Store : Type 0 where
  pub live : ℕ → Option Block
  pub calls : ℕ

-- One more call of `malloc`, which succeeds.
abbrev pub added : Block → Store → Store
added b s = record { live = λ q. if q == s.calls then some b else s.live q; calls = suc s.calls }

unfoldable pub malloc : (ℕ → Bool) → Block → Store → Option ℕ × Store
malloc fails b s =
    if fails s.calls then (none, record s { calls = suc s.calls }) else (some s.calls, added b s)

unfoldable pub free : Option ℕ → Store → Store
free none s = s
free (some p) s = record s { live = λ q. if q == p then none else s.live q }

-- A block's new contents.
unfoldable pub write : ℕ → Block → Store → Store
write p b s = record s { live = λ q. if q == p then some b else s.live q }

unfoldable pub elements : Option Block → List Element
elements none = []
elements (some (chars b)) = []
elements (some class_object) = []
elements (some (handle_block p)) = []
elements (some (array l)) = l

unfoldable pub free_element : Element → Store → Store
unfolding free
free_element (instruction_element a assembly bytes n) s = free bytes (free assembly s)
free_element (reloc_element o a h t name n) s = free name s

unfoldable pub free_elements : List Element → Store → Store
unfolding free_element
free_elements [] s = s
free_elements (e ∷ l) s = free_elements l (free_element e s)

-- `nyxstone_free_instructions` and `nyxstone_free_relocations`
unfoldable pub free_array : Option ℕ → ℕ → Store → Store
unfolding free_elements elements free
free_array none n s = s
free_array (some p) n s = free (some p) (free_elements (take n (elements (s.live p))) s)
